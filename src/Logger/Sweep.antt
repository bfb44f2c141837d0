-- ===== src/Logger/Sweep.antt =====
-- What the start leaves in the folder of the logs.
use peer_bridge_cli.Common.{
  ℕ, suc, ◌≤◌, ◌<◌, ◌≡◌, refl, ap, subst, ◌∙◌, ◌⊎◌, true, not, ◌&&◌, Option, none, some, false,
  List, [], ◌∷◌, ◌++◌, Text, codes, arith, map, length, leb, All, ◌==◌, Bool-cases, inl, inr,
  text_eq, text_eq_iff, length-append, length-map, if_on, if_off, All-map,
}
use peer_bridge_cli.Logger.Paths.{Plain, isolate-entry_path}
use peer_bridge_cli.Logger.{
  is_separator, insert_time, sort_times, contains, remove_entry, LogFolder, entry_time, sweep,
  create_current, sweep_logs, initialize_log_directory, farewell,
}

text_eq_refl : (n : Text) → text_eq n n ≡ true
text_eq_refl n = (text_eq_iff n n).1 refl

contains-All {κ} :
    (P : Text → Type κ) (n : Text) (names : List Text) → contains n names ≡ true → All P names → P n
unfolding contains
contains-All P n [] h a = cc
contains-All P n (m ∷ ms) h a = elim (Bool-cases (text_eq m n)) [
  | inl e ↦ subst P ((text_eq_iff m n).0 e) a.0
  | inr e ↦ contains-All P n ms (ground arith) a.1
]

contains-snoc : (n : Text) (names : List Text) → contains n (names ++ n ∷ []) ≡ true
unfolding contains
contains-snoc n [] = rw (text_eq_refl n) refl
contains-snoc n (m ∷ ms) = ground (arith, contains-snoc n ms)

-- The first of the sorted times is the time of a name, and no name has an earlier one.
record Oldest (f : Text → ℕ) (names : List Text) : Type 0 where
  name : Text
  later : List ℕ
  sorted : sort_times (map f names) ≡ f name ∷ later
  member : contains name names ≡ true
  least : All (λ n. f name ≤ f n) names

oldest : (f : Text → ℕ) (name : Text) (names : List Text) → Oldest f (name ∷ names)
unfolding sort_times insert_time contains
oldest f name [] = record {
  name = name;
  later = [];
  sorted = refl;
  member = rw (text_eq_refl name) refl;
  least = (omega arith, tt);
}
oldest f name (m ∷ ms) =
    let o = oldest f m ms in
    elim (Bool-cases (leb (f name) (f o.name))) [
      | inl before ↦ record {
        name = name;
        later = f o.name ∷ o.later;
        sorted = rw (o.sorted, before) refl;
        member = rw (text_eq_refl name) refl;
        least =
            (omega arith, All-map (λ n. f o.name ≤ f n) _ (m ∷ ms) (λ n h. ground arith) o.least);
      }
      | inr behind ↦ record {
        name = o.name;
        later = insert_time (f name) o.later;
        sorted = rw (o.sorted, behind) refl;
        member = ground (arith, o.member);
        least = (ground arith, o.least);
      }
    ]

remove-le : (n : Text) (names : List Text) → length (remove_entry n names) ≤ length names
unfolding remove_entry
remove-le n [] = omega arith
remove-le n (m ∷ ms) = ground (arith, remove-le n ms)

remove-lt :
    (n : Text) (names : List Text)
    → contains n names ≡ true
    → length (remove_entry n names) < length names
unfolding remove_entry contains
remove-lt n [] h = cc
remove-lt n (m ∷ ms) h = elim (Bool-cases (text_eq m n)) [
  | inl e ↦ rw e (omega (arith, remove-le n ms))
  | inr e ↦ rw e (omega (arith, remove-lt n ms (ground arith)))
]

module _ (string_to_time : Text → ℕ) (time_to_string : ℕ → Text) (separator : ℕ) where
  -- The time that the start reads from a name.
  abbrev pub read_time : Text → ℕ
  read_time = entry_time string_to_time time_to_string separator

  chosen :
      (name : Text) (names : List Text) (o : Oldest read_time (name ∷ names))
      → All (λ n. time_to_string (read_time n) ≡ n) (name ∷ names)
      → elim (sort_times (map read_time (name ∷ names))) as (λ _. List Text) [
        | [] ↦ name ∷ names
        | first ∷ rest ↦ remove_entry (time_to_string first) (name ∷ names)
      ]
        ≡ remove_entry o.name (name ∷ names)
  chosen name names o h = rw (o.sorted) (
      ap (λ n. remove_entry n (name ∷ names))
        (contains-All (λ n. time_to_string (read_time n) ≡ n) o.name (name ∷ names) o.member h))

  -- Of a folder with fewer than six entries nothing is removed; of a larger one exactly one entry
  -- is removed, and no other has an earlier time. Every name is one that the program prints for
  -- the time it reads from it.
  sweep_lem :
      (names : List Text)
      → All (λ n. time_to_string (read_time n) ≡ n) names
      → let kept = sweep string_to_time time_to_string separator names in
        ((length names < 6) × (kept ≡ names))
        ⊎ ((6 ≤ length names)
            × ((old : Text) × (contains old names ≡ true)
                × All (λ n. read_time old ≤ read_time n) names
                × (kept ≡ remove_entry old names)))
  unfolding sweep
  sweep_lem [] h = inl (omega arith, refl)
  sweep_lem (name ∷ names) h =
      let all = name ∷ names in
      let l = length-map read_time all in
      elim (Bool-cases (leb 6 (length all))) [
        | inl many ↦
            let o = oldest read_time name names in
            inr (
              ground arith,
              (
                o.name,
                o.member,
                o.least,
                if_on (not (length (map read_time all) == 0) && leb 6 (length (map read_time all)))
                      _ _ (ground arith)
                    ∙ chosen name names o h,
              ),
            )
        | inr few ↦ inl (
          ground arith,
          if_off (not (length (map read_time all) == 0) && leb 6 (length (map read_time all))) _ _
              (ground arith),
        )
      ]

  -- The directory of a start.
  abbrev pub directory : ℕ → Text
  directory now = codes "logs" ++ (separator ∷ time_to_string now)

  -- What is in the folder once this start has its directory.
  abbrev Kept : ℕ → ℕ → Option (LogFolder × Text) → Type 0
  Kept now bound o =
      (f : LogFolder) × (path : Text) × (kept : List Text) × (o ≡ some (f, path))
      × (path ≡ directory now)
      × (f.logs ≡ some kept)
      × (contains (time_to_string now) kept ≡ true)
      × (length kept ≤ bound)

  create_current-Kept :
      (now : ℕ) (names : List Text) (f : LogFolder)
      → Kept now
          (suc (length names))
          (create_current string_to_time time_to_string separator true (time_to_string now) names f)
  unfolding create_current
  create_current-Kept now names f =
      let current = time_to_string now in
      elim (Bool-cases (contains current names)) [
        | inl there ↦ rw there (_, _, names, refl, refl, refl, there, omega arith)
        | inr absent ↦ rw absent (
          _,
          _,
          names ++ current ∷ [],
          refl,
          refl,
          refl,
          contains-snoc current names,
          omega (arith, length-append names (current ∷ [])),
        )
      ]

  sweep-bound :
      (names : List Text)
      → All (λ n. time_to_string (read_time n) ≡ n) names
      → let kept = sweep string_to_time time_to_string separator names in
        (length kept < 6) ⊎ (length kept < length names)
  sweep-bound names h = elim (sweep_lem names h) [
    | inl (few, e) ↦ inl (omega (arith, few, ap length e))
    | inr (many, (old, member, least, e)) ↦
        inr (omega (arith, remove-lt old names member, ap length e))
  ]

  -- A name that the program prints for the time that it reads from it, with no separator in it.
  abbrev pub IsStamp : Text → Type 0
  IsStamp n = Plain n × (time_to_string (string_to_time n) ≡ n)

  stamps-read :
      is_separator separator ≡ true
      → (names : List Text) → All IsStamp names
      → All (λ n. time_to_string (read_time n) ≡ n) names
  stamps-read sep names h =
      All-map IsStamp _ names
        (λ n (plain, back).
          ap (λ m. time_to_string (string_to_time m)) (isolate-entry_path separator n sep plain)
          ∙ back)
        h

  -- A sweep that gets through.
  cleared :
      (now : ℕ) (lines names : List Text)
      → initialize_log_directory string_to_time time_to_string separator now true true true
          (record { logs = some names; lines = lines })
        ≡ create_current string_to_time time_to_string separator true
            (time_to_string now)
            (sweep string_to_time time_to_string separator names)
            (record {
              logs = some names;
              lines = lines ++ farewell string_to_time time_to_string separator names;
            })
  unfolding initialize_log_directory sweep_logs
  cleared now lines names =
      ap
        (λ (o : Option (List Text)). elim o [
          | none ↦ none
          | some kept ↦
              create_current string_to_time time_to_string separator true (time_to_string now) kept
                (record {
                  logs = some names;
                  lines = lines ++ farewell string_to_time time_to_string separator names;
                })
        ])
        (if_off (leb 6 (length names) && false) _ _ (ground arith))

  -- The directory of a start, in a folder of such names.
  pub initialize_log_directory-length :
      (now : ℕ) (lines names : List Text)
      → is_separator separator ≡ true
      → All IsStamp names
      → (g : LogFolder) × (path : Text) × (kept : List Text) × (initialize_log_directory
            string_to_time time_to_string separator now true true true
            (record { logs = some names; lines = lines })
          ≡ some (g, path))
        × (path ≡ directory now)
        × (g.logs ≡ some kept)
        × (contains (time_to_string now) kept ≡ true)
        × ((length kept ≤ 6) ⊎ (length kept ≤ length names))
  unfolding initialize_log_directory sweep_logs
  initialize_log_directory-length now lines names sep stamps =
      let h = stamps-read sep names stamps in
      let swept = sweep string_to_time time_to_string separator names in
      let (g, path, kept, r, dir, a, b, c) = create_current-Kept now swept (record {
        logs = some names;
        lines = lines ++ farewell string_to_time time_to_string separator names;
      }) in
      (
        g,
        path,
        kept,
        cleared now lines names ∙ r,
        dir,
        a,
        b,
        elim (sweep-bound names h) [
          | inl few ↦ inl (omega (arith, c, few))
          | inr fewer ↦ inr (omega (arith, c, fewer))
        ],
      )
