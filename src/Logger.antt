-- ===== src/Logger.antt =====
-- client/include/logger.hpp and client/src/logger.cpp: the folder of the logs, the names in it, and
-- the console's switch. The file system is kept as the names in the folder `logs`, in the order in
-- which the iterator meets them; reading and printing a time are the C library's, and a time is
-- counted from the earliest.
pub mod Limiter
pub mod Paths
pub mod Sweep
pub mod Times
pub mod Setup
use peer_bridge_cli.Common.{
  ℕ, zero, suc, ◌+◌, Bool, true, false, not, ◌&&◌, ◌||◌, Option, none, some, List, [], ◌∷◌, ◌++◌,
  Text, codes, text_eq, map, take, drop, length, leb, ◌==◌, if◌then◌else◌,
}

-- `ConditionalLogger`, and what it has printed.
pub record ConditionalLogger : Type 0 where
  pub logging_enabled : Bool
  pub printed : List Text

abbrev pub new_logger : ConditionalLogger
new_logger = record { logging_enabled = true; printed = [] }

unfoldable pub set_logging_enabled : Bool → ConditionalLogger → ConditionalLogger
set_logging_enabled enabled l = record l { logging_enabled = enabled }

unfoldable pub is_logging_enabled : ConditionalLogger → Bool
is_logging_enabled l = l.logging_enabled

unfoldable pub toggle_logging : ConditionalLogger → ConditionalLogger × Bool
toggle_logging l =
    let enabled = not l.logging_enabled in (record l { logging_enabled = enabled }, enabled)

-- `operator<<`, of data and of a manipulator.
unfoldable pub put : Text → ConditionalLogger → ConditionalLogger
put data_text l =
    if l.logging_enabled then record l { printed = l.printed ++ data_text ∷ [] } else l

-- `/` and `\`
abbrev pub is_separator : ℕ → Bool
is_separator c = c == 47 || c == 92

-- `path.find_last_of("/\\")`
unfoldable pub find_last_of : Text → Option ℕ
find_last_of [] = none
find_last_of (c ∷ cs) = elim (find_last_of cs) [
  | some i ↦ some (suc i)
  | none ↦ if is_separator c then some 0 else none
]

-- `found + 1`; for `npos` it wraps round to 0.
abbrev pub after : Option ℕ → ℕ
after none = 0
after (some i) = suc i

unfoldable pub isolate_last_entry_in_path : Text → Text
isolate_last_entry_in_path path = drop (after (find_last_of path)) path

unfoldable pub remove_last_entry_in_path : Text → Text
remove_last_entry_in_path path = take (after (find_last_of path)) path

-- `cmakeMoment`, with the preferred separator of the system.
unfoldable pub cmake_moment : ℕ → Text → Text
cmake_moment preferred [] = []
cmake_moment preferred (c ∷ cs) =
    let rest = cmake_moment preferred cs in (if c == 47 || c == 92 then preferred else c) ∷ rest

-- `sort`
unfoldable pub insert_time : ℕ → List ℕ → List ℕ
insert_time t [] = t ∷ []
insert_time t (u ∷ us) = let rest = insert_time t us in if leb t u then t ∷ u ∷ us else u ∷ rest

unfoldable pub sort_times : List ℕ → List ℕ
sort_times [] = []
sort_times (t ∷ ts) = insert_time t (sort_times ts)

unfoldable pub contains : Text → List Text → Bool
contains name [] = false
contains name (n ∷ ns) = text_eq n name || contains name ns

-- `remove_all`, of one entry of the folder.
unfoldable pub remove_entry : Text → List Text → List Text
remove_entry name [] = []
remove_entry name (n ∷ ns) =
    let rest = remove_entry name ns in if text_eq n name then rest else n ∷ rest

-- The folder `logs`, `none` where it does not exist, and the lines printed on the way.
pub record LogFolder : Type 0 where
  pub logs : Option (List Text)
  pub lines : List Text

module _ (string_to_time : Text → ℕ) (time_to_string : ℕ → Text) (separator : ℕ) where
  abbrev pub entry_path : Text → Text
  entry_path name = codes "logs" ++ (separator ∷ name)

  abbrev pub entry_time : Text → ℕ
  entry_time name = string_to_time (isolate_last_entry_in_path (entry_path name))

  -- The oldest entry goes where there are six or more: what is left where nothing throws.
  unfoldable pub sweep : List Text → List Text
  sweep names =
      let times = map entry_time names in
      if not (length times == 0) && leb 6 (length times)
      then elim (sort_times times) [
        | [] ↦ names
        | oldest ∷ rest ↦ remove_entry (time_to_string oldest) names
      ]
      else names

  -- The line that a sweep prints, of the first entry.
  unfoldable pub farewell : List Text → List Text
  farewell [] = []
  farewell (name ∷ names) =
      if leb 6 (suc (length names))
      then (codes "hello, this should be removed: " ++ time_to_string (entry_time name)) ∷ []
      else []

  -- `create_directory` of the directory of this start. It throws where the system refuses.
  unfoldable pub create_current : Bool → Text → List Text → LogFolder → Option (LogFolder × Text)
  create_current creates current names f =
      if contains current names
      then some (record f { logs = some names }, entry_path current)
      else if not creates
      then none
      else some (record f { logs = some (names ++ current ∷ []) }, entry_path current)

  -- `lists` and `removes` say whether the iterator and `remove_all` get through; where they do not,
  -- they throw.
  unfoldable pub sweep_logs : Bool → Bool → List Text → Option (List Text)
  sweep_logs lists removes names =
      if not lists || (leb 6 (length names) && not removes) then none else some (sweep names)

  unfoldable pub initialize_log_directory :
      ℕ → Bool → Bool → Bool → LogFolder → Option (LogFolder × Text)
  initialize_log_directory now lists removes creates f =
      let current = time_to_string now in
      elim f.logs [
        | some names ↦ elim (sweep_logs lists removes names) [
          | none ↦ none
          | some kept ↦
              create_current creates current kept (record f { lines = f.lines ++ farewell names })
        ]
        | none ↦
            if not creates
            then none
            else create_current creates current [] (record f {
              lines =
                  f.lines ++ codes "[ERROR] Creating log folder failed, stopping process..." ∷ [];
            })
      ]
