-- ===== src/Logger/Paths.antt =====
-- The two halves of a path.
use peer_bridge_cli.Common.{
  ℕ, suc, ◌≡◌, refl, ap, ◌∙◌, ◌⊎◌, true, false, none, some, [], ◌∷◌, ◌++◌, Text, take, drop, length,
  All, Bool-cases, inl, inr,
}
use peer_bridge_cli.Logger.{
  find_last_of, after, is_separator, isolate_last_entry_in_path, remove_last_entry_in_path,
  entry_path,
}

-- No separator in a text.
abbrev pub Plain : Text → Type 0
Plain s = All (λ c. is_separator c ≡ false) s

-- What `find_last_of` finds: nothing in a plain text, or the separator before a plain rest.
data Found (s : Text) : Type 0 where
  plain : find_last_of s ≡ none → Plain s → Found s
  at_separator :
      (dir : Text) (c : ℕ) (base : Text)
      → s ≡ dir ++ c ∷ base
      → is_separator c ≡ true
      → Plain base
      → find_last_of s ≡ some (length dir)
      → Found s

find-Found : (s : Text) → Found s
unfolding find_last_of
find-Found [] = plain refl tt
find-Found (c ∷ s) = elim (find-Found s) [
  | plain e h ↦ elim (Bool-cases (is_separator c)) [
    | inl sep ↦ at_separator [] c s refl sep h (rw (e, sep) refl)
    | inr other ↦ plain (rw (e, other) refl) (other, h)
  ]
  | at_separator dir d base split sep h e ↦
      at_separator (c ∷ dir) d base (ap (◌∷◌ c) split) sep h (rw e refl)
]

drop-after : (dir : Text) (c : ℕ) (base : Text) → drop (suc (length dir)) (dir ++ c ∷ base) ≡ base
drop-after [] c base = refl
drop-after (d ∷ dir) c base = drop-after dir c base

take-after :
    (dir : Text) (c : ℕ) (base : Text) → take (suc (length dir)) (dir ++ c ∷ base) ≡ dir ++ c ∷ []
take-after [] c base = refl
take-after (d ∷ dir) c base = ap (◌∷◌ d) (take-after dir c base)

-- A path without a separator is its own last entry, and nothing is left when that is removed; any
-- other path is cut behind its last separator into what is left and the last entry.
path-halves :
    (path : Text)
    → (Plain path
        × (isolate_last_entry_in_path path ≡ path)
        × (remove_last_entry_in_path path ≡ []))
      ⊎ ((dir : Text) × (c : ℕ) × (base : Text) × (path ≡ dir ++ c ∷ base)
          × (is_separator c ≡ true)
          × Plain base
          × (isolate_last_entry_in_path path ≡ base)
          × (remove_last_entry_in_path path ≡ dir ++ c ∷ []))
unfolding isolate_last_entry_in_path remove_last_entry_in_path
path-halves path = elim (find-Found path) [
  | plain e h ↦ inl (h, ap (λ o. drop (after o) path) e, ap (λ o. take (after o) path) e)
  | at_separator dir c base split sep h e ↦ inr (
    dir,
    c,
    base,
    split,
    sep,
    h,
    ap (λ o. drop (after o) path) e ∙ ap (drop (suc (length dir))) split ∙ drop-after dir c base,
    ap (λ o. take (after o) path) e ∙ ap (take (suc (length dir))) split ∙ take-after dir c base,
  )
]

find-Plain : (s : Text) → Plain s → find_last_of s ≡ none
unfolding find_last_of
find-Plain [] h = refl
find-Plain (c ∷ s) h = rw (find-Plain s h.1, h.0) refl

-- The name of an entry of the folder is what is isolated from its path.
pub isolate-entry_path :
    (separator : ℕ) (name : Text)
    → is_separator separator ≡ true
    → Plain name
    → isolate_last_entry_in_path (entry_path (λ s. 0) (λ t. []) separator name) ≡ name
unfolding isolate_last_entry_in_path find_last_of
isolate-entry_path separator name sep h = rw (find-Plain name h, sep) refl
