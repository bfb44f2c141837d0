-- ===== src/Common/Dict.antt =====
-- Dictionaries of Python: in the order of insertion, with an equality test on their keys.
use peer_bridge_cli.Common.{
  Bool, true, false, Option, none, some, List, [], ◌∷◌, ◌≡◌, refl, arith, if◌then◌else◌,
}

-- A test that is an equivalence.
pub record Key {ℓ} (K : Type ℓ) : Type ℓ where
  pub same : K → K → Bool
  pub same_refl : (a : K) → same a a ≡ true
  pub same_cong : (a b c : K) → same a b ≡ true → same a c ≡ same b c

module _ {ℓ κ} {K : Type ℓ} {V : Type κ} (key : Key K) where
  open key use {same, same_refl, same_cong}

  -- `d.get(k)`
  unfoldable pub get : K → List (K × V) → Option V
  get k [] = none
  get k ((j, v) ∷ d) = if same j k then some v else get k d

  -- `d[k] = v`. A key that is there stays as it is.
  unfoldable pub put : K → V → List (K × V) → List (K × V)
  put k v [] = (k, v) ∷ []
  put k v ((j, w) ∷ d) = if same j k then (j, v) ∷ d else (j, w) ∷ put k v d

  -- `del d[k]`, where the key is there.
  unfoldable pub remove : K → List (K × V) → List (K × V)
  remove k [] = []
  remove k ((j, w) ∷ d) = let rest = remove k d in if same j k then rest else (j, w) ∷ rest

  pub get-put :
      (i k : K) (v : V) (d : List (K × V))
      → get i (put k v d) ≡ (if same k i then some v else get i d)
  unfolding get put
  get-put i k v [] = refl
  get-put i k v ((j, w) ∷ d) =
      ground
        (arith, get-put i k v d, same_cong j k i, same_cong j i k, same_cong k i k, same_refl k)

  pub get-remove :
      (i k : K) (d : List (K × V)) → get i (remove k d) ≡ (if same k i then none else get i d)
  unfolding get remove
  get-remove i k [] = ground arith
  get-remove i k ((j, w) ∷ d) =
      ground
        (arith, get-remove i k d, same_cong j k i, same_cong j i k, same_cong k i k, same_refl k)

  pub get-put_self : (k : K) (v : V) (d : List (K × V)) → get k (put k v d) ≡ some v
  get-put_self k v d = ground (arith, get-put k k v d, same_refl k)

  pub get-put_other :
      (i k : K) (v : V) (d : List (K × V)) → same k i ≡ false → get i (put k v d) ≡ get i d
  get-put_other i k v d h = ground (arith, get-put i k v d)

  pub get-cong : (a b : K) (d : List (K × V)) → same a b ≡ true → get a d ≡ get b d
  unfolding get
  get-cong a b [] h = refl
  get-cong a b ((j, w) ∷ d) h = ground (
    arith,
    get-cong a b d h,
    same_cong a b a h,
    same_cong a b j h,
    same_cong j a b,
    same_cong j b a,
    same_refl a,
    same_refl b,
  )

  -- A new key leaves what is at the others.
  pub get-put_new :
      (i k : K) (v w : V) (d : List (K × V))
      → get k d ≡ none
      → get i d ≡ some w
      → get i (put k v d) ≡ some w
  get-put_new i k v w d new old = ground (arith, get-put i k v d, get-cong k i d)
