-- ===== src/Prelude/Map.antt =====
-- Rust's maps as association lists: `HashMap` and `DashMap` (whose order the program does not use
-- before it sorts), and a `BTreeMap`, kept in key order by `insert_by` a strict order on the keys.
use mathlib.Core.Path.{◌≡◌, refl}
use mathlib.Core.Bool.{Bool, true, false}
use mathlib.Core.Option.{Option, none, some}
use mathlib.Core.List.{List, [], ◌∷◌}
use native.Mathlib.Omega.{arith}
use wavs.Prelude.Tests.{Eq, ◌==◌, if◌then◌else◌}

abbrev pub Map : Type 0 → Type 0 → Type 0
Map K V = List (K × V)

module _ {K V : Type 0} ⦃e : Eq K⦄ where
  unfoldable pub get : Map K V → K → Option V
  get [] k = none
  get ((j, v) ∷ m) k = if j == k then some v else get m k

  unfoldable pub insert : K → V → Map K V → Map K V
  insert k v [] = (k, v) ∷ []
  insert k v ((j, w) ∷ m) = if j == k then (k, v) ∷ m else (j, w) ∷ insert k v m

  unfoldable pub insert_by : (K → K → Bool) → K → V → Map K V → Map K V
  insert_by lt k v [] = (k, v) ∷ []
  insert_by lt k v ((j, w) ∷ m) =
      if j == k
      then (k, v) ∷ m
      else if lt k j
      then (k, v) ∷ (j, w) ∷ m
      else (j, w) ∷ insert_by lt k v m

  unfoldable pub remove : K → Map K V → Map K V
  remove k [] = []
  remove k ((j, v) ∷ m) = if j == k then remove k m else (j, v) ∷ remove k m

  unfoldable pub contains_key : Map K V → K → Bool
  contains_key [] k = false
  contains_key ((j, v) ∷ m) k = if j == k then true else contains_key m k

  pub get-insert :
      (k j : K) (v : V) (m : Map K V) → get (insert k v m) j ≡ (if k == j then some v else get m j)
  unfolding get insert
  get-insert k j v [] = refl
  get-insert k j v ((i, w) ∷ m) = ground (arith, get-insert k j v m)

  pub get-insert_by :
      (lt : K → K → Bool) (k j : K) (v : V) (m : Map K V)
      → get (insert_by lt k v m) j ≡ (if k == j then some v else get m j)
  unfolding get insert_by
  get-insert_by lt k j v [] = refl
  get-insert_by lt k j v ((i, w) ∷ m) = ground (arith, get-insert_by lt k j v m)

  pub get-remove : (k j : K) (m : Map K V) → get (remove k m) j ≡ (if k == j then none else get m j)
  unfolding get remove
  get-remove k j [] = ground arith
  get-remove k j ((i, w) ∷ m) = ground (arith, get-remove k j m)

  pub contains_key-get :
      (m : Map K V) (k : K) → contains_key m k ≡ elim (get m k) [ none ↦ false | some _ ↦ true ]
  unfolding get contains_key
  contains_key-get [] k = refl
  contains_key-get ((j, v) ∷ m) k = ground (arith, contains_key-get m k)
