-- ===== src/Prelude/Distinct.antt =====
-- Maps with each key once, as a hash map has them.
use mathlib.Core.Path.{◌≡◌, refl}
use mathlib.Core.Bool.{true, false}
use mathlib.Core.List.{[], ◌∷◌}
use native.Mathlib.Omega.{arith}
use wavs.Prelude.Tests.{if◌then◌else◌, ◌==◌, eq_sym, Eq}
use wavs.Prelude.Map.{Map, insert, remove, contains_key}

module _ {K V : Type 0} ⦃e : Eq K⦄ where
  abbrev pub IsDistinct : Map K V → Type 0
  IsDistinct [] = Unit
  IsDistinct ((k, v) ∷ m) = (contains_key m k ≡ false) × IsDistinct m

  contains_key-insert :
      (k j : K) (v : V) (m : Map K V)
      → contains_key (insert k v m) j ≡ (if k == j then true else contains_key m j)
  unfolding contains_key insert
  contains_key-insert k j v [] = refl
  contains_key-insert k j v ((i, w) ∷ m) = ground (arith, contains_key-insert k j v m)

  pub insert-IsDistinct : (k : K) (v : V) (m : Map K V) → IsDistinct m → IsDistinct (insert k v m)
  unfolding insert contains_key
  insert-IsDistinct k v [] h = (refl, tt)
  insert-IsDistinct k v ((j, w) ∷ m) h =
      ground (arith, insert-IsDistinct k v m h.1, contains_key-insert k j v m, eq_sym k j)

  contains_key-remove :
      (k j : K) (m : Map K V)
      → contains_key (remove k m) j ≡ (if k == j then false else contains_key m j)
  unfolding contains_key remove
  contains_key-remove k j [] = ground arith
  contains_key-remove k j ((i, w) ∷ m) = ground (arith, contains_key-remove k j m)

  pub remove-IsDistinct : (k : K) (m : Map K V) → IsDistinct m → IsDistinct (remove k m)
  unfolding remove
  remove-IsDistinct k [] h = tt
  remove-IsDistinct k ((j, w) ∷ m) h =
      ground (arith, remove-IsDistinct k m h.1, contains_key-remove k j m)
