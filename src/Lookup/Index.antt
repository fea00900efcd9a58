-- ===== src/Lookup/Index.antt =====
-- The `HashMap<Key, HashSet<LookupId>>` of lookup.rs. A `HashSet` is a list without repetition, and
-- an entry whose set becomes empty is removed.
use wavs.Prelude.{
  ℕ, ◌≡◌, refl, not, Option, none, some, List, [], ◌∷◌, arith, if◌then◌else◌, any, retain, Eq, ◌==◌,
  nat_eq,
}
use wavs.Prelude.Map.{Map, get, insert, remove, get-insert, get-remove}

-- `HashSet::insert`, `HashSet::remove`.
unfoldable pub set_insert : ℕ → List ℕ → List ℕ
unfolding any
set_insert id ids = if any (λ j. j == id) ids then ids else id ∷ ids

unfoldable pub set_remove : ℕ → List ℕ → List ℕ
unfolding retain
set_remove id ids = retain (λ j. not (j == id)) ids

abbrev pub or_default : Option (List ℕ) → List ℕ
or_default none = []
or_default (some ids) = ids

module _ {K : Type 0} ⦃e : Eq K⦄ where
  -- The ids under a key; none if it has no entry.
  abbrev pub ids_of : Map K (List ℕ) → K → List ℕ
  ids_of m k = or_default (get m k)

  -- `entry(key).or_default().insert(id)`.
  unfoldable pub add_to : K → ℕ → Map K (List ℕ) → Map K (List ℕ)
  unfolding set_insert
  add_to k id m = insert k (set_insert id (ids_of m k)) m

  abbrev pub store_set : K → List ℕ → Map K (List ℕ) → Map K (List ℕ)
  store_set k [] m = remove k m
  store_set k (j ∷ ids) m = insert k (j ∷ ids) m

  abbrev pub drop_found : K → ℕ → Map K (List ℕ) → Option (List ℕ) → Map K (List ℕ)
  drop_found k id m none = m
  drop_found k id m (some ids) = store_set k (set_remove id ids) m

  -- `if let Some(set) = lock.get_mut(&key) { set.remove(&id); if set.is_empty() { lock.remove(&key) } }`.
  unfoldable pub drop_from : K → ℕ → Map K (List ℕ) → Map K (List ℕ)
  unfolding set_remove
  drop_from k id m = drop_found k id m (get m k)

  pub ids_of-add_to :
      (k j : K) (id : ℕ) (m : Map K (List ℕ))
      → ids_of (add_to k id m) j ≡ (if k == j then set_insert id (ids_of m j) else ids_of m j)
  unfolding add_to
  ids_of-add_to k j id m = ground (arith, get-insert k j (set_insert id (ids_of m k)) m)

  store_set-ids_of :
      (k j : K) (ids : List ℕ) (m : Map K (List ℕ))
      → ids_of (store_set k ids m) j ≡ (if k == j then ids else ids_of m j)
  store_set-ids_of k j [] m = ground (arith, get-remove k j m)
  store_set-ids_of k j (i ∷ ids) m = ground (arith, get-insert k j (i ∷ ids) m)

  drop_found-ids_of :
      (k j : K) (id : ℕ) (m : Map K (List ℕ)) (o : Option (List ℕ))
      → get m k ≡ o
      → ids_of (drop_found k id m o) j ≡ (if k == j then set_remove id (ids_of m j) else ids_of m j)
  unfolding set_remove retain
  drop_found-ids_of k j id m none e = ground arith
  drop_found-ids_of k j id m (some ids) e =
      ground (arith, store_set-ids_of k j (set_remove id ids) m)

  pub ids_of-drop_from :
      (k j : K) (id : ℕ) (m : Map K (List ℕ))
      → ids_of (drop_from k id m) j ≡ (if k == j then set_remove id (ids_of m j) else ids_of m j)
  unfolding drop_from
  ids_of-drop_from k j id m = drop_found-ids_of k j id m (get m k) refl
