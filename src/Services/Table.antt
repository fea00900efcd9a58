-- ===== src/Services/Table.antt =====
-- packages/utils/src/storage/db.rs: `WavsDbTable`, a `DashMap`. No operation fails.
use wavs.Prelude.{Option, none, some, Eq}
use wavs.Prelude.Map.{Map, get, insert}

module _ {K V : Type 0} ⦃e : Eq K⦄ where
  unfoldable pub get_cloned : Map K V → K → Option V
  get_cloned table key = get table key

  unfoldable pub map_ref : {T : Type 0} → Map K V → K → (V → T) → Option T
  map_ref table key f = elim (get table key) [ none ↦ none | some v ↦ some (f v) ]

  abbrev updated : K → (V → V) → V → Map K V → Option V → Map K V
  updated key update_fn default table none = insert key default table
  updated key update_fn default table (some v) = insert key (update_fn v) table

  -- A vacant entry gets the default, and the update is not applied to it.
  unfoldable pub update_or_insert_default : Map K V → V → K → (V → V) → Map K V
  update_or_insert_default table default key update_fn =
      updated key update_fn default table (get table key)
