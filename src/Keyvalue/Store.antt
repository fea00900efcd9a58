-- ===== src/Keyvalue/Store.antt =====
-- wasi_keyvalue/store.rs: `wasi:keyvalue/store`. The state comes first in a result, and an error
-- leaves it as it was; `store::Error::Other` is its text.
use wavs.Prelude.{
  ℕ, zero, suc, ◌+◌, Bool, true, false, not, Option, none, some, List, [], ◌∷◌, ◌++◌, map, retain,
  length, Bytes, bytes, bytes_eq, bytes_lt, ◌==◌, nat_eq, ltb, if◌then◌else◌,
}
use wavs.Prelude.Map.{Map, get, insert, remove}
use wavs.Prelude.Result.{Result, ok, ◌>>=◌, map_err}
use wavs.Keyvalue.State.{
  KeyPrefix, Key, Handle, ResourceTableCrate, KeyValueState, key_string, prefix_string, get_key,
  get_key_prefix,
}

-- `KeyResponse`.
pub record KeyResponse : Type 0 where
  pub keys : List Bytes
  pub cursor : Option Bytes

-- `str::starts_with`.
unfoldable pub starts_with : Bytes → Bytes → Bool
starts_with [] s = true
starts_with (p ∷ ps) [] = false
starts_with (p ∷ ps) (c ∷ s) = if p == c then starts_with ps s else false

unfoldable pub drop : ℕ → Bytes → Bytes
drop zero s = s
drop (suc n) [] = []
drop (suc n) (c ∷ s) = drop n s

-- `Vec::sort` on strings.
unfoldable pub insert_sorted : Bytes → List Bytes → List Bytes
insert_sorted k [] = k ∷ []
insert_sorted k (j ∷ l) = if bytes_lt j k then j ∷ insert_sorted k l else k ∷ j ∷ l

unfoldable pub sort : List Bytes → List Bytes
unfolding insert_sorted
sort [] = []
sort (k ∷ l) = insert_sorted k (sort l)

-- The keys from the first that is not below the cursor on.
unfoldable pub from_cursor : Bytes → List Bytes → List Bytes
from_cursor cursor [] = []
from_cursor cursor (k ∷ l) = if bytes_lt k cursor then from_cursor cursor l else k ∷ l

abbrev pub is_full : Option ℕ → ℕ → Bool
is_full none count = false
is_full (some page_size) count = ltb page_size count

-- The loop over `keys_from_cursor`.
unfoldable pub take_page : Option ℕ → Bytes → ℕ → List Bytes → KeyResponse
unfolding starts_with drop
take_page page_size prefix count [] = record { keys = []; cursor = none }
take_page page_size prefix count (key ∷ l) =
    let rest = take_page page_size prefix (count + 1) l in
    if not (starts_with prefix key)
    then record { keys = []; cursor = none }
    else if is_full page_size (count + 1)
    then record { keys = []; cursor = some key }
    else record { keys = drop (length prefix) key ∷ rest.keys; cursor = rest.cursor }

abbrev pub start_at : KeyPrefix → Option Bytes → List Bytes → List Bytes
start_at prefix none all_keys = all_keys
start_at prefix (some cursor) all_keys =
    from_cursor (key_string (record { prefix = prefix; key = cursor })) all_keys

-- The `Ok` of a call that returns a value and one that changes the state.
abbrev pub is_some : Option Bytes → Bool
is_some none = false
is_some (some v) = true

module _ (T : ResourceTableCrate) where
  unfoldable pub set_store_value : KeyValueState T → Key → Bytes → KeyValueState T
  unfolding key_string
  set_store_value s key value = record s { kv_store = insert (key_string key) value s.kv_store }

  unfoldable pub get_store_value : KeyValueState T → Key → Option Bytes
  unfolding key_string
  get_store_value s key = get s.kv_store (key_string key)

  unfoldable pub open_bucket : KeyValueState T → Bytes → Result Bytes (KeyValueState T × Handle)
  open_bucket s id = do
    (table, bucket) ←
        map_err (λ e. bytes "Failed to open keyvalue bucket: " ++ e)
          (T.push_bucket s.resource_table id)
    ok (record s { resource_table = table }, bucket)

  unfoldable pub get_value : KeyValueState T → Handle → Bytes → Result Bytes (Option Bytes)
  unfolding get_key get_store_value
  get_value s bucket key_id = do key ← get_key T s bucket key_id; ok (get_store_value s key)

  unfoldable pub set : KeyValueState T → Handle → Bytes → Bytes → Result Bytes (KeyValueState T)
  unfolding get_key set_store_value
  set s bucket key_id value = do key ← get_key T s bucket key_id; ok (set_store_value s key value)

  unfoldable pub delete : KeyValueState T → Handle → Bytes → Result Bytes (KeyValueState T)
  unfolding get_key key_string
  delete s bucket key_id = do
    key ← get_key T s bucket key_id
    ok (record s { kv_store = remove (key_string key) s.kv_store })

  unfoldable pub exists : KeyValueState T → Handle → Bytes → Result Bytes Bool
  unfolding get_value
  exists s bucket key = do value ← get_value s bucket key; ok (is_some value)

  unfoldable pub matching : Bytes → Map Bytes Bytes → List Bytes
  unfolding starts_with retain
  matching prefix store = retain (starts_with prefix) (map (λ entry. entry.0) store)

  unfoldable pub list_keys : KeyValueState T → Handle → Option Bytes → Result Bytes KeyResponse
  unfolding get_key_prefix prefix_string sort take_page matching
  list_keys s bucket cursor = do
    prefix ← get_key_prefix T s bucket
    let prefix_str = prefix_string prefix ++ bytes "/"
    ok (
        take_page s.page_size prefix_str 0
          (start_at prefix cursor (sort (matching prefix_str s.kv_store))))

  -- `HostBucket::drop`, and the same for a compare-and-swap handle.
  unfoldable pub drop_handle : KeyValueState T → Handle → Result Bytes (KeyValueState T)
  drop_handle s handle = do
    table ← T.delete s.resource_table handle
    ok (record s { resource_table = table })
