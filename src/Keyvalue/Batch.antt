-- ===== src/Keyvalue/Batch.antt =====
-- wasi_keyvalue/batch.rs: `wasi:keyvalue/batch`.
use wavs.Prelude.{Option, none, some, List, [], ◌∷◌, Bytes, bytes_eq}
use wavs.Prelude.Map.{Map, get, insert, remove}
use wavs.Prelude.Result.{Result, ok, ◌>>=◌}
use wavs.Keyvalue.State.{
  KeyPrefix, Key, Handle, ResourceTableCrate, KeyValueState, key_string, get_keys, get_key_prefix,
}

abbrev pub with_key : Bytes → Option Bytes → Option (Bytes × Bytes)
with_key key none = none
with_key key (some value) = some (key, value)

-- The loop of `get_many`, which takes the keys by their positions.
unfoldable pub read_all : Map Bytes Bytes → List Bytes → List Key → List (Option (Bytes × Bytes))
unfolding key_string
read_all store [] keys = []
read_all store (original ∷ originals) [] = []
read_all store (original ∷ originals) (key ∷ keys) =
    with_key original (get store (key_string key)) ∷ read_all store originals keys

unfoldable pub write_all : KeyPrefix → List (Bytes × Bytes) → Map Bytes Bytes → Map Bytes Bytes
unfolding key_string
write_all prefix [] store = store
write_all prefix ((key, value) ∷ rest) store =
    write_all prefix rest (insert (key_string (record { prefix = prefix; key = key })) value store)

unfoldable pub remove_all : List Key → Map Bytes Bytes → Map Bytes Bytes
unfolding key_string
remove_all [] store = store
remove_all (key ∷ keys) store = remove_all keys (remove (key_string key) store)

module _ (T : ResourceTableCrate) where
  unfoldable pub get_many :
      KeyValueState T → Handle → List Bytes → Result Bytes (List (Option (Bytes × Bytes)))
  unfolding get_keys read_all
  get_many s bucket original_keys = do
    keys ← get_keys T s bucket original_keys
    ok (read_all s.kv_store original_keys keys)

  unfoldable pub set_many :
      KeyValueState T → Handle → List (Bytes × Bytes) → Result Bytes (KeyValueState T)
  unfolding get_key_prefix write_all
  set_many s bucket key_values = do
    prefix ← get_key_prefix T s bucket
    ok (record s { kv_store = write_all prefix key_values s.kv_store })

  unfoldable pub delete_many :
      KeyValueState T → Handle → List Bytes → Result Bytes (KeyValueState T)
  unfolding get_keys remove_all
  delete_many s bucket original_keys = do
    keys ← get_keys T s bucket original_keys
    ok (record s { kv_store = remove_all keys s.kv_store })
