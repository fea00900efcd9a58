-- ===== src/Keyvalue/State.antt =====
-- wasi_keyvalue/context.rs and bucket_keys.rs: the state that the host functions work on, and how a
-- bucket and a key become one string. The table of resources of the crate `wasmtime` is a parameter.
use wavs.Prelude.{ℕ, Option, List, ◌++◌, map, Bytes, bytes}
use wavs.Prelude.Map.{Map}
use wavs.Prelude.Result.{Result, ok, ◌>>=◌, map_err}

pub record KeyPrefix : Type 0 where
  pub namespace : Bytes
  pub bucket_id : Bytes

pub record Key : Type 0 where
  pub prefix : KeyPrefix
  pub key : Bytes

abbrev pub Handle : Type 0
Handle = ℕ

-- `ResourceTable`: buckets and compare-and-swap handles under their numbers.
pub record ResourceTableCrate : Type 1 where
  pub Table : Type 0
  pub get_bucket : Table → Handle → Result Bytes Bytes
  pub get_cas : Table → Handle → Result Bytes Key
  pub push_bucket : Table → Bytes → Result Bytes (Table × Handle)
  pub push_cas : Table → Key → Result Bytes (Table × Handle)
  pub delete : Table → Handle → Result Bytes Table

-- `format!("{}/{}", namespace, bucket_id)`.
unfoldable pub prefix_string : KeyPrefix → Bytes
prefix_string p = p.namespace ++ (bytes "/" ++ p.bucket_id)

unfoldable pub key_string : Key → Bytes
unfolding prefix_string
key_string k = prefix_string k.prefix ++ (bytes "/" ++ k.key)

module _ (T : ResourceTableCrate) where
  pub record KeyValueState : Type 0 where
    pub kv_store : Map Bytes Bytes
    pub kv_atomics_counter : Map Bytes ℕ
    pub namespace : Bytes
    pub resource_table : T.Table
    pub page_size : Option ℕ

  unfoldable pub get_bucket : KeyValueState → Handle → Result Bytes Bytes
  get_bucket s bucket =
      map_err (λ e. bytes "Failed to get keyvalue bucket: " ++ e)
        (T.get_bucket s.resource_table bucket)

  unfoldable pub get_key_prefix : KeyValueState → Handle → Result Bytes KeyPrefix
  unfolding get_bucket
  get_key_prefix s bucket = do
    id ← get_bucket s bucket
    ok (record { namespace = s.namespace; bucket_id = id })

  unfoldable pub get_key : KeyValueState → Handle → Bytes → Result Bytes Key
  unfolding get_key_prefix
  get_key s bucket key = do
    prefix ← get_key_prefix s bucket
    ok (record { prefix = prefix; key = key })

  unfoldable pub get_keys : KeyValueState → Handle → List Bytes → Result Bytes (List Key)
  unfolding get_key_prefix
  get_keys s bucket keys = do
    prefix ← get_key_prefix s bucket
    ok (map (λ key. record { prefix = prefix; key = key }) keys)
