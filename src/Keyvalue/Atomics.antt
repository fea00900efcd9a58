-- ===== src/Keyvalue/Atomics.antt =====
-- wasi_keyvalue/atomics.rs: `wasi:keyvalue/atomics`. An i64 is its 64 bits, a number below 2^64, and
-- its addition wraps (a build with overflow checks panics there).
use wavs.Prelude.{ℕ, ◌+◌, ◌%◌, ◌^◌, Option, none, some, ◌++◌, Bytes, bytes, bytes_eq}
use wavs.Prelude.Map.{get, insert}
use wavs.Prelude.Result.{Result, ok, ◌>>=◌, map_err}
use wavs.Keyvalue.State.{Key, Handle, ResourceTableCrate, KeyValueState, key_string, get_key}
use wavs.Keyvalue.Store.{get_store_value, set_store_value}

abbrev pub i64_mod : ℕ
i64_mod = 2 ^ 64

abbrev pub count_or_zero : Option ℕ → ℕ
count_or_zero none = 0
count_or_zero (some n) = n

module _ (T : ResourceTableCrate) where
  unfoldable pub get_cas : KeyValueState T → Handle → Result Bytes Key
  get_cas s cas =
      map_err (λ e. bytes "Failed to get keyvalue cas: " ++ e) (T.get_cas s.resource_table cas)

  unfoldable pub get_atomic_count : KeyValueState T → Key → Option ℕ
  unfolding key_string
  get_atomic_count s key = get s.kv_atomics_counter (key_string key)

  unfoldable pub save_atomic_count : KeyValueState T → Key → ℕ → KeyValueState T
  unfolding key_string
  save_atomic_count s key value = record s {
    kv_atomics_counter = insert (key_string key) value s.kv_atomics_counter;
  }

  unfoldable pub increment :
      KeyValueState T → Handle → Bytes → ℕ → Result Bytes (KeyValueState T × ℕ)
  unfolding get_key get_atomic_count save_atomic_count
  increment s bucket key_id delta = do
    key ← get_key T s bucket key_id
    let count = (count_or_zero (get_atomic_count s key) + delta) % i64_mod
    ok (save_atomic_count s key count, count)

  unfoldable pub swap : KeyValueState T → Handle → Bytes → Result Bytes (KeyValueState T)
  unfolding get_cas set_store_value
  swap s cas value = do key ← get_cas s cas; ok (set_store_value T s key value)

  unfoldable pub new_cas :
      KeyValueState T → Handle → Bytes → Result Bytes (KeyValueState T × Handle)
  unfolding get_key
  new_cas s bucket key_id = do
    key ← get_key T s bucket key_id
    (table, cas) ←
        map_err (λ e. bytes "Failed to create keyvalue cas: " ++ e)
          (T.push_cas s.resource_table key)
    ok (record s { resource_table = table }, cas)

  unfoldable pub current : KeyValueState T → Handle → Result Bytes (Option Bytes)
  unfolding get_cas get_store_value
  current s cas = do key ← get_cas s cas; ok (get_store_value T s key)
