-- ===== src/Keyvalue/Calls.antt =====
-- Batches and counters (wasi_keyvalue/batch.rs, atomics.rs) against single calls.
use wavs.Prelude.{
  ℕ, ◌+◌, ◌%◌, ◌<◌, ◌≡◌, refl, sym, ap, ◌∙◌, Option, List, [], ◌∷◌, arith, map, Bytes, bytes_eq,
  eq_refl,
}
use wavs.Prelude.Map.{insert, remove, get-insert}
use wavs.Prelude.Result.{Result, ok, ◌>>=◌}
use wavs.Keyvalue.State.{
  Key, Handle, ResourceTableCrate, KeyValueState, key_string, get_bucket, get_keys, get_key_prefix,
}
use wavs.Keyvalue.Store.{get_value, set, delete, set_store_value}
use wavs.Keyvalue.Batch.{with_key, read_all, write_all, remove_all, get_many, set_many, delete_many}
use wavs.Keyvalue.Atomics.{i64_mod, count_or_zero, get_atomic_count, save_atomic_count, increment}
use wavs.Keyvalue.Separate.{key_of, value_in, key_in}

abbrev pub sum : List ℕ → ℕ
sum [] = 0
sum (d ∷ ds) = d + sum ds

add-sum : (c d n : ℕ) → ((c + d) % i64_mod + n) % i64_mod ≡ (c + (d + n)) % i64_mod
add-sum c d n = omega arith

below : (n : ℕ) → n % i64_mod < i64_mod
below n = omega arith

module _ (T : ResourceTableCrate) where
  -- `get` on each key, one after another.
  abbrev pub get_each :
      KeyValueState T → Handle → List Bytes → Result Bytes (List (Option (Bytes × Bytes)))
  get_each s bucket [] = ok []
  get_each s bucket (key ∷ keys) = do
    value ← get_value T s bucket key
    rest ← get_each s bucket keys
    ok (with_key key value ∷ rest)

  abbrev pub set_each :
      KeyValueState T → Handle → List (Bytes × Bytes) → Result Bytes (KeyValueState T)
  set_each s bucket [] = ok s
  set_each s bucket ((key, value) ∷ rest) = do
    s' ← set T s bucket key value
    set_each s' bucket rest

  abbrev pub delete_each : KeyValueState T → Handle → List Bytes → Result Bytes (KeyValueState T)
  delete_each s bucket [] = ok s
  delete_each s bucket (key ∷ keys) = do s' ← delete T s bucket key; delete_each s' bucket keys

  abbrev keys_in : KeyValueState T → Bytes → List Bytes → List Key
  keys_in s id keys = map (λ key. key_of s.namespace id key) keys

  get_each_lem :
      (s : KeyValueState T) (bucket : Handle) (id : Bytes) (keys : List Bytes)
      → T.get_bucket s.resource_table bucket ≡ ok id
      → get_each s bucket keys ≡ ok (read_all s.kv_store keys (keys_in s id keys))
  unfolding read_all
  get_each_lem s bucket id [] e = refl
  get_each_lem s bucket id (key ∷ keys) e =
      rw (value_in T s bucket id key e, get_each_lem s bucket id keys e) refl

  set_each_lem :
      (s : KeyValueState T) (bucket : Handle) (id : Bytes) (entries : List (Bytes × Bytes))
      → T.get_bucket s.resource_table bucket ≡ ok id
      → set_each s bucket entries
        ≡ ok (record s {
          kv_store =
              write_all (record { namespace = s.namespace; bucket_id = id }) entries s.kv_store;
        })
  unfolding write_all set set_store_value
  set_each_lem s bucket id [] e = refl
  set_each_lem s bucket id ((key, value) ∷ rest) e = rw (key_in T s bucket id key e) (
      set_each_lem
        (record s { kv_store = insert (key_string (key_of s.namespace id key)) value s.kv_store })
        bucket id rest e)

  delete_each_lem :
      (s : KeyValueState T) (bucket : Handle) (id : Bytes) (keys : List Bytes)
      → T.get_bucket s.resource_table bucket ≡ ok id
      → delete_each s bucket keys
        ≡ ok (record s { kv_store = remove_all (keys_in s id keys) s.kv_store })
  unfolding remove_all delete
  delete_each_lem s bucket id [] e = refl
  delete_each_lem s bucket id (key ∷ keys) e = rw (key_in T s bucket id key e) (
      delete_each_lem
        (record s { kv_store = remove (key_string (key_of s.namespace id key)) s.kv_store }) bucket
        id keys e)

  -- On an open bucket, the three batch calls are the single calls one after another.
  pub batch_each :
      (s : KeyValueState T) (bucket : Handle) (id : Bytes) (keys : List Bytes)
      (entries : List (Bytes × Bytes))
      → T.get_bucket s.resource_table bucket ≡ ok id
      → (get_many T s bucket keys ≡ get_each s bucket keys)
        × (set_many T s bucket entries ≡ set_each s bucket entries)
        × (delete_many T s bucket keys ≡ delete_each s bucket keys)
  unfolding get_many set_many delete_many get_keys get_key_prefix get_bucket
  batch_each s bucket id keys entries e = (
    rw e (sym (get_each_lem s bucket id keys e)),
    rw e (sym (set_each_lem s bucket id entries e)),
    rw e (sym (delete_each_lem s bucket id keys e)),
  )

  -- Increments of one counter, one after another, and the last count.
  abbrev pub increment_each : KeyValueState T → Handle → Bytes → ℕ → List ℕ → Result Bytes ℕ
  increment_each s bucket key count [] = ok count
  increment_each s bucket key count (d ∷ ds) = do
    (s', count') ← increment T s bucket key d
    increment_each s' bucket key count' ds

  count_in :
      (s : KeyValueState T) (k : Key) (count : ℕ)
      → count_or_zero (get_atomic_count T (save_atomic_count T s k count) k) ≡ count
  unfolding get_atomic_count save_atomic_count
  count_in s k count =
      rw
        (
          get-insert (key_string k) (key_string k) count s.kv_atomics_counter,
          eq_refl (key_string k),
        )
        refl

  -- Increments of a counter on an open bucket that holds a count below 2^64, or none, which
  -- counts as 0: one after another they all succeed, and the last gives the count plus their
  -- sum, modulo 2^64.
  pub increment_each_lem :
      (ds : List ℕ) (s : KeyValueState T) (bucket : Handle) (id key : Bytes) (count : ℕ)
      → T.get_bucket s.resource_table bucket ≡ ok id
      → count_or_zero (get_atomic_count T s (key_of s.namespace id key)) ≡ count
      → count < i64_mod
      → increment_each s bucket key count ds ≡ ok ((count + sum ds) % i64_mod)
  unfolding increment save_atomic_count
  increment_each_lem [] s bucket id key count e c lt = ap ok (omega arith)
  increment_each_lem (d ∷ ds) s bucket id key count e c lt =
      let k = key_of s.namespace id key in
      let count' = (count + d) % i64_mod in
      rw (key_in T s bucket id key e, c)
        (increment_each_lem ds (save_atomic_count T s k count') bucket id key count' e
            (count_in s k count') (below (count + d))
          ∙ ap ok (add-sum count d (sum ds)))
