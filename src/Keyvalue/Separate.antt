-- ===== src/Keyvalue/Separate.antt =====
-- When two keys of bucket_keys.rs are one string, and what a write leaves alone.
use wavs.Prelude.{
  ◌≡◌, refl, sym, ◌∙◌, inl, inr, Bool, true, false, ◌&&◌, Option, none, some, [], ◌∷◌, ◌++◌, arith,
  any, if◌then◌else◌, ◌==◌, eq_iff, eq_refl, nat_eq, bytes_eq, Bytes, Bool-cases,
}
use mathlib.Core.List.{append_assoc}
use wavs.Prelude.Map.{get, insert, remove, get-insert, get-remove}
use wavs.Prelude.Result.{Result, ok}
use wavs.Keyvalue.State.{
  Key, Handle, ResourceTableCrate, KeyValueState, prefix_string, key_string, get_bucket,
  get_key_prefix, get_key,
}
use wavs.Keyvalue.Store.{get_value, set, delete, get_store_value, set_store_value}

abbrev pub has_slash : Bytes → Bool
has_slash s = any (λ c. c == b'/') s

split_at_slash :
    (a b x y : Bytes)
    → has_slash a ≡ false
    → has_slash b ≡ false
    → a ++ (b'/' ∷ x) ≡ b ++ (b'/' ∷ y)
    → (a ≡ b) × (x ≡ y)
unfolding any
split_at_slash [] [] x y p q e = (refl, ground arith)
split_at_slash [] (d ∷ b) x y p q e = absurd (ground arith)
split_at_slash (c ∷ a) [] x y p q e = absurd (ground arith)
split_at_slash (c ∷ a) (d ∷ b) x y p q e =
    let (same, rest) = split_at_slash a b x y (ground arith) (ground arith) (ground arith) in
    (ground arith, rest)

abbrev pub key_of : Bytes → Bytes → Bytes → Key
key_of ns id key = record { prefix = record { namespace = ns; bucket_id = id }; key = key }

key_string-parts :
    (ns id key : Bytes) → key_string (key_of ns id key) ≡ ns ++ (b'/' ∷ (id ++ (b'/' ∷ key)))
unfolding key_string prefix_string
key_string-parts ns id key = append_assoc ns (b'/' ∷ id) (b'/' ∷ key)

-- If neither the namespaces nor the buckets have a slash, keys with one string are one key.
key_string-injective :
    (ns ms id jd key lkey : Bytes)
    → has_slash ns ≡ false
    → has_slash ms ≡ false
    → has_slash id ≡ false
    → has_slash jd ≡ false
    → key_string (key_of ns id key) ≡ key_string (key_of ms jd lkey)
    → (ns ≡ ms) × (id ≡ jd) × (key ≡ lkey)
key_string-injective ns ms id jd key lkey p q r s e =
    let whole = sym (key_string-parts ns id key) ∙ e ∙ key_string-parts ms jd lkey in
    let (same_ns, rest) = split_at_slash ns ms _ _ p q whole in
    let (same_id, same_key) = split_at_slash id jd _ _ r s rest in (same_ns, same_id, same_key)

and-left : (a b : Bool) → (a && b) ≡ true → a ≡ true
and-left a b h = ground arith

and-right : (a b : Bool) → (a && b) ≡ true → b ≡ true
and-right a b h = ground arith

both-true : (id jd key lkey : Bytes) → id ≡ jd → key ≡ lkey → (id == jd && key == lkey) ≡ true
both-true id jd key lkey i k = rw (i, k, eq_refl jd, eq_refl lkey) refl

same_key :
    (ns id jd key lkey : Bytes)
    → has_slash ns ≡ false
    → has_slash id ≡ false
    → has_slash jd ≡ false
    → (key_string (key_of ns id key) == key_string (key_of ns jd lkey)) ≡ (id == jd && key == lkey)
same_key ns id jd key lkey p r s = elim (Bool-cases (id == jd && key == lkey)) [
  | inl both ↦
      let (i, k) : (id ≡ jd) × (key ≡ lkey) = (
        (eq_iff id jd).0 (and-left (id == jd) (key == lkey) both),
        (eq_iff key lkey).0 (and-right (id == jd) (key == lkey) both),
      ) in
      rw both ((eq_iff {A = Bytes} _ _).1 (rw (i, k) refl))
  | inr differ ↦
      rw differ
        (elim (Bool-cases (key_string (key_of ns id key) == key_string (key_of ns jd lkey))) [
          | inl same ↦
              let (n, i, k) =
                key_string-injective ns ns id jd key lkey p p r s
                  ((eq_iff {A = Bytes} _ _).0 same) in
              absurd (ground (arith, both-true id jd key lkey i k))
          | inr apart ↦ apart
        ])
]

-- What a call reads after a write: the value, if it is on the same key, or what it read before.
abbrev pub written : Bool → Option Bytes → Result Bytes (Option Bytes) → Result Bytes (Option Bytes)
written true value before = ok value
written false value before = before

written-if :
    (b : Bool) (value o : Option Bytes) → ok (if b then value else o) ≡ written b value (ok o)
written-if true value o = refl
written-if false value o = refl

module _ (T : ResourceTableCrate) where
  pub key_in :
      (s : KeyValueState T) (bucket : Handle) (id key : Bytes)
      → T.get_bucket s.resource_table bucket ≡ ok id
      → get_key T s bucket key ≡ ok (key_of s.namespace id key)
  unfolding get_key get_key_prefix get_bucket
  key_in s bucket id key e = rw e refl

  pub value_in :
      (s : KeyValueState T) (bucket : Handle) (id key : Bytes)
      → T.get_bucket s.resource_table bucket ≡ ok id
      → get_value T s bucket key ≡ ok (get s.kv_store (key_string (key_of s.namespace id key)))
  unfolding get_value get_store_value
  value_in s bucket id key e = rw (key_in s bucket id key e) refl

  -- On open buckets, where neither the namespace nor the buckets have a slash, `set` succeeds;
  -- its key then has the value, and every other key of a bucket what it had.
  pub set-get_value :
      (s : KeyValueState T) (b c : Handle) (id jd key lkey value : Bytes)
      → has_slash s.namespace ≡ false
      → has_slash id ≡ false
      → has_slash jd ≡ false
      → T.get_bucket s.resource_table b ≡ ok id
      → T.get_bucket s.resource_table c ≡ ok jd
      → (s' : KeyValueState T) × (set T s b key value ≡ ok s')
        × (get_value T s' c lkey
            ≡ written (id == jd && key == lkey) (some value) (get_value T s c lkey))
  unfolding set set_store_value
  set-get_value s b c id jd key lkey value p q r e f =
      let k = key_string (key_of s.namespace id key) in
      let s' : KeyValueState T = record s { kv_store = insert k value s.kv_store } in
      (
        s',
        rw (key_in s b id key e) refl,
        rw
            (
              value_in s' c jd lkey f,
              value_in s c jd lkey f,
              get-insert k (key_string (key_of s.namespace jd lkey)) value s.kv_store,
              same_key s.namespace id jd key lkey p q r,
            )
            (written-if (id == jd && key == lkey) (some value) _),
      )

  -- On open buckets, where neither the namespace nor the buckets have a slash, `delete`
  -- succeeds; its key then has no value, and every other key of a bucket what it had.
  delete-get_value :
      (s : KeyValueState T) (b c : Handle) (id jd key lkey : Bytes)
      → has_slash s.namespace ≡ false
      → has_slash id ≡ false
      → has_slash jd ≡ false
      → T.get_bucket s.resource_table b ≡ ok id
      → T.get_bucket s.resource_table c ≡ ok jd
      → (s' : KeyValueState T) × (delete T s b key ≡ ok s')
        × (get_value T s' c lkey ≡ written (id == jd && key == lkey) none (get_value T s c lkey))
  unfolding delete
  delete-get_value s b c id jd key lkey p q r e f =
      let k = key_string (key_of s.namespace id key) in
      let s' : KeyValueState T = record s { kv_store = remove k s.kv_store } in
      (
        s',
        rw (key_in s b id key e) refl,
        rw
            (
              value_in s' c jd lkey f,
              value_in s c jd lkey f,
              get-remove k (key_string (key_of s.namespace jd lkey)) s.kv_store,
              same_key s.namespace id jd key lkey p q r,
            )
            (written-if (id == jd && key == lkey) none _),
      )
