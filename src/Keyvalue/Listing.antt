-- ===== src/Keyvalue/Listing.antt =====
-- What `list_keys` of wasi_keyvalue/store.rs lists when it is not paged.
use wavs.Prelude.{
  ℕ, ◌+◌, ◌≡◌, refl, sym, ap, ◌∙◌, inl, inr, Bool, true, false, ◌||◌, none, List, [], ◌∷◌, ◌++◌,
  arith, any, if◌then◌else◌, ◌==◌, nat_eq, bytes_eq, bytes_lt, Bytes, bytes, Bool-cases, map,
  retain, length, All,
}
use mathlib.Core.List.{append_assoc}
use wavs.Prelude.Map.{Map, get, contains_key, contains_key-get}
use wavs.Prelude.Result.{ok}
use wavs.Keyvalue.State.{
  Handle, ResourceTableCrate, KeyValueState, prefix_string, key_string, get_bucket, get_key_prefix,
}
use wavs.Keyvalue.Store.{
  KeyResponse, starts_with, drop, insert_sorted, sort, take_page, matching, list_keys, exists,
  is_some,
}
use wavs.Keyvalue.Separate.{key_of, value_in}

any-insert_sorted :
    (p : Bytes → Bool) (k : Bytes) (l : List Bytes) → any p (insert_sorted k l) ≡ any p (k ∷ l)
unfolding any insert_sorted
any-insert_sorted p k [] = refl
any-insert_sorted p k (j ∷ l) = ground (arith, any-insert_sorted p k l)

any-sort : (p : Bytes → Bool) (l : List Bytes) → any p (sort l) ≡ any p l
unfolding any sort
any-sort p [] = refl
any-sort p (k ∷ l) = ground (arith, any-insert_sorted p k (sort l), any-sort p l)

abbrev AllStart : Bytes → List Bytes → Type 0
AllStart prefix l = All (λ k. starts_with prefix k ≡ true) l

insert_sorted-AllStart :
    (prefix k : Bytes) (l : List Bytes)
    → starts_with prefix k ≡ true
    → AllStart prefix l
    → AllStart prefix (insert_sorted k l)
unfolding insert_sorted
insert_sorted-AllStart prefix k [] h a = (h, tt)
insert_sorted-AllStart prefix k (j ∷ l) h a = elim (Bool-cases (bytes_lt j k)) [
  | inl below ↦ rw below (a.0, insert_sorted-AllStart prefix k l h a.1)
  | inr above ↦ rw above (h, a)
]

sort-AllStart : (prefix : Bytes) (l : List Bytes) → AllStart prefix l → AllStart prefix (sort l)
unfolding sort
sort-AllStart prefix [] a = tt
sort-AllStart prefix (k ∷ l) a =
    insert_sorted-AllStart prefix k (sort l) a.0 (sort-AllStart prefix l a.1)

retain-AllStart :
    (prefix : Bytes) (l : List Bytes) → AllStart prefix (retain (starts_with prefix) l)
unfolding retain
retain-AllStart prefix [] = tt
retain-AllStart prefix (k ∷ l) = elim (Bool-cases (starts_with prefix k)) [
  | inl kept ↦ rw kept (kept, retain-AllStart prefix l)
  | inr left ↦ rw left (retain-AllStart prefix l)
]

-- Without a page size the loop takes every key, and gives no cursor.
take_page_all :
    (prefix : Bytes) (count : ℕ) (l : List Bytes)
    → AllStart prefix l
    → take_page none prefix count l ≡ record { keys = map (drop (length prefix)) l; cursor = none }
unfolding take_page
take_page_all prefix count [] a = refl
take_page_all prefix count (k ∷ l) a = rw (a.0, take_page_all prefix (count + 1) l a.1) refl

-- A key is listed if the prefix and the key are a key of the store.
drop-prefix :
    (prefix k s : Bytes)
    → (if starts_with prefix s then drop (length prefix) s == k else false) ≡ (s == prefix ++ k)
unfolding starts_with drop
drop-prefix [] k s = refl
drop-prefix (p ∷ ps) k [] = ground arith
drop-prefix (p ∷ ps) k (c ∷ s) = ground (arith, drop-prefix ps k s)

any-chopped :
    (prefix k : Bytes) (l : List Bytes)
    → any (λ j. j == k) (map (drop (length prefix)) (retain (starts_with prefix) l))
      ≡ any (λ s. s == prefix ++ k) l
unfolding any retain
any-chopped prefix k [] = refl
any-chopped prefix k (s ∷ l) = ground (arith, drop-prefix prefix k s, any-chopped prefix k l)

any-keys :
    (m : Map Bytes Bytes) (k : Bytes)
    → any (λ s. s == k) (map (λ entry. entry.0) m) ≡ contains_key m k
unfolding any contains_key
any-keys [] k = refl
any-keys ((j, v) ∷ m) k = ground (arith, any-keys m k)

any-map :
    (p : Bytes → Bool) (f : Bytes → Bytes) (l : List Bytes) → any p (map f l) ≡ any (λ x. p (f x)) l
unfolding any
any-map p f [] = refl
any-map p f (x ∷ l) = ap (λ b. p (f x) || b) (any-map p f l)

is_some-get : (m : Map Bytes Bytes) (k : Bytes) → is_some (get m k) ≡ contains_key m k
is_some-get m k = ground (arith, contains_key-get m k)

module _ (T : ResourceTableCrate) where
  abbrev prefix_of : KeyValueState T → Bytes → Bytes
  prefix_of s id = prefix_string (record { namespace = s.namespace; bucket_id = id }) ++ bytes "/"

  abbrev listed : KeyValueState T → Bytes → List Bytes
  listed s id = map (drop (length (prefix_of s id))) (sort (matching T (prefix_of s id) s.kv_store))

  list_keys_all :
      (s : KeyValueState T) (bucket : Handle) (id : Bytes)
      → T.get_bucket s.resource_table bucket ≡ ok id
      → s.page_size ≡ none
      → list_keys T s bucket none ≡ ok (record { keys = listed s id; cursor = none })
  unfolding list_keys get_key_prefix get_bucket matching
  list_keys_all s bucket id e f =
      rw (e, f)
        (ap ok (
          take_page_all (prefix_of s id) 0 (sort (matching T (prefix_of s id) s.kv_store)) (
            sort-AllStart (prefix_of s id) (matching T (prefix_of s id) s.kv_store)
              (retain-AllStart (prefix_of s id) (map (λ entry. entry.0) s.kv_store)))))

  any-listed :
      (s : KeyValueState T) (id k : Bytes)
      → any (λ j. j == k) (listed s id)
        ≡ contains_key s.kv_store (key_string (key_of s.namespace id k))
  unfolding matching key_string
  any-listed s id k =
      any-map (λ j. j == k) (drop (length (prefix_of s id))) _
      ∙ any-sort (λ j. drop (length (prefix_of s id)) j == k) _
      ∙ sym (any-map (λ j. j == k) (drop (length (prefix_of s id))) _)
      ∙ any-chopped (prefix_of s id) k _
      ∙ any-keys s.kv_store (prefix_of s id ++ k)
      ∙ ap (contains_key s.kv_store) (
          append_assoc (prefix_string (record { namespace = s.namespace; bucket_id = id }))
            (bytes "/") k)

  -- Without a page size and a cursor, `list_keys` on an open bucket succeeds, gives no cursor,
  -- and lists exactly the keys of which `exists` answers true.
  pub list_keys-exists :
      (s : KeyValueState T) (bucket : Handle) (id : Bytes)
      → T.get_bucket s.resource_table bucket ≡ ok id
      → s.page_size ≡ none
      → (r : KeyResponse) × (list_keys T s bucket none ≡ ok r)
        × (r.cursor ≡ none)
        × ((k : Bytes) → exists T s bucket k ≡ ok (any (λ j. j == k) r.keys))
  unfolding exists
  list_keys-exists s bucket id e f = (
    record { keys = listed s id; cursor = none },
    list_keys_all s bucket id e f,
    refl,
    λ k.
        rw (value_in T s bucket id k e)
          (ap ok (is_some-get s.kv_store _ ∙ sym (any-listed s id k))),
  )
