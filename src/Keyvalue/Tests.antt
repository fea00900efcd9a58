-- ===== src/Keyvalue/Tests.antt =====
-- Examples of the key-value store. In their table of resources every handle stands for the bucket `b`,
-- and, as a compare-and-swap handle, for its key `k`.
use wavs.Prelude.{
  ◌+◌, ◌%◌, ◌≡◌, refl, false, ◌&&◌, none, some, [], ◌∷◌, Bytes, bytes, bytes_eq, ◌==◌, any, arith,
  ℕ_discrete, Bytes-discrete, bytes_lt,
}
use wavs.Prelude.Map.{get, insert}
use wavs.Prelude.Result.{ok}
use wavs.Keyvalue.State.{Key, Handle, ResourceTableCrate, KeyValueState, key_string}
use wavs.Keyvalue.Store.{KeyResponse, get_value, set, delete, exists, list_keys}
use wavs.Keyvalue.Atomics.{i64_mod, swap, current, get_atomic_count, count_or_zero}
use wavs.Keyvalue.Separate.{key_of, has_slash, written, set-get_value}
use wavs.Keyvalue.Listing.{list_keys-exists}
use wavs.Keyvalue.Calls.{sum, increment_each, increment_each_lem}

abbrev count_key : Key
count_key = key_of (bytes "svc") (bytes "b") (bytes "k")

abbrev table : ResourceTableCrate
table = record {
  Table = Unit {0};
  get_bucket = λ t handle. ok (bytes "b");
  get_cas = λ t handle. ok count_key;
  push_bucket = λ t id. ok (tt, 0);
  push_cas = λ t key. ok (tt, 1);
  delete = λ t handle. ok tt;
}

abbrev state : KeyValueState table
state = record {
  kv_store = (key_string count_key, 7 ∷ []) ∷ [];
  kv_atomics_counter = [];
  namespace = bytes "svc";
  resource_table = tt;
  page_size = none;
}

svc_no_slash : has_slash (bytes "svc") ≡ false
unfolding any ℕ_discrete
svc_no_slash = refl

b_no_slash : has_slash (bytes "b") ≡ false
unfolding any ℕ_discrete
b_no_slash = refl

-- With a slash in its name a bucket does see another's keys.
slash_collides :
    key_string (key_of (bytes "svc") (bytes "a") (bytes "b/c"))
    ≡ key_string (key_of (bytes "svc") (bytes "a/b") (bytes "c"))
unfolding key_string wavs.Keyvalue.State.prefix_string
slash_collides = refl

set-get_value_example :
    (s' : KeyValueState table) × (set table state 0 (bytes "x") (1 ∷ []) ≡ ok s')
    × (get_value table s' 0 (bytes "k")
        ≡ written
            (bytes "b" == bytes "b" && bytes "x" == bytes "k")
            (some (1 ∷ []))
            (get_value table state 0 (bytes "k")))
set-get_value_example =
    set-get_value table state 0 0 (bytes "b") (bytes "b") (bytes "x") (bytes "k") (1 ∷ [])
      svc_no_slash b_no_slash b_no_slash refl refl

list_keys-exists_example :
    (r : KeyResponse) × (list_keys table state 0 none ≡ ok r)
    × (r.cursor ≡ none)
    × ((k : Bytes) → exists table state 0 k ≡ ok (any (λ j. j == k) r.keys))
list_keys-exists_example = list_keys-exists table state 0 (bytes "b") refl refl

no_count : count_or_zero (get_atomic_count table state count_key) ≡ 0
unfolding get_atomic_count get
no_count = refl

increment_each_lem_example :
    increment_each table state 0 (bytes "k") 0 (5 ∷ 6 ∷ []) ≡ ok ((0 + sum (5 ∷ 6 ∷ [])) % i64_mod)
increment_each_lem_example =
    increment_each_lem table (5 ∷ 6 ∷ []) state 0 (bytes "b") (bytes "k") 0 refl no_count
      (omega arith)

-- The key changes between `current` and `swap`, which succeeds and overwrites the change.
abbrev holding : Bytes → KeyValueState table
holding value = record state { kv_store = (key_string count_key, value) ∷ [] }

swap_overwrites :
    (current table (holding (7 ∷ [])) 1 ≡ ok (some (7 ∷ [])))
    × (swap table (holding (8 ∷ [])) 1 (9 ∷ []) ≡ ok (holding (9 ∷ [])))
unfolding swap current get insert key_string Bytes-discrete ℕ_discrete
swap_overwrites = (refl, refl)

-- Two keys and pages of one.
abbrev paged : KeyValueState table
paged = record {
  kv_store =
      (key_string (key_of (bytes "svc") (bytes "b") (bytes "c")), [])
      ∷ (key_string (key_of (bytes "svc") (bytes "b") (bytes "a")), [])
      ∷ [];
  kv_atomics_counter = [];
  namespace = bytes "svc";
  resource_table = tt;
  page_size = some 1;
}

first_page :
    list_keys table paged 0 none
    ≡ ok (record { keys = bytes "a" ∷ []; cursor = some (bytes "svc/b/c") })
unfolding list_keys key_string ℕ_discrete bytes_lt
first_page = refl

-- Given back, that cursor is prefixed again and lies past the second key.
second_page_empty :
    list_keys table paged 0 (some (bytes "svc/b/c")) ≡ ok (record { keys = []; cursor = none })
unfolding list_keys key_string ℕ_discrete bytes_lt wavs.Keyvalue.Store.from_cursor
second_page_empty = refl
