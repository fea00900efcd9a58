-- ===== src/Trigger/AtProto/Matching.antt =====
-- The two lookups of an AT Protocol event, exact and by pattern, and what a trigger itself accepts.
use wavs.Prelude.{
  ◌≡◌, refl, sym, ap, ◌∙◌, Bool, true, false, ◌||◌, ◌&&◌, Option, none, some, List, [], ◌∷◌, Bytes,
  bytes_eq, ◌==◌, if◌then◌else◌, arith, ◌↔◌, inl, inr, Bool-cases, eq_iff, any, eq_refl,
}
use wavs.Prelude.Map.{Map, get, contains_key, contains_key-get}
use wavs.Prelude.Distinct.{IsDistinct}
use wavs.Types.Service.{Trigger, AtProtoAction, at_proto_event}
use wavs.Scheduler.Interval.{LookupId}
use wavs.Lookup.Index.{ids_of, or_default}
use wavs.Lookup.Maps.{AtProtoKey, at_proto_key_eq, has_wildcard}
use wavs.Lookup.Entries.{has}
use wavs.Trigger.Pattern.{matches_collection_pattern}
use wavs.Trigger.Events.{
  AtProtoEvent, extend, matched_patterns, pattern_accepts, accepts, exact_key, action_eq,
}
use wavs.Trigger.Fired.{has-extend}

-- Whether the trigger itself accepts the event: the specification.
abbrev pub accepts_collection : Bytes → Bytes → Bool
accepts_collection filter actual =
    if has_wildcard filter then matches_collection_pattern filter actual else filter == actual

abbrev pub accepted_by : AtProtoEvent → Trigger → Bool
accepted_by e (at_proto_event collection repo_did action) =
    accepts_collection collection e.collection && accepts repo_did e.repo && accepts action e.action
accepted_by e _ = false

-- The ids under the patterns that accept the event.
unfoldable pub some_pattern : (Map AtProtoKey (List LookupId)) → AtProtoEvent → LookupId → Bool
some_pattern m e id =
    any (λ (x : AtProtoKey × List LookupId). pattern_accepts x.0 e && has id x.1) m

pub has-matched_patterns :
    (m : Map AtProtoKey (List LookupId)) (e : AtProtoEvent) (set : List LookupId) (id : LookupId)
    → has id (matched_patterns m e set) ≡ (has id set || some_pattern m e id)
unfolding matched_patterns any some_pattern
has-matched_patterns [] e set id = ground arith
has-matched_patterns ((key, ids) ∷ m) e set id = elim (Bool-cases (pattern_accepts key e)) [
  | inl b ↦
      rw b (has-matched_patterns m e (extend set ids) id ∙ ground (arith, has-extend id set ids))
  | inr b ↦ rw b (has-matched_patterns m e set id)
]

-- What stands under a key of the rest of a map.
tail-has :
    (key j : AtProtoKey) (ids : List LookupId) (m : Map AtProtoKey (List LookupId)) (id : LookupId)
    → contains_key m key ≡ false
    → has id (ids_of m j) ≡ (if key == j then false else has id (ids_of ((key, ids) ∷ m) j))
unfolding get any
tail-has key j ids m id gone = elim (Bool-cases (key == j)) [
  | inl same ↦
      let e : key ≡ j = (eq_iff key j).0 same in
      let none_there : get m key ≡ none = ground (arith, contains_key-get m key) in
      rw same (
        ap (λ (o : Option (List LookupId)). has id (or_default o))
          (ap (get m) (sym e) ∙ none_there))
  | inr other ↦ rw other refl
]

pub unpatterned :
    (m : Map AtProtoKey (List LookupId)) (e : AtProtoEvent) (id : LookupId)
    → IsDistinct m
    → ((j : AtProtoKey) → has id (ids_of m j) ≡ false)
    → some_pattern m e id ≡ false
unfolding some_pattern get any
unpatterned [] e id d h = refl
unpatterned ((key, ids) ∷ m) e id d h =
    let head : has id ids ≡ false = ground (arith, h key, eq_refl key) in
    let rest : some_pattern m e id ≡ false =
      unpatterned m e id d.1 (λ j. ground (arith, tail-has key j ids m id d.0, h j)) in
    ground (arith, head, rest)

apart_from :
    (key k j : AtProtoKey) (ids : List LookupId) (m : Map AtProtoKey (List LookupId))
    (id : LookupId)
    → k ≡ key
    → has id (ids_of ((key, ids) ∷ m) j) ≡ (k == j)
    → (if key == j then false else has id (ids_of ((key, ids) ∷ m) j)) ≡ false
apart_from key k j ids m id e h =
    let e' : (k == j) ≡ (key == j) = ap (λ x. x == j) e in ground (arith, e', h)

kept_from :
    (key k j : AtProtoKey) (ids : List LookupId) (m : Map AtProtoKey (List LookupId))
    (id : LookupId)
    → (k == key) ≡ false
    → has id (ids_of ((key, ids) ∷ m) j) ≡ (k == j)
    → (if key == j then false else has id (ids_of ((key, ids) ∷ m) j)) ≡ (k == j)
kept_from key k j ids m id other h = elim (Bool-cases (key == j)) [
  | inl same ↦
      let e : (k == key) ≡ (k == j) = ap (λ x. k == x) ((eq_iff key j).0 same) in
      rw same (sym other ∙ e)
  | inr apart ↦ rw apart h
]

-- Where the id stands under one key only, that key decides.
pub pattern_lookup :
    (m : Map AtProtoKey (List LookupId)) (e : AtProtoEvent) (id : LookupId) (k : AtProtoKey)
    → IsDistinct m
    → ((j : AtProtoKey) → has id (ids_of m j) ≡ (k == j))
    → some_pattern m e id ≡ pattern_accepts k e
unfolding some_pattern get any
pattern_lookup [] e id k d h = absurd (ground (arith, h k, eq_refl k))
pattern_lookup ((key, ids) ∷ m) e id k d h = elim (Bool-cases (k == key)) [
  | inl same ↦
      let e' : k ≡ key = (eq_iff k key).0 same in
      let head : has id ids ≡ true = ground (arith, h key, eq_refl key, same) in
      let rest : some_pattern m e id ≡ false =
        unpatterned m e id d.1
          (λ j. tail-has key j ids m id d.0 ∙ apart_from key k j ids m id e' (h j)) in
      ground (arith, head, rest, ap (λ x. pattern_accepts x e) e')
  | inr other ↦
      let head : has id ids ≡ false = ground (arith, h key, eq_refl key, other) in
      let rest : some_pattern m e id ≡ pattern_accepts k e =
        pattern_lookup m e id k d.1
          (λ j. tail-has key j ids m id d.0 ∙ kept_from key k j ids m id other (h j)) in
      ground (arith, head, rest)
]

pub same_or :
    {a b c d p a' b' c' d' : Bool}
    → a ≡ a'
    → b ≡ b'
    → c ≡ c'
    → d ≡ d'
    → p ≡ false
    → ((a || b || c || d) || p) ≡ (a' || b' || c' || d')
same_or ea eb ec ed ep = ground arith

-- The keys of the four exact lookups, told apart.
four_keys :
    (key : AtProtoKey) (e : AtProtoEvent)
    → (((key == exact_key e (some e.repo) (some e.action)) ≡ true)
        ↔ (key ≡ exact_key e (some e.repo) (some e.action)))
      × (((key == exact_key e (some e.repo) none) ≡ true) ↔ (key ≡ exact_key e (some e.repo) none))
      × (((key == exact_key e none (some e.action)) ≡ true)
          ↔ (key ≡ exact_key e none (some e.action)))
      × (((key == exact_key e none none) ≡ true) ↔ (key ≡ exact_key e none none))
four_keys key e = (
  eq_iff key (exact_key e (some e.repo) (some e.action)),
  eq_iff key (exact_key e (some e.repo) none),
  eq_iff key (exact_key e none (some e.action)),
  eq_iff key (exact_key e none none),
)

abbrev filter_key : Bytes → Option Bytes → Option AtProtoAction → AtProtoKey
filter_key collection repo_did action = record {
  collection = collection;
  repo_did = repo_did;
  action = action;
}

pub exact_accepts :
    (collection : Bytes) (repo_did : Option Bytes) (action : Option AtProtoAction)
    (e : AtProtoEvent)
    → let key : AtProtoKey = record {
      collection = collection;
      repo_did = repo_did;
      action = action;
    } in
      (key == exact_key e (some e.repo) (some e.action)
        || key == exact_key e (some e.repo) none
        || key == exact_key e none (some e.action)
        || key == exact_key e none none)
      ≡ (collection == e.collection && accepts repo_did e.repo && accepts action e.action)
exact_accepts collection none none e =
    ground (arith, four_keys (filter_key collection none none) e, eq_iff collection e.collection)
exact_accepts collection none (some a) e = ground (
  arith,
  four_keys (filter_key collection none (some a)) e,
  eq_iff collection e.collection,
  eq_iff a e.action,
)
exact_accepts collection (some r) none e = ground (
  arith,
  four_keys (filter_key collection (some r) none) e,
  eq_iff collection e.collection,
  eq_iff r e.repo,
)
exact_accepts collection (some r) (some a) e = ground (
  arith,
  four_keys (filter_key collection (some r) (some a)) e,
  eq_iff collection e.collection,
  eq_iff r e.repo,
  eq_iff a e.action,
)
