-- ===== src/Trigger/AtProto.antt =====
-- The AT Protocol events of trigger.rs: which triggers the lookups and the scan of the patterns fire.
pub mod Matching
pub use Matching.{accepted_by}
use Matching.{
  accepts_collection, some_pattern, has-matched_patterns, unpatterned, pattern_lookup, same_or,
  exact_accepts,
}
use wavs.Prelude.{
  ◌≡◌, refl, sym, ap, ◌∙◌, Bool, true, false, ◌||◌, ◌&&◌, Option, none, some, List, [], ◌∷◌, Bytes,
  bytes_eq, ◌==◌, if◌then◌else◌, arith, ◌↔◌, inl, inr, Bool-cases, eq_iff, any, eq_refl,
}
use wavs.Prelude.Map.{Map, get, contains_key, contains_key-get}
use wavs.Prelude.Distinct.{IsDistinct}
use wavs.Types.Service.{TriggerConfig, Trigger, AtProtoAction, at_proto_event}
use wavs.Scheduler.Interval.{LookupId}
use wavs.Scheduler.Cron.{CronCrate}
use wavs.Services.Store.{Services}
use wavs.Lookup.Index.{ids_of, or_default}
use wavs.Lookup.Maps.{BiMapCrate, LookupMaps, AtProtoKey, at_proto_key_eq, has_wildcard}
use wavs.Lookup.Keys.{exact, pattern_of, key_of, is_key}
use wavs.Lookup.Entries.{has}
use wavs.Lookup.Indexed.{IsIndexed, files}
use wavs.Lookup.Configs.{In, IsLive, get_trigger_configs}
use wavs.Trigger.Pattern.{matches_collection_pattern}
use wavs.Trigger.Events.{
  AtProtoEvent, action_of, actions_of, extend, at_proto_data, matched_ids, matched_patterns,
  pattern_accepts, accepts, exact_key, action_eq,
}
use wavs.Trigger.Events
use wavs.Trigger.Fired.{Fits-In, actions-In, has-extend}

module _ (C : CronCrate) (B : BiMapCrate) (l : LookupMaps C B) where
  abbrev at0 : AtProtoEvent → List LookupId
  at0 e = extend [] (ids_of l.at_proto_exact (exact_key e (some e.repo) (some e.action)))

  abbrev at1 : AtProtoEvent → List LookupId
  at1 e = extend (at0 e) (ids_of l.at_proto_exact (exact_key e (some e.repo) none))

  abbrev at2 : AtProtoEvent → List LookupId
  at2 e = extend (at1 e) (ids_of l.at_proto_exact (exact_key e none (some e.action)))

  has-matched_ids :
      (e : AtProtoEvent) (id : LookupId)
      → let at = λ (repo : Option Bytes) (action : Option AtProtoAction).
        has id (ids_of l.at_proto_exact (exact_key e repo action)) in
        has id (matched_ids C B l e) ≡ (
          (at (some e.repo) (some e.action)
            || at (some e.repo) none
            || at none (some e.action)
            || at none none)
          || some_pattern l.at_proto_pattern e id)
  unfolding matched_ids any
  has-matched_ids e id =
      has-matched_patterns l.at_proto_pattern e _ id
      ∙ ground (
        arith,
        has-extend id (at2 e) (ids_of l.at_proto_exact (exact_key e none none)),
        has-extend id (at1 e) (ids_of l.at_proto_exact (exact_key e none (some e.action))),
        has-extend id (at0 e) (ids_of l.at_proto_exact (exact_key e (some e.repo) none)),
        has-extend id [] (ids_of l.at_proto_exact (exact_key e (some e.repo) (some e.action))),
      )

  wild_matched :
      (e : AtProtoEvent) (id : LookupId) (k : AtProtoKey)
      → IsDistinct l.at_proto_pattern
      → ((j : AtProtoKey) → has id (ids_of l.at_proto_exact j) ≡ false)
      → ((j : AtProtoKey) → has id (ids_of l.at_proto_pattern j) ≡ (k == j))
      → has id (matched_ids C B l e) ≡ pattern_accepts k e
  wild_matched e id k d hx hp = ground (
    arith,
    has-matched_ids e id,
    hx (exact_key e (some e.repo) (some e.action)),
    hx (exact_key e (some e.repo) none),
    hx (exact_key e none (some e.action)),
    hx (exact_key e none none),
    pattern_lookup l.at_proto_pattern e id k d hp,
  )

  plain_matched :
      (e : AtProtoEvent) (id : LookupId) (k : AtProtoKey)
      → IsDistinct l.at_proto_pattern
      → ((j : AtProtoKey) → has id (ids_of l.at_proto_exact j) ≡ (k == j))
      → ((j : AtProtoKey) → has id (ids_of l.at_proto_pattern j) ≡ false)
      → has id (matched_ids C B l e)
        ≡ (k.collection == e.collection && accepts k.repo_did e.repo && accepts k.action e.action)
  plain_matched e id k d hx hp =
      has-matched_ids e id
      ∙ same_or (hx (exact_key e (some e.repo) (some e.action)))
          (hx (exact_key e (some e.repo) none)) (hx (exact_key e none (some e.action)))
          (hx (exact_key e none none)) (unpatterned l.at_proto_pattern e id d hp)
      ∙ exact_accepts k.collection k.repo_did k.action e

  unmatched :
      (e : AtProtoEvent) (id : LookupId)
      → IsDistinct l.at_proto_pattern
      → ((j : AtProtoKey) → has id (ids_of l.at_proto_exact j) ≡ false)
      → ((j : AtProtoKey) → has id (ids_of l.at_proto_pattern j) ≡ false)
      → has id (matched_ids C B l e) ≡ false
  unmatched e id d hx hp = ground (
    arith,
    has-matched_ids e id,
    hx (exact_key e (some e.repo) (some e.action)),
    hx (exact_key e (some e.repo) none),
    hx (exact_key e none (some e.action)),
    hx (exact_key e none none),
    unpatterned l.at_proto_pattern e id d hp,
  )

  matched :
      (e : AtProtoEvent) (id : LookupId) (t : Trigger)
      → IsDistinct l.at_proto_pattern
      → ((k : AtProtoKey) → has id (ids_of l.at_proto_exact k) ≡ is_key (key_of t) (exact k))
      → ((k : AtProtoKey) → has id (ids_of l.at_proto_pattern k) ≡ is_key (key_of t) (pattern_of k))
      → has id (matched_ids C B l e) ≡ accepted_by e t
  matched e id (at_proto_event collection repo_did action) d hx hp =
      let key : AtProtoKey = record {
        collection = collection;
        repo_did = repo_did;
        action = action;
      } in
      elim (Bool-cases (has_wildcard collection)) [
        | inl wild ↦
            rw wild (wild_matched e id key d (λ j. hx j ∙ rw wild refl) (λ j. hp j ∙ rw wild refl))
        | inr plain ↦
            rw plain
              (plain_matched e id key d (λ j. hx j ∙ rw plain refl) (λ j. hp j ∙ rw plain refl))
      ]
  matched e id _ d hx hp = unmatched e id d hx hp

  -- From indexes that agree with the configs and have each pattern once, an AT Protocol event fires,
  -- with its data, exactly the configs of active services whose trigger has a collection that is the
  -- event's, or has a wildcard and matches it, and has no repository or the event's, and no action or
  -- the event's.
  pub at_proto_event-fires :
      (services : Services) (e : AtProtoEvent) (c : TriggerConfig)
      → IsIndexed C B l
      → IsDistinct l.at_proto_pattern
      → In (action_of (at_proto_data e) c) (Events.at_proto_event C B l services e) ↔ (
          (id : LookupId) × IsLive l.trigger_configs services id c
          × (accepted_by e c.trigger ≡ true))
  unfolding Events.at_proto_event
  at_proto_event-fires services e c w d =
      let inner = Fits-In C B l services (matched_ids C B l e) (accepted_by e) c (λ id stored.
        matched e id c.trigger d (λ k. w.filed (exact k) id ∙ ap (λ o. files o (exact k)) stored)
          (λ k. w.filed (pattern_of k) id ∙ ap (λ o. files o (pattern_of k)) stored)) in
      let outer =
        actions-In (at_proto_data e) c (get_trigger_configs C B l services (matched_ids C B l e)) in
      (λ h. inner.0 (outer.0 h), λ f. outer.1 (inner.1 f))
