-- ===== src/Trigger/Fired.antt =====
-- Which triggers an event of trigger.rs fires, by the ids that its lookup gives.
use wavs.Prelude.{
  ◌≡◌, sym, ap, ◌∙◌, Bool, true, ◌||◌, some, List, [], ◌∷◌, Bytes, bytes_eq, nat_eq, arith, ◌↔◌,
  inl, inr, Bool-cases, eq_iff, eq_refl, any,
}
use wavs.Prelude.Map.{get}
use wavs.Types.Chain.{chain_key_eq}
use wavs.Types.Service.{
  TriggerConfig, Trigger, cosmos_contract_event, evm_contract_event, at_proto_event,
  hypercore_append,
}
use wavs.Types.TriggerData.{TriggerData}
use wavs.Scheduler.Interval.{LookupId}
use wavs.Scheduler.Cron.{CronCrate}
use wavs.Services.Store.{Services}
use wavs.Lookup.Index.{set_insert}
use wavs.Lookup.Maps.{BiMapCrate, LookupMaps, EventKey, event_key_eq, at_proto_key_eq, has_wildcard}
use wavs.Lookup.Keys.{IndexKey, evm, cosmos, feed, key_of, is_key, ids_at}
use wavs.Lookup.Entries.{has, has-set_insert}
use wavs.Lookup.Indexed.{IsIndexed, files}
use wavs.Lookup.Configs.{In, IsLive, get_trigger_configs, get_trigger_configs-In}
use wavs.Trigger.Events.{action_of, actions_of, extend}

pub has-extend :
    (id : LookupId) (set ids : List LookupId) → has id (extend set ids) ≡ (has id set || has id ids)
unfolding extend any
has-extend id set [] = ground arith
has-extend id set (j ∷ ids) =
    ground (arith, has-extend id (set_insert j set) ids, has-set_insert id j set)

pub actions-In :
    (d : TriggerData) (c : TriggerConfig) (configs : List TriggerConfig)
    → In (action_of d c) (actions_of d configs) ↔ In c configs
actions-In d c [] = (λ h. h, λ h. h)
actions-In d c (e ∷ configs) = (
  λ h. elim h [ inl same ↦ inl (cc same) | inr k ↦ inr ((actions-In d c configs).0 k) ],
  λ h. elim h [
    | inl same ↦ inl (ap (action_of d) same)
    | inr k ↦ inr ((actions-In d c configs).1 k)
  ],
)

module _ (C : CronCrate) (B : BiMapCrate) (l : LookupMaps C B) (services : Services) where
  -- A stored config whose service is active and whose trigger fits a test.
  abbrev pub Fits : (Trigger → Bool) → TriggerConfig → Type 0
  Fits test c = (id : LookupId) × IsLive l.trigger_configs services id c × (test c.trigger ≡ true)

  pub Fits-In :
      (ids : List LookupId) (test : Trigger → Bool) (c : TriggerConfig)
      → ((id : LookupId) → get l.trigger_configs id ≡ some c → has id ids ≡ test c.trigger)
      → In c (get_trigger_configs C B l services ids) ↔ Fits test c
  Fits-In ids test c same =
      let behind = get_trigger_configs-In C B l services ids c in
      (
        λ h. let b = behind.0 h in (b.0, b.2, sym (same b.0 b.2.stored) ∙ b.1),
        λ f. behind.1 (f.0, same f.0 f.1.stored ∙ f.2, f.1),
      )

  -- The test of a key.
  pub key-In :
      (k : IndexKey) (ids : List LookupId) (d : TriggerData) (c : TriggerConfig)
      → IsIndexed C B l
      → ((id : LookupId) → has id ids ≡ has id (ids_at C B l k))
      → In (action_of d c) (actions_of d (get_trigger_configs C B l services ids))
        ↔ Fits (λ t. is_key (key_of t) k) c
  key-In k ids d c w same =
      let inner =
        Fits-In ids (λ t. is_key (key_of t) k) c
          (λ id stored. same id ∙ w.filed k id ∙ ap (λ o. files o k) stored) in
      let outer = actions-In d c (get_trigger_configs C B l services ids) in
      (λ h. inner.0 (outer.0 h), λ f. outer.1 (inner.1 f))

evm_fits :
    (t : Trigger) (k : EventKey)
    → is_key (key_of t) (evm k) ≡ true
    → t ≡ evm_contract_event k.address k.chain k.event
evm_fits (evm_contract_event address chain event_hash) k h =
    ap (λ (j : EventKey). evm_contract_event j.address j.chain j.event)
      ((eq_iff (record { chain = chain; address = address; event = event_hash }) k).0 h)
evm_fits (at_proto_event collection repo_did action) k h =
    elim (Bool-cases (has_wildcard collection)) [
      | inl wild ↦ absurd (ground arith)
      | inr plain ↦ absurd (ground arith)
    ]
evm_fits _ k h = absurd (ground arith)

pub evm_test :
    (t : Trigger) (k : EventKey)
    → (is_key (key_of t) (evm k) ≡ true) ↔ (t ≡ evm_contract_event k.address k.chain k.event)
evm_test t k = (evm_fits t k, λ e. ap (λ (x : Trigger). is_key (key_of x) (evm k)) e ∙ eq_refl k)

cosmos_fits :
    (t : Trigger) (k : EventKey)
    → is_key (key_of t) (cosmos k) ≡ true
    → t ≡ cosmos_contract_event k.address k.chain k.event
cosmos_fits (cosmos_contract_event address chain event_type) k h =
    ap (λ (j : EventKey). cosmos_contract_event j.address j.chain j.event)
      ((eq_iff (record { chain = chain; address = address; event = event_type }) k).0 h)
cosmos_fits (at_proto_event collection repo_did action) k h =
    elim (Bool-cases (has_wildcard collection)) [
      | inl wild ↦ absurd (ground arith)
      | inr plain ↦ absurd (ground arith)
    ]
cosmos_fits _ k h = absurd (ground arith)

pub cosmos_test :
    (t : Trigger) (k : EventKey)
    → (is_key (key_of t) (cosmos k) ≡ true) ↔ (t ≡ cosmos_contract_event k.address k.chain k.event)
cosmos_test t k =
    (cosmos_fits t k, λ e. ap (λ (x : Trigger). is_key (key_of x) (cosmos k)) e ∙ eq_refl k)

feed_fits : (t : Trigger) (k : Bytes) → is_key (key_of t) (feed k) ≡ true → t ≡ hypercore_append k
feed_fits (hypercore_append feed_key) k h =
    ap (λ (j : Bytes). hypercore_append j) ((eq_iff (feed_key) k).0 h)
feed_fits (at_proto_event collection repo_did action) k h =
    elim (Bool-cases (has_wildcard collection)) [
      | inl wild ↦ absurd (ground arith)
      | inr plain ↦ absurd (ground arith)
    ]
feed_fits _ k h = absurd (ground arith)

pub feed_test :
    (t : Trigger) (k : Bytes) → (is_key (key_of t) (feed k) ≡ true) ↔ (t ≡ hypercore_append k)
feed_test t k = (feed_fits t k, λ e. ap (λ (x : Trigger). is_key (key_of x) (feed k)) e ∙ eq_refl k)
