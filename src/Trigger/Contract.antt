-- ===== src/Trigger/Contract.antt =====
-- The events of contracts and feeds in trigger.rs: which triggers they fire.
use wavs.Prelude.{
  ℕ, ◌&&◌, Bool-cases, ◌≡◌, refl, sym, ap, ◌∙◌, subst, Bool, true, false, Option, none, some, List,
  [], ◌∷◌, ◌++◌, Bytes, bytes_eq, ◌==◌, if◌then◌else◌, if-both, arith, ◌↔◌, ◌⊎◌, inl, inr,
}
use wavs.Prelude.Result.{Result, ok, err, ok_or, ◌>>=◌}
use wavs.Errors.{TriggerError, uri_creation}
use wavs.Types.Chain.{ChainKey}
use wavs.Types.Service.{
  ServiceId, Address, TriggerConfig, Trigger, cosmos_contract_event, evm_contract_event,
  hypercore_append,
}
use wavs.Types.Submission.{TriggerAction}
use wavs.Types.TriggerData.{TriggerData}
use wavs.Scheduler.Interval.{LookupId}
use wavs.Scheduler.Cron.{CronCrate}
use wavs.Services.Store.{Services}
use wavs.Lookup.Index.{ids_of}
use wavs.Lookup.Maps.{BiMapCrate, LookupMaps, event_key_eq}
use wavs.Lookup.Keys.{evm, cosmos, feed}
use wavs.Lookup.Indexed.{IsIndexed}
use wavs.Lookup.Configs.{In, IsLive, get_trigger_configs}
use wavs.Trigger.Events.{
  DispatcherCommand, trigger, EvmLog, EventCrate, HypercoreAppendEvent, CosmosEvent, action_of,
  actions_of, extend, evm_data, evm_key, evm_event, changed_uri, handle_hypercore_event,
  manager_event, uri_event, topic_event, cosmos_key, cosmos_data, cosmos_event, cosmos_update,
  cosmos_actions, find_uri,
}
use wavs.Trigger.Fired.{key-In, evm_test, cosmos_test, feed_test, has-extend}

-- A list of commands that holds no trigger action.
abbrev pub FiresNone : List DispatcherCommand → Type 0
FiresNone commands = (a : TriggerAction TriggerData) → In (trigger a) commands → ⊥

abbrev pub NoTrigger : Result TriggerError (List DispatcherCommand) → Type 0
NoTrigger (ok commands) = FiresNone commands
NoTrigger (err e) = Unit

pub changed_uri-FiresNone : (o : Option ServiceId) (uri : Bytes) → FiresNone (changed_uri o uri)
changed_uri-FiresNone none uri a h = h
changed_uri-FiresNone (some sid) uri a (inl e) = cc e
changed_uri-FiresNone (some sid) uri a (inr h) = h

after_changes :
    (changes commands : List DispatcherCommand) (a : TriggerAction TriggerData)
    → FiresNone changes
    → In (trigger a) (changes ++ commands) ↔ In (trigger a) commands
after_changes [] commands a h = (λ x. x, λ x. x)
after_changes (c ∷ changes) commands a h =
    let rest = after_changes changes commands a (λ b k. h b (inr k)) in
    (λ x. elim x [ inl e ↦ absurd (h a (inl e)) | inr k ↦ rest.0 k ], λ k. inr (rest.1 k))

module _ (C : CronCrate) (B : BiMapCrate) where
  -- The configs of active services with a certain trigger.
  abbrev pub LiveWith : LookupMaps C B → Services → Trigger → TriggerConfig → Type 0
  LiveWith l services t c =
      (id : LookupId) × IsLive l.trigger_configs services id c × (c.trigger ≡ t)

  -- From indexes that agree with the configs, an append to a feed fires, with its index and content,
  -- exactly the configs of active services whose trigger is that feed.
  pub handle_hypercore_event-fires :
      (l : LookupMaps C B) (services : Services) (e : HypercoreAppendEvent) (c : TriggerConfig)
      → IsIndexed C B l
      → In
          (action_of (TriggerData.hypercore_append e.feed_key e.index e.content) c)
          (handle_hypercore_event C B l services e)
        ↔ LiveWith l services (hypercore_append e.feed_key) c
  unfolding handle_hypercore_event
  handle_hypercore_event-fires l services e c w =
      let fits =
        key-In C B l services (feed e.feed_key) (extend [] (ids_of l.hypercore e.feed_key))
          (TriggerData.hypercore_append e.feed_key e.index e.content) c w
          (λ id. has-extend id [] (ids_of l.hypercore e.feed_key)) in
      let test = feed_test c.trigger e.feed_key in
      (λ h. let f = fits.0 h in (f.0, f.1, test.0 f.2), λ f. fits.1 (f.0, f.1, test.1 f.2))

module _ (C : CronCrate) (B : BiMapCrate) (V : EventCrate) where
  manager-NoTrigger :
      (l : LookupMaps C B) (log : EvmLog) (o : Option Bytes)
      → NoTrigger (manager_event C B V l log o)
  manager-NoTrigger l log none = λ a h. h
  manager-NoTrigger l log (some text) = decoded (V.uri_string text)
    where
      decoded :
          (u : Option Bytes)
          → NoTrigger (
              ok_or u uri_creation >>= λ uri.
              ok (changed_uri (B.get_by_right l.service_manager (Address.evm log.address)) uri))
      decoded none = tt
      decoded (some uri) = changed_uri-FiresNone _ uri

  pub uri_event-NoTrigger :
      (l : LookupMaps C B) (log : EvmLog) (h : Bytes) → NoTrigger (uri_event C B V l log h)
  uri_event-NoTrigger l log h =
      if-both NoTrigger (h == V.service_uri_updated) _ _
        (manager-NoTrigger l log (V.decode_log_data log.log_data)) (λ a k. k)

  fired_by_topic :
      (l : LookupMaps C B) (services : Services) (log : EvmLog) (h : Bytes)
      (r : Result TriggerError (List DispatcherCommand)) (commands : List DispatcherCommand)
      (c : TriggerConfig)
      → IsIndexed C B l
      → NoTrigger r
      → (r >>= λ changes. ok (
          changes
          ++ actions_of
              (evm_data log)
              (get_trigger_configs C B l services (ids_of l.evm (evm_key log h)))))
        ≡ ok commands
      → In (action_of (evm_data log) c) commands
        ↔ LiveWith C B l services (evm_contract_event log.address log.chain h) c
  fired_by_topic l services log h (err x) commands c w no_trigger e = absurd (ground arith)
  fired_by_topic l services log h (ok changes) commands c w no_trigger e =
      let fits =
        key-In C B l services (evm (evm_key log h)) (ids_of l.evm (evm_key log h)) (evm_data log) c
          w (λ id. refl) in
      let test = evm_test c.trigger (evm_key log h) in
      let later =
        after_changes changes
          (actions_of (evm_data log)
            (get_trigger_configs C B l services (ids_of l.evm (evm_key log h))))
          (record { config = c; trigger_data = evm_data log }) no_trigger in
      let made : changes
            ++ actions_of (evm_data log)
                (get_trigger_configs C B l services (ids_of l.evm (evm_key log h)))
          ≡ commands =
        cc e in
      (
        λ x.
            let f = fits.0 (later.0 (subst (In (action_of (evm_data log) c)) (sym made) x)) in
            (f.0, f.1, test.0 f.2),
        λ f. subst (In (action_of (evm_data log) c)) made (later.1 (fits.1 (f.0, f.1, test.1 f.2))),
      )

  -- From indexes that agree with the configs, a log with a topic, unless it ends the watcher, fires
  -- with its data exactly the configs of active services whose trigger is the log's contract, chain
  -- and first topic.
  pub evm_event-fires :
      (l : LookupMaps C B) (services : Services) (log : EvmLog) (h : Bytes)
      (commands : List DispatcherCommand) (c : TriggerConfig)
      → IsIndexed C B l
      → log.topic0 ≡ some h
      → evm_event C B V l services log ≡ ok commands
      → In (action_of (evm_data log) c) commands
        ↔ LiveWith C B l services (evm_contract_event log.address log.chain h) c
  unfolding evm_event
  evm_event-fires l services log h commands c w topic e =
      fired_by_topic l services log h (uri_event C B V l log h) commands c w
        (uri_event-NoTrigger l log h) (ap (topic_event C B V l services log) (sym topic) ∙ e)

  -- An update event of a manager that names no URI.
  abbrev pub names_no_uri : Option Bytes → Bool
  names_no_uri none = true
  names_no_uri (some uri) = false

  abbrev pub is_bad_update : CosmosEvent → Bool
  is_bad_update e = V.is_service_uri_updated e.event && names_no_uri (find_uri V e.attributes)

  updated_actions :
      (l : LookupMaps C B) (e : CosmosEvent) (o : Option Bytes) (actions : List DispatcherCommand)
      (a : TriggerAction TriggerData)
      → names_no_uri o ≡ false
      → In (trigger a) (cosmos_update C B l e o actions) ↔ In (trigger a) actions
  updated_actions l e none actions a h = absurd (ground arith)
  updated_actions l e (some uri) actions a h =
      after_changes _ actions a (changed_uri-FiresNone _ uri)

  good_update :
      (l : LookupMaps C B) (e : CosmosEvent) (actions : List DispatcherCommand)
      (a : TriggerAction TriggerData)
      → is_bad_update e ≡ false
      → In (trigger a) (
          if V.is_service_uri_updated e.event
          then cosmos_update C B l e (find_uri V e.attributes) actions
          else actions)
        ↔ In (trigger a) actions
  good_update l e actions a h = elim (Bool-cases (V.is_service_uri_updated e.event)) [
    | inl b ↦ rw b (updated_actions l e (find_uri V e.attributes) actions a (ground (arith, h, b)))
    | inr b ↦ rw b (λ x. x, λ x. x)
  ]

  no_update :
      (l : LookupMaps C B) (e : CosmosEvent) (o : Option Bytes) (actions : List DispatcherCommand)
      → names_no_uri o ≡ true
      → cosmos_update C B l e o actions ≡ []
  no_update l e none actions h = refl
  no_update l e (some uri) actions h = absurd (ground arith)

  -- From indexes that agree with the configs, an event of a Cosmos contract fires, with its data,
  -- exactly the configs of active services whose trigger is the event's contract, chain and type;
  -- but one that updates a service URI and names none gives no command at all.
  pub cosmos_event-fires :
      (l : LookupMaps C B) (services : Services) (chain : ChainKey) (height : ℕ) (e : CosmosEvent)
      → IsIndexed C B l
      → ((is_bad_update e ≡ true) × (cosmos_event C B V l services chain height e ≡ []))
        ⊎ ((is_bad_update e ≡ false)
            × ((c : TriggerConfig)
                → In
                    (action_of (cosmos_data chain height e) c)
                    (cosmos_event C B V l services chain height e)
                  ↔ LiveWith C B l services
                      (cosmos_contract_event e.contract_address chain e.ty)
                      c))
  unfolding cosmos_event
  cosmos_event-fires l services chain height e w = elim (Bool-cases (is_bad_update e)) [
    | inl bad ↦
        let b : V.is_service_uri_updated e.event ≡ true = ground (arith, bad) in
        inl (bad, rw b (no_update l e (find_uri V e.attributes) _ (ground (arith, bad, b))))
    | inr good ↦ inr (
      good,
      λ c.
          let fits =
            key-In C B l services (cosmos (cosmos_key chain e))
              (ids_of l.cosmos (cosmos_key chain e)) (cosmos_data chain height e) c w
              (λ id. refl) in
          let test = cosmos_test c.trigger (cosmos_key chain e) in
          let update =
            good_update l e (cosmos_actions C B l services chain height e)
              (record { config = c; trigger_data = cosmos_data chain height e }) good in
          (
            λ h. let f = fits.0 (update.0 h) in (f.0, f.1, test.0 f.2),
            λ f. update.1 (fits.1 (f.0, f.1, test.1 f.2)),
          ),
    )
  ]
