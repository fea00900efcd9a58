-- ===== src/Trigger/Malformed.antt =====
-- The logs that end the watcher of trigger.rs.
use wavs.Prelude.{
  ◌≡◌, refl, ap, ◌∙◌, subst, Option, none, some, List, [], ◌++◌, Bytes, bytes_eq, ◌==◌, nat_eq,
  if◌then◌else◌, arith, ◌↔◌, inl, inr, Bool-cases, eq_iff,
}
use wavs.Prelude.Result.{Result, ok, err, ok_or, ◌>>=◌}
use wavs.Errors.{TriggerError, uri_creation}
use wavs.Types.Chain.{chain_key_eq}
use wavs.Types.Service.{Address}
use wavs.Scheduler.Cron.{CronCrate}
use wavs.Services.Store.{Services}
use wavs.Lookup.Index.{ids_of}
use wavs.Lookup.Maps.{BiMapCrate, LookupMaps, event_key_eq}
use wavs.Lookup.Configs.{get_trigger_configs}
use wavs.Trigger.Events.{
  DispatcherCommand, EvmLog, EventCrate, actions_of, evm_data, evm_key, evm_event, changed_uri,
  manager_event, uri_event, topic_event,
}

-- A log of an updated service URI whose text is no URI.
abbrev pub IsMalformed : EventCrate → EvmLog → Type 0
IsMalformed V log =
    (log.topic0 ≡ some V.service_uri_updated)
    × ((text : Bytes) × (V.decode_log_data log.log_data ≡ some text) × (V.uri_string text ≡ none))

module _ (C : CronCrate) (B : BiMapCrate) (V : EventCrate) where
  manager_fails :
      (l : LookupMaps C B) (log : EvmLog) (o : Option Bytes)
      → (manager_event C B V l log o ≡ err uri_creation)
        ↔ ((text : Bytes) × (o ≡ some text) × (V.uri_string text ≡ none))
  manager_fails l log none = (λ h. absurd (ground arith), λ b. absurd (ground (arith, b.1)))
  manager_fails l log (some text) = (
    λ h. (text, refl, no_uri (V.uri_string text) refl h),
    λ b. let same : text ≡ b.0 = cc b.1 in rw (ap V.uri_string same ∙ b.2) refl,
  )
    where
      no_uri :
          (u : Option Bytes)
          → V.uri_string text ≡ u
          → (ok_or u uri_creation >>= λ uri.
              ok (changed_uri (B.get_by_right l.service_manager (Address.evm log.address)) uri))
            ≡ err uri_creation
          → V.uri_string text ≡ none
      no_uri none e h = e
      no_uri (some uri) e h = absurd (ground arith)

  then_fails :
      (r : Result TriggerError (List DispatcherCommand)) (actions : List DispatcherCommand)
      → ((r >>= λ changes. ok (changes ++ actions)) ≡ err uri_creation) ↔ (r ≡ err uri_creation)
  then_fails (ok changes) actions = (λ h. absurd (ground arith), λ h. absurd (ground arith))
  then_fails (err e) actions = (λ h. cc h, λ h. cc h)

  -- A log ends the watcher with an error exactly when it reports an updated service URI, decodes, and
  -- its text is no URI; the contract that emitted it does not matter.
  pub evm_event-fails :
      (l : LookupMaps C B) (services : Services) (log : EvmLog)
      → (evm_event C B V l services log ≡ err uri_creation) ↔ IsMalformed V log
  unfolding evm_event
  evm_event-fails l services log = fails log.topic0 refl
    where
      fails :
          (o : Option Bytes)
          → log.topic0 ≡ o
          → (topic_event C B V l services log o ≡ err uri_creation) ↔ IsMalformed V log
      fails none e = (λ h. absurd (ground arith), λ m. absurd (ground (arith, e, m.0)))
      fails (some h) e =
          let after = then_fails (uri_event C B V l log h) (
            actions_of (evm_data log)
              (get_trigger_configs C B l services (ids_of l.evm (evm_key log h)))) in
          let decoded = manager_fails l log (V.decode_log_data log.log_data) in
          elim (Bool-cases (h == V.service_uri_updated)) [
            | inl same ↦ (
              λ x. (
                e ∙ ap some ((eq_iff h V.service_uri_updated).0 same),
                decoded.0 (
                    subst
                      (λ b.
                        (if b
                          then manager_event C B V l log (V.decode_log_data log.log_data)
                          else ok [])
                        ≡ err uri_creation)
                      same (after.0 x)),
              ),
              λ m. after.1 (rw same (decoded.1 m.1)),
            )
            | inr other ↦ (
              λ x. absurd (ground (arith, after.0 x, other)),
              λ m. absurd (ground (arith, e, m.0, other, eq_iff h V.service_uri_updated)),
            )
          ]
