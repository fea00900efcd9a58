-- ===== src/Dispatcher/Operations.antt =====
-- dispatcher.rs: the operations on services. What the dispatcher reaches is one state: the services
-- table, the maps of the trigger manager, the keys of the submission manager, and the commands sent to
-- the trigger manager's watcher and to the aggregator. The engine's storing of components and its
-- storage are I/O: that a store succeeds is a parameter. Channels do not fail while their receivers live.
-- An operation runs to its end before the next.
use wavs.Prelude.{
  ℕ, Bool, true, false, Option, none, some, List, [], ◌∷◌, ◌++◌, Bytes, bytes_eq, ◌==◌,
  if◌then◌else◌,
}
use wavs.Prelude.Result.{map_err, ◌>>=◌, Result, ok, err}
use wavs.Errors.{TriggerError}
use wavs.Types.ChainConfig.{ChainConfigs}
use wavs.Types.Service.{ServiceId, Service, id, service_hash}
use wavs.Types.Submission.{EvmAddress}
use wavs.Scheduler.Cron.{CronCrate}
use wavs.Services.Store.{Services, ServicesError, get_service, exists, save}
use wavs.Services.Store
use wavs.Lookup.Maps.{BiMapCrate, LookupMaps}
use wavs.Lookup.Maps
use wavs.Trigger.Events.{EventCrate}
use wavs.Trigger.Commands.{TriggerCommand, add_to_manager}
use wavs.Submission.Manager.{
  KeyCrate, SubmissionManager, SubmissionError, add_service_key, get_service_signer,
}

-- Of `DispatcherError` what the operations return; an error of the engine, of a fetch or of encoding a
-- service is its text.
pub data DispatcherError : Type 0 where
  service_registered : ServiceId → DispatcherError
  unknown_service : ServicesError → DispatcherError
  engine : Bytes → DispatcherError
  trigger_error : TriggerError → DispatcherError
  submission_error : SubmissionError → DispatcherError
  change_id_mismatch : ServiceId → ServiceId → DispatcherError
  fetch_service : Bytes → DispatcherError
  service_error : Bytes → DispatcherError

-- The commands to the aggregator about topics of the network.
pub data TopicCommand : Type 0 where
  subscribe_service unsubscribe_service : ServiceId → TopicCommand

-- The crates together, with the hash of a service manager's bytes, the JSON of a service
-- (`serde_json::to_vec`) and the digest of it.
pub record Crates : Type 1 where
  pub cron : CronCrate
  pub bimap : BiMapCrate
  pub events : EventCrate
  pub keys : KeyCrate
  pub hash : Bytes → ServiceId
  pub to_json : Service → Result Bytes Bytes
  pub digest_of : Bytes → Bytes

module _ (R : Crates) where
  pub record Dispatcher : Type 0 where
    pub services : Services
    pub maps : LookupMaps R.cron R.bimap
    pub submissions : SubmissionManager R.keys
    pub chain_configs : ChainConfigs
    pub to_watcher : List TriggerCommand
    pub to_aggregator : List TopicCommand

  abbrev pub Outcome : Type 0
  Outcome = Dispatcher × Result DispatcherError (Unit {0})

  abbrev pub service_id : Service → ServiceId
  service_id service = id R.hash service

  abbrev pub triggers_added :
      Dispatcher
      → ServiceId
      → LookupMaps R.cron R.bimap × Result TriggerError (List TriggerCommand)
      → Outcome
  triggers_added d sid (maps, err e) = (record d { maps = maps }, err (trigger_error e))
  triggers_added d sid (maps, ok commands) = (
    record d {
      maps = maps;
      to_watcher = d.to_watcher ++ commands;
      to_aggregator = d.to_aggregator ++ subscribe_service sid ∷ [];
    },
    ok tt,
  )

  abbrev pub key_added :
      Dispatcher → Service → SubmissionManager R.keys × Result SubmissionError (Unit {0}) → Outcome
  key_added d service (m, err e) = (record d { submissions = m }, err (submission_error e))
  key_added d service (m, ok _) =
      triggers_added (record d { submissions = m }) (service_id service)
        (add_to_manager R.cron R.bimap R.events d.maps d.chain_configs (service_id service) service)

  unfoldable pub add_service_to_managers : Dispatcher → Service → Option ℕ → Outcome
  add_service_to_managers d service hd_index =
      key_added d service (add_service_key R.keys d.submissions (service_id service) hd_index)

  abbrev pub then_add : Dispatcher → Service → Option ℕ → Outcome
  then_add d service hd_index =
      add_service_to_managers (record d { services = save R.hash d.services service }) service
        hd_index

  abbrev pub components_stored : Dispatcher → Service → Result Bytes (Unit {0}) → Outcome
  components_stored d service (err e) = (d, err (engine e))
  components_stored d service (ok _) = then_add d service none

  -- `store` is what the engine answers to `store_components_for_service`.
  unfoldable pub add_service_direct : Dispatcher → Result Bytes (Unit {0}) → Service → Outcome
  unfolding add_service_to_managers
  add_service_direct d store service =
      if exists d.services (service_id service)
      then (d, err (service_registered (service_id service)))
      else components_stored d service store

  -- The removal of the engine's storage is not modelled; the submission manager keeps its key.
  unfoldable pub remove_service : Dispatcher → ServiceId → Dispatcher
  remove_service d sid = record d {
    services = Store.remove_service d.services sid;
    maps = Maps.remove_service R.cron R.bimap d.maps sid;
    to_aggregator = d.to_aggregator ++ unsubscribe_service sid ∷ [];
  }

  abbrev pub changed_components :
      Dispatcher → Service → ServiceId → ℕ → Result Bytes (Unit {0}) → Outcome
  changed_components d service sid hd_index (err e) = (d, err (engine e))
  changed_components d service sid hd_index (ok _) =
      then_add (remove_service d sid) service (some hd_index)

  -- Logging at the level `INFO` reads the old service and hashes both, and fails where these do.
  unfoldable pub logged_old :
      Bool → Dispatcher → ServiceId → Service → Result DispatcherError (Unit {0})
  unfolding get_service service_hash
  logged_old false d sid service = ok tt
  logged_old true d sid service = do
    old ← map_err unknown_service (get_service d.services sid)
    old_hash ← map_err service_error (service_hash R.to_json R.digest_of old)
    new_hash ← map_err service_error (service_hash R.to_json R.digest_of service)
    ok tt

  abbrev pub with_log :
      Dispatcher
      → Result Bytes (Unit {0})
      → Service
      → ServiceId
      → ℕ
      → Result DispatcherError (Unit {0})
      → Outcome
  with_log d store service sid hd_index (err e) = (d, err e)
  with_log d store service sid hd_index (ok _) = changed_components d service sid hd_index store

  abbrev pub with_index :
      Dispatcher
      → Bool
      → Result Bytes (Unit {0})
      → Service
      → ServiceId
      → Result SubmissionError (ℕ × EvmAddress)
      → Outcome
  with_index d info store service sid (err e) = (d, err (submission_error e))
  with_index d info store service sid (ok (hd_index, address)) =
      with_log d store service sid hd_index (logged_old info d sid service)

  -- `info` is `tracing::enabled!(INFO)`.
  unfoldable pub change_service_inner :
      Dispatcher → Bool → Result Bytes (Unit {0}) → ServiceId → Service → Outcome
  unfolding add_service_to_managers remove_service logged_old
  change_service_inner d info store sid service =
      if service_id service == sid
      then with_index d info store service sid (get_service_signer R.keys d.submissions sid)
      else (d, err (change_id_mismatch sid (service_id service)))

  abbrev pub fetched :
      Dispatcher → Bool → Result Bytes (Unit {0}) → ServiceId → Result Bytes Service → Outcome
  fetched d info store sid (err e) = (d, err (fetch_service e))
  fetched d info store sid (ok service) = change_service_inner d info store sid service

  -- `change_service`; the fetched service is a parameter.
  unfoldable pub change_service :
      Dispatcher → Bool → Result Bytes (Unit {0}) → ServiceId → Result Bytes Service → Outcome
  unfolding change_service_inner
  change_service d info store sid service = fetched d info store sid service

  abbrev pub proceed : (Dispatcher → Outcome) → Outcome → Outcome
  proceed k (d, ok _) = k d
  proceed k (d, err e) = (d, err e)

  -- The population of `start`, which ends at the first error.
  unfoldable pub populate : Dispatcher → List Service → Outcome
  unfolding add_service_to_managers
  populate d [] = (d, ok tt)
  populate d (service ∷ rest) =
      proceed (λ d'. populate d' rest) (add_service_to_managers d service none)
