-- ===== src/Dispatcher/Tests.antt =====
-- Examples of the dispatcher: one service is added, changed and removed.
use wavs.Prelude.{
  ℕ, ◌+◌, ◌<◌, ◌≡◌, ◌≢◌, refl, true, false, List, [], ◌∷◌, none, some, bytes, bytes_eq, arith,
  retain, Bytes-discrete, ℕ_discrete, inl, length,
}
use wavs.Prelude.Map.{get, insert, remove}
use wavs.Prelude.Result.{ok, err}
use wavs.Types.Service.{Service, ServiceId, evm, hypercore_append, id}
use wavs.Types.TriggerData.{TriggerData}
use wavs.Services.Store.{exists, is_active}
use wavs.Services.Store
use wavs.Lookup.Maps.{new_maps}
use wavs.Lookup.Indexed.{IsIndexed, new_maps-IsIndexed}
use wavs.Lookup.IndexedAdd.{add_service-IsIndexed}
use wavs.Scheduler.Block.{u64_mod}
use wavs.Trigger.Events.{
  DispatcherCommand, stream_event, hypercore, HypercoreAppendEvent, action_of,
}
use wavs.Submission.Manager.{new_manager, get_service_signer}
use wavs.Dispatcher.Operations.{
  Dispatcher, DispatcherError, add_service_direct, remove_service, change_service_inner,
}
use wavs.Dispatcher.Registered.{AddOutcome, add_service_direct_cases}
use wavs.Dispatcher.Removed.{removed-silent}
use wavs.Dispatcher.Changed.{IsChanged, change_service_inner_lem}
use wavs.Dispatcher.Revived.{change_of_removed}
use wavs.Samples.{crates, service_of}

abbrev D : Type 0
D = Dispatcher crates

abbrev new_dispatcher : D
new_dispatcher = record {
  services = [];
  maps = new_maps crates.cron crates.bimap;
  submissions = new_manager crates.keys;
  chain_configs = record { cosmos_chains = []; evm_chains = []; dev_chains = [] };
  to_watcher = [];
  to_aggregator = [];
}

abbrev echo : Service
echo = service_of (hypercore_append (7 ∷ []))

abbrev echo_id : ServiceId
echo_id = id crates.hash echo

add_service_direct_cases_example :
    AddOutcome crates new_dispatcher
      (ok tt)
      echo
      (add_service_direct crates new_dispatcher (ok tt) echo)
add_service_direct_cases_example = add_service_direct_cases crates new_dispatcher (ok tt) echo

abbrev with_echo : D
with_echo = (add_service_direct crates new_dispatcher (ok tt) echo).0

abbrev appended : HypercoreAppendEvent
appended = record { feed_key = 7 ∷ []; index = 1; content = [] }

-- A second service, on another feed and with another manager.
abbrev quiet : Service
quiet = record (service_of (hypercore_append (8 ∷ []))) {
  manager = evm (record { namespace = bytes "evm"; id = bytes "1" }) (6 ∷ []);
}

abbrev with_both : D
with_both = (add_service_direct crates with_echo (ok tt) quiet).0

-- Removing the second leaves the first to fire.
abbrev fired : List DispatcherCommand
fired =
    action_of (TriggerData.hypercore_append (7 ∷ []) 1 []) (record {
      service_id = echo_id;
      workflow_id = bytes "w";
      trigger = hypercore_append (7 ∷ []);
    })
    ∷ []

echo_fires :
    (stream_event crates.cron crates.bimap crates.events with_both.maps
      (remove_service crates with_both (id crates.hash quiet)).services
      (hypercore appended)).1
    ≡ ok fired
unfolding stream_event add_service_direct wavs.Lookup.Configs.get_trigger_configs retain get exists
    wavs.Prelude.Map.contains_key wavs.Submission.Manager.add_service_key
    wavs.Trigger.Commands.add_to_manager wavs.Lookup.Maps.add_service Store.save insert
    Bytes-discrete wavs.Types.Service.manager_bytes ℕ_discrete wavs.Lookup.Index.add_to new_maps
    Store.is_active remove_service id Store.remove_service remove
echo_fires = refl

removed-silent_example : echo_id ≢ id crates.hash quiet
removed-silent_example =
    removed-silent crates with_both (id crates.hash quiet) with_both.maps (hypercore appended) fired
      (record {
        config = record {
          service_id = echo_id;
          workflow_id = bytes "w";
          trigger = hypercore_append (7 ∷ []);
        };
        trigger_data = TriggerData.hypercore_append (7 ∷ []) 1 [];
      })
      refl echo_fires (inl refl)

its_signer : get_service_signer crates.keys with_echo.submissions echo_id ≡ ok (1, 1 ∷ [])
unfolding get_service_signer add_service_direct get exists wavs.Prelude.Map.contains_key
    wavs.Submission.Manager.add_service_key wavs.Trigger.Commands.add_to_manager Store.save insert
    Bytes-discrete wavs.Types.Service.manager_bytes ℕ_discrete wavs.Lookup.Maps.add_service
its_signer = refl

abbrev after_removal : D
after_removal = remove_service crates with_echo echo_id

is_gone : get after_removal.services echo_id ≡ none
unfolding add_service_direct get exists wavs.Prelude.Map.contains_key
    wavs.Submission.Manager.add_service_key wavs.Trigger.Commands.add_to_manager
    wavs.Lookup.Maps.add_service Store.save insert Bytes-discrete wavs.Types.Service.manager_bytes
    ℕ_discrete wavs.Lookup.Index.add_to new_maps Store.is_active remove_service id
    Store.remove_service remove
is_gone = refl

signer_stays : get_service_signer crates.keys after_removal.submissions echo_id ≡ ok (1, 1 ∷ [])
unfolding remove_service
signer_stays = its_signer

change_of_removed_example :
    (change_service_inner crates after_removal true (ok tt) echo_id echo
      ≡ (after_removal, err (DispatcherError.unknown_service (Store.unknown_service echo_id))))
    × (exists
          (change_service_inner crates after_removal false (ok tt) echo_id echo).0.services
          echo_id
        ≡ true)
change_of_removed_example =
    change_of_removed crates after_removal (ok tt) echo_id echo 1 (1 ∷ []) is_gone refl signer_stays

abbrev louder : Service
louder = record echo { name = bytes "louder" }

abbrev changed : D
changed = (change_service_inner crates with_echo true (ok tt) echo_id louder).0

change_succeeds :
    change_service_inner crates with_echo true (ok tt) echo_id louder ≡ (changed, ok tt)
unfolding change_service_inner get_service_signer add_service_direct retain get exists
    wavs.Prelude.Map.contains_key wavs.Submission.Manager.add_service_key
    wavs.Trigger.Commands.add_to_manager wavs.Lookup.Maps.add_service Store.save insert
    Bytes-discrete wavs.Types.Service.manager_bytes ℕ_discrete wavs.Lookup.Index.add_to new_maps
    Store.is_active remove_service id Store.remove_service remove
change_succeeds = refl

with_echo-IsIndexed : IsIndexed crates.cron crates.bimap with_echo.maps
unfolding add_service_direct new_maps exists wavs.Lookup.Maps.add_service
    wavs.Prelude.Map.contains_key wavs.Submission.Manager.add_service_key
    wavs.Trigger.Commands.add_to_manager
with_echo-IsIndexed =
    add_service-IsIndexed crates.cron crates.bimap (new_maps crates.cron crates.bimap) echo_id echo
      (new_maps-IsIndexed crates.cron crates.bimap) (omega arith)

has_room : with_echo.maps.lookup_id + length louder.workflows < u64_mod
unfolding add_service_direct new_maps exists wavs.Lookup.Maps.add_service
    wavs.Prelude.Map.contains_key wavs.Submission.Manager.add_service_key
    wavs.Trigger.Commands.add_to_manager
has_room = omega arith

change_service_inner_lem_example : IsChanged crates with_echo changed echo_id louder
change_service_inner_lem_example =
    change_service_inner_lem crates with_echo changed true (ok tt) echo_id louder
      with_echo-IsIndexed has_room change_succeeds
