-- ===== src/Lookup/Tests.antt =====
-- Examples of the lookup maps, with a `cron` that parses everything and ends, and for `bimap` a list
-- that is not searched.
use wavs.Prelude.Map.{Map, get, insert_by, remove}
use wavs.Prelude.Result.{ok}
use wavs.Prelude.{
  refl, Bytes-discrete, ℕ_discrete, arith, some, bytes_eq, nat_eq, ◌==◌, if◌then◌else◌, ◌≡◌, none,
  List, [], ◌∷◌, bytes,
}
use wavs.Types.Chain.{ChainKey}
use wavs.Lookup.Entries.{has}
use wavs.Lookup.Indexed.{IsIndexed, new_maps-IsIndexed}
use wavs.Lookup.IndexedAdd.{add_config-IsIndexed}
use wavs.Lookup.IndexedRemove.{remove_service-IsIndexed, remove_workflow_lem}
use wavs.Scheduler.Interval.{LookupId, add_trigger, new}
use wavs.Types.Service.{
  TriggerConfig, Service, WorkflowId, active, evm, ServiceId, Address, Trigger, block_interval,
}
use wavs.Scheduler.Cron.{CronCrate, exhausted}
use wavs.Lookup.Maps.{
  LookupMaps, add_config, record_config, remove_service, remove_workflow, values,
  workflows_or_empty, BiMapCrate, new_maps, index_trigger,
}

abbrev ended_cron : CronCrate
ended_cron = record {
  Schedule = Unit {0};
  ScheduleIterator = Unit {0};
  parse = λ text. ok tt;
  after_owned = λ schedule now. tt;
  next = λ iterator. (exhausted, tt);
}

abbrev no_managers : BiMapCrate
no_managers = record {
  BiMap = List (ServiceId × Address);
  empty = [];
  insert = λ id address m. (id, address) ∷ m;
  remove_by_left = λ id m. m;
  get_by_right = λ m address. none;
}

abbrev ethereum : ChainKey
ethereum = record { namespace = bytes "evm"; id = bytes "1" }

abbrev every_five : Trigger
every_five = block_interval ethereum 5 none none

abbrev L : Type 0
L = LookupMaps ended_cron no_managers

abbrev watched : TriggerConfig
watched = record { service_id = bytes "s"; workflow_id = bytes "w"; trigger = every_five }

-- The maps with one trigger.
abbrev one_trigger : L
one_trigger = (add_config ended_cron no_managers (new_maps ended_cron no_managers) watched).0

one_trigger-IsIndexed : IsIndexed ended_cron no_managers one_trigger
unfolding new_maps
one_trigger-IsIndexed =
    add_config-IsIndexed ended_cron no_managers (new_maps ended_cron no_managers) watched
      (new_maps-IsIndexed ended_cron no_managers) (omega arith)

abbrev service : Service
service = record { name = []; workflows = []; status = active; manager = evm ethereum (5 ∷ []) }

remove_service-IsIndexed_example :
    let l' = remove_service ended_cron no_managers one_trigger (bytes "s") in
    IsIndexed ended_cron no_managers l'
    × ((id : LookupId)
        → get l'.trigger_configs id ≡ (
            if has id (
              values (
                workflows_or_empty ended_cron no_managers
                  (get one_trigger.service_workflows (bytes "s"))))
            then none
            else get one_trigger.trigger_configs id))
remove_service-IsIndexed_example =
    remove_service-IsIndexed ended_cron no_managers one_trigger (bytes "s") one_trigger-IsIndexed

abbrev its_workflows : Map WorkflowId LookupId
its_workflows = (bytes "w", 0) ∷ []

one_workflow : get one_trigger.service_workflows (bytes "s") ≡ some its_workflows
unfolding add_trigger new wavs.Scheduler.Block.new add_config index_trigger record_config new_maps
    get insert_by Bytes-discrete ℕ_discrete
one_workflow = refl

its_id : get its_workflows (bytes "w") ≡ some 0
unfolding get Bytes-discrete ℕ_discrete
its_id = refl

remove_workflow_lem_example :
    let (l', result) = remove_workflow ended_cron no_managers one_trigger (bytes "s") (bytes "w") in
    (result ≡ ok tt)
    × ((j : LookupId)
        → get l'.trigger_configs j ≡ (if 0 == j then none else get one_trigger.trigger_configs j))
    × (get l'.service_workflows (bytes "s") ≡ some (remove (bytes "w") its_workflows))
    × IsIndexed ended_cron no_managers l'
remove_workflow_lem_example =
    remove_workflow_lem ended_cron no_managers one_trigger (bytes "s") (bytes "w") its_workflows 0
      one_trigger-IsIndexed one_workflow its_id
