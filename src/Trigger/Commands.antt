-- ===== src/Trigger/Commands.antt =====
-- trigger.rs: the local commands, `TriggerCommand::map`, and `add_service` of the trigger manager,
-- whose commands come back in the order in which they are sent.
use wavs.Prelude.{Option, none, some, List, [], ◌∷◌, ◌++◌, Bytes}
use wavs.Prelude.Map.{Map}
use wavs.Prelude.Result.{Result, ok, err}
use wavs.Errors.{TriggerError}
use wavs.Types.Chain.{ChainKey}
use wavs.Types.ChainConfig.{AnyChainConfig, ChainConfigs, cosmos, evm, get_chain}
use wavs.Types.Service.{
  ServiceId, WorkflowId, Workflow, Service, ServiceManager, Trigger, manager_chain,
  cosmos_contract_event, evm_contract_event, block_interval, cron, at_proto_event, hypercore_append,
  manual,
}
use wavs.Types.Submission.{TriggerAction}
use wavs.Types.TriggerData.{TriggerData}
use wavs.Scheduler.Cron.{CronCrate}
use wavs.Lookup.Maps.{BiMapCrate, LookupMaps, Outcome, add_service}
use wavs.Trigger.Events.{EventCrate}

pub data TriggerCommand : Type 0 where
  kill : TriggerCommand
  start_listening_chain : ChainKey → TriggerCommand
  start_listening_cron : TriggerCommand
  watch_evm_blocks : ChainKey → TriggerCommand
  watch_evm_contract_events : ChainKey → List Bytes → List Bytes → TriggerCommand
  start_listening_at_proto : TriggerCommand
  start_listening_hypercore : Bytes → TriggerCommand
  manual_trigger : TriggerAction TriggerData → TriggerCommand

abbrev pub block_commands : ChainKey → Option AnyChainConfig → List TriggerCommand
block_commands chain none = []
block_commands chain (some (evm c)) = start_listening_chain chain ∷ watch_evm_blocks chain ∷ []
block_commands chain (some (cosmos c)) = start_listening_chain chain ∷ []

-- `TriggerCommand::map`, of the trigger of a config.
unfoldable pub commands_of : Trigger → ChainConfigs → List TriggerCommand
unfolding get_chain
commands_of (cron schedule start_time end_time) configs = start_listening_cron ∷ []
commands_of (evm_contract_event address chain event_hash) configs =
    start_listening_chain chain
    ∷ watch_evm_contract_events chain (address ∷ []) (event_hash ∷ [])
    ∷ []
commands_of (cosmos_contract_event address chain event_type) configs =
    start_listening_chain chain ∷ []
commands_of (block_interval chain n_blocks start_block end_block) configs =
    block_commands chain (get_chain configs chain)
commands_of (at_proto_event collection repo_did action) configs = start_listening_at_proto ∷ []
commands_of (hypercore_append feed_key) configs = start_listening_hypercore feed_key ∷ []
commands_of manual configs = []

unfoldable pub workflow_commands : Map WorkflowId Workflow → ChainConfigs → List TriggerCommand
unfolding commands_of
workflow_commands [] configs = []
workflow_commands ((wid, w) ∷ ws) configs =
    commands_of w.trigger configs ++ workflow_commands ws configs

abbrev pub manager_commands : EventCrate → ServiceManager → List TriggerCommand
manager_commands V (ServiceManager.evm chain address) =
    watch_evm_contract_events chain (address ∷ []) (V.service_uri_updated ∷ []) ∷ []
manager_commands V (ServiceManager.cosmos chain address) = []

-- The manager's chain, the manager's event, then each workflow.
unfoldable pub service_commands : EventCrate → Service → ChainConfigs → List TriggerCommand
unfolding workflow_commands manager_chain
service_commands V service configs =
    start_listening_chain (manager_chain service.manager) ∷ manager_commands V service.manager
    ++ workflow_commands service.workflows configs

module _ (C : CronCrate) (B : BiMapCrate) (V : EventCrate) where
  abbrev pub with_commands :
      Service
      → ChainConfigs
      → Outcome C B
      → LookupMaps C B × Result TriggerError (List TriggerCommand)
  with_commands service configs (l, err e) = (l, err e)
  with_commands service configs (l, ok _) = (l, ok (service_commands V service configs))

  -- `TriggerManager::add_service`: an error of the lookup maps sends no command.
  unfoldable pub add_to_manager :
      LookupMaps C B
      → ChainConfigs
      → ServiceId
      → Service
      → LookupMaps C B × Result TriggerError (List TriggerCommand)
  unfolding service_commands
  add_to_manager l configs sid service =
      with_commands service configs (add_service C B l sid service)
