-- ===== src/Trigger/Events/Data.antt =====
-- What the streams of trigger.rs and packages/wavs/src/subsystems/trigger/streams/ bring, and the crates
-- that read it.
use wavs.Prelude.{ℕ, Bool, Option, List, Bytes, bytes_eq, nat_eq}
use wavs.Types.Chain.{ChainKey, chain_key_eq}
use wavs.Types.Service.{ServiceId, AtProtoAction}
use wavs.Types.Submission.{TriggerAction}
use wavs.Types.TriggerData.{TriggerData}
use wavs.Scheduler.Interval.{LookupId}
use wavs.Scheduler.Block.{block_interval_state}
use wavs.Lookup.Maps.{event_key_eq, at_proto_key_eq}

-- The commands of dispatcher.rs that the trigger manager sends.
pub data DispatcherCommand : Type 0 where
  trigger : TriggerAction TriggerData → DispatcherCommand
  change_service_uri : ServiceId → Bytes → DispatcherCommand

pub record EvmLog : Type 0 where
  pub chain : ChainKey
  pub address : Bytes
  pub topic0 : Option Bytes
  pub log_data : Bytes
  pub block_number : ℕ
  pub tx_hash : Bytes
  pub block_hash : Bytes
  pub tx_index : ℕ
  pub block_timestamp : Option ℕ
  pub log_index : ℕ

pub record CosmosEvent : Type 0 where
  pub contract_address : Bytes
  pub ty : Bytes
  pub attributes : List (Bytes × Bytes)
  pub event : Bytes
  pub event_index : ℕ

pub record AtProtoEvent : Type 0 where
  pub sequence : ℕ
  pub timestamp : ℕ
  pub repo : Bytes
  pub collection : Bytes
  pub rkey : Bytes
  pub action : AtProtoAction
  pub cid : Option Bytes
  pub json : Option Bytes
  pub rev : Option Bytes
  pub op_index : Option ℕ

pub record HypercoreAppendEvent : Type 0 where
  pub feed_key : Bytes
  pub index : ℕ
  pub content : Bytes

pub record CronHit : Type 0 where
  pub lookup_ids : List LookupId
  pub scheduled_time : ℕ

-- Of the crates that read events: the event of a service manager, its decoded URI, what a URI is, and
-- the event type and attribute of a Cosmos manager.
pub record EventCrate : Type 0 where
  pub service_uri_updated : Bytes
  pub decode_log_data : Bytes → Option Bytes
  pub uri_string : Bytes → Option Bytes
  pub is_service_uri_updated : Bytes → Bool
  pub service_uri_key : Bytes

-- `StreamTriggers`, but for the commands that start streams.
pub data StreamTrigger : Type 0 where
  evm_log : EvmLog → StreamTrigger
  cosmos_block : ChainKey → List CosmosEvent → ℕ → StreamTrigger
  evm_block : ChainKey → ℕ → StreamTrigger
  cron_ticked : List CronHit → StreamTrigger
  at_proto : AtProtoEvent → StreamTrigger
  hypercore : HypercoreAppendEvent → StreamTrigger
  manual_trigger : TriggerAction TriggerData → StreamTrigger
