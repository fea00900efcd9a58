-- ===== src/Types/TriggerData.antt =====
-- packages/types/src/service.rs: `TriggerData`, what an event hands to a component. A log, an event
-- of a Cosmos contract and a JSON value are their bytes; a signed number is its bit pattern.
use wavs.Prelude.{ℕ, Option, none, some, Bytes, bytes}
use wavs.Types.Chain.{ChainKey}
use wavs.Types.Service.{AtProtoAction}

pub data TriggerData : Type 0 where
  -- contract address, chain, event, block height, event index
  cosmos_contract_event : Bytes → ChainKey → Bytes → ℕ → ℕ → TriggerData
  -- chain, contract address, log data, transaction hash, block number, log index, block hash, block
  -- timestamp, transaction index
  evm_contract_event : ChainKey → Bytes → Bytes → Bytes → ℕ → ℕ → Bytes → Option ℕ → ℕ → TriggerData
  block_interval : ChainKey → ℕ → TriggerData
  cron : ℕ → TriggerData
  -- sequence, timestamp, repo, collection, record key, action, cid, record, revision, op index
  at_proto_event :
      ℕ
      → ℕ
      → Bytes
      → Bytes
      → Bytes
      → AtProtoAction
      → Option Bytes
      → Option Bytes
      → Option Bytes
      → Option ℕ
      → TriggerData
  hypercore_append : Bytes → ℕ → Bytes → TriggerData
  raw : Bytes → TriggerData

unfoldable pub trigger_type : TriggerData → Bytes
trigger_type (cosmos_contract_event a c e h i) = bytes "cosmos_contract_event"
trigger_type (evm_contract_event c a d t n i b s x) = bytes "evm_contract_event"
trigger_type (block_interval c h) = bytes "block_interval"
trigger_type (cron t) = bytes "cron"
trigger_type (at_proto_event s t r c k a i j v o) = bytes "atproto_event"
trigger_type (hypercore_append f i d) = bytes "hypercore_append"
trigger_type (raw d) = bytes "manual"

unfoldable pub chain : TriggerData → Option ChainKey
chain (cosmos_contract_event a c e h i) = some c
chain (evm_contract_event c a d t n i b s x) = some c
chain (block_interval c h) = some c
chain (cron t) = none
chain (at_proto_event s t r c k a i j v o) = none
chain (hypercore_append f i d) = none
chain (raw d) = none
