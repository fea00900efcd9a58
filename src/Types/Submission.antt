-- ===== src/Types/Submission.antt =====
-- packages/types/src/submission.rs, aggregator_types.rs and signing.rs: what the submission subsystem
-- sends and the aggregator queues. The data of a trigger, which the aggregator only passes on, is a
-- parameter, and so are the crates `alloy` and `sha3`; keys, hashes and addresses are their bytes.
use wavs.Prelude.{ℕ, Option, none, some, Bytes, Bytes-discrete, ℕ_discrete, Eq, List}
use wavs.Prelude.Result.{Result, map_err, ◌>>=◌}
use wavs.Types.Chain.{ChainKey, ChainKey-discrete}
use wavs.Types.Service.{
  ServiceId, WorkflowId, TriggerConfig, SignatureKind, SignaturePrefix, eip191,
}

abbrev pub EvmAddress : Type 0
EvmAddress = Bytes

pub record Envelope : Type 0 where
  pub event_id : Bytes
  pub ordering : Bytes
  pub payload : Bytes

unfoldable pub Envelope-discrete : Discrete Envelope
Envelope-discrete = hlevel Bytes-discrete

instance abbrev pub envelope_eq : Eq Envelope
envelope_eq = record { dec = Envelope-discrete }

pub record WavsSignature : Type 0 where
  pub data_bytes : Bytes
  pub kind : SignatureKind

pub record WasmResponse : Type 0 where
  pub payload : Bytes
  pub ordering : Option ℕ
  pub event_id_salt : Option Bytes

pub record TriggerAction (D : Type 0) : Type 0 where
  pub config : TriggerConfig
  pub trigger_data : D

pub record Submission (D : Type 0) : Type 0 where
  pub trigger_action : TriggerAction D
  pub operator_response : WasmResponse
  pub event_id : Bytes
  pub envelope : Envelope
  pub envelope_signature : WavsSignature

abbrev pub service_id : {D : Type 0} → Submission D → ServiceId
service_id s = s.trigger_action.config.service_id

abbrev pub workflow_id : {D : Type 0} → Submission D → WorkflowId
workflow_id s = s.trigger_action.config.workflow_id

-- Of the crate `alloy_primitives`: the signature of its raw bytes, and the address that signed a
-- hash; `keccak256`, `eip191_hash_message` and `abi_encode` with them.
pub record SigningCrate : Type 1 where
  pub Signature : Type 0
  pub from_raw : Bytes → Result Bytes Signature
  pub recover_address_from_prehash : Signature → Bytes → Result Bytes EvmAddress
  pub keccak256 : Bytes → Bytes
  pub eip191_hash_message : Bytes → Bytes
  pub abi_encode : Envelope → Bytes

pub data SigningError : Type 0 where
  recover_signer_address : Bytes → SigningError

module _ (C : SigningCrate) where
  -- `unprefixed_hash` and `prefix_eip191_hash` of an envelope.
  abbrev pub signed_hash : Option SignaturePrefix → Envelope → Bytes
  signed_hash none envelope = C.keccak256 (C.abi_encode envelope)
  signed_hash (some eip191) envelope = C.eip191_hash_message (C.keccak256 (C.abi_encode envelope))

  unfoldable pub evm_signer_address : WavsSignature → Envelope → Result SigningError EvmAddress
  evm_signer_address sig envelope = do
    signature ← map_err recover_signer_address (C.from_raw sig.data_bytes)
    map_err recover_signer_address
        (C.recover_address_from_prehash signature (signed_hash sig.kind.prefix envelope))

pub record EvmSubmitAction : Type 0 where
  pub chain : ChainKey
  pub address : Bytes
  pub gas_price : Option ℕ

pub record CosmosSubmitAction : Type 0 where
  pub chain : ChainKey
  pub address : Bytes
  pub gas_price : Option ℕ

pub data SubmitAction : Type 0 where
  evm : EvmSubmitAction → SubmitAction
  cosmos : CosmosSubmitAction → SubmitAction

pub data AggregatorAction : Type 0 where
  submit : SubmitAction → AggregatorAction
  timer : ℕ → AggregatorAction

pub record QuorumQueueId : Type 0 where
  pub event_id : Bytes
  pub action : SubmitAction

unfoldable pub QuorumQueueId-discrete : Discrete QuorumQueueId
QuorumQueueId-discrete = hlevel (ChainKey-discrete, Bytes-discrete, ℕ_discrete)

instance abbrev pub queue_id_eq : Eq QuorumQueueId
queue_id_eq = record { dec = QuorumQueueId-discrete }

pub data QuorumQueue (D : Type 0) : Type 0 where
  burned : ℕ → QuorumQueue D
  active : List (Submission D) → QuorumQueue D
