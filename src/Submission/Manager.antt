-- ===== src/Submission/Manager.antt =====
-- submission.rs: the submission manager. The derivation of a key from the mnemonic and an index, and
-- the signing of a hash, are by the crate `alloy`: parameters.
use wavs.Prelude.{ℕ, ◌+◌, ◌%◌, ◌^◌, Option, none, some, [], ◌∷◌, Bytes, bytes_eq, if◌then◌else◌}
use wavs.Prelude.Map.{Map, get, insert}
use wavs.Prelude.Result.{Result, ok, err, ok_or, map_err, ◌>>=◌}
use wavs.Types.Service.{
  ServiceId, WorkflowId, Submit, no_submit, aggregator, SignatureKind, Service,
}
use wavs.Types.Submission.{
  EvmAddress, Envelope, WavsSignature, WasmResponse, TriggerAction, Submission, SigningCrate,
  signed_hash,
}
use wavs.Types.TriggerData.{TriggerData}
use wavs.Services.Store.{Services, ServicesError, get_workflow, is_active}
use wavs.Submission.Event.{EventCrates, request_event_id}
use wavs.Submission.Order.{new_u64}

-- submission/error.rs, of what the model returns; an error of a crate is its text.
pub data SubmissionError : Type 0 where
  missing_service_key : ServiceId → SubmissionError
  missing_evm_signer : ServiceId → SubmissionError
  failed_to_create_evm_signer : ServiceId → Bytes → SubmissionError
  failed_to_sign_envelope : Bytes → SubmissionError
  services_error : ServicesError → SubmissionError
  invalid_submit_kind : SubmissionError
  encode_event_id : Bytes → SubmissionError

pub record KeyCrate : Type 1 where
  pub PrivateKeySigner : Type 0
  pub make_signer : ℕ → Result Bytes PrivateKeySigner
  pub sign_hash : PrivateKeySigner → Bytes → Result Bytes Bytes
  pub address : PrivateKeySigner → EvmAddress

pub record SubmissionRequest : Type 0 where
  pub trigger_action : TriggerAction TriggerData
  pub operator_response : WasmResponse
  pub service : Service

abbrev pub request_service_id : SubmissionRequest → ServiceId
request_service_id req = req.trigger_action.config.service_id

abbrev pub request_workflow_id : SubmissionRequest → WorkflowId
request_workflow_id req = req.trigger_action.config.workflow_id

-- The ordering of an envelope; twelve zero bytes if the component gave none.
abbrev pub ordering_bytes : Option ℕ → Bytes
ordering_bytes none = 0 ∷ 0 ∷ 0 ∷ 0 ∷ 0 ∷ 0 ∷ 0 ∷ 0 ∷ 0 ∷ 0 ∷ 0 ∷ 0 ∷ []
ordering_bytes (some ordering) = new_u64 ordering

abbrev pub request_envelope : SubmissionRequest → Bytes → Envelope
request_envelope req event_id = record {
  event_id = event_id;
  ordering = ordering_bytes req.operator_response.ordering;
  payload = req.operator_response.payload;
}

abbrev pub signature_kind_of : Submit → Result SubmissionError SignatureKind
signature_kind_of (aggregator component kind) = ok kind
signature_kind_of no_submit = err invalid_submit_kind

abbrev pub u32_mod : ℕ
u32_mod = 2 ^ 32

module _ (K : KeyCrate) where
  pub record SignerInfo : Type 0 where
    pub signer : K.PrivateKeySigner
    pub hd_index : ℕ

  pub record SubmissionManager : Type 0 where
    pub signers : Map ServiceId SignerInfo
    pub hd_index_count : ℕ

  -- `new`: index 0 is not given out.
  abbrev pub new_manager : SubmissionManager
  new_manager = record { signers = []; hd_index_count = 1 }

  abbrev pub unwrap_or : Option ℕ → ℕ → ℕ
  unwrap_or none n = n
  unwrap_or (some i) n = i

  abbrev pub with_signer :
      SubmissionManager
      → ServiceId
      → ℕ
      → Result Bytes K.PrivateKeySigner
      → SubmissionManager × Result SubmissionError (Unit {0})
  with_signer m sid index (err e) = (m, err (failed_to_create_evm_signer sid e))
  with_signer m sid index (ok signer) = (
    record m { signers = insert sid (record { signer = signer; hd_index = index }) m.signers },
    ok tt,
  )

  -- The argument of `unwrap_or` is evaluated first: the counter moves on also where an index is given.
  unfoldable pub add_service_key :
      SubmissionManager
      → ServiceId
      → Option ℕ
      → SubmissionManager × Result SubmissionError (Unit {0})
  add_service_key m sid hd_index =
      let index = unwrap_or hd_index m.hd_index_count in
      with_signer (record m { hd_index_count = (m.hd_index_count + 1) % u32_mod }) sid index
        (K.make_signer index)

  -- `get_service_signer`: the index and the address.
  unfoldable pub get_service_signer :
      SubmissionManager → ServiceId → Result SubmissionError (ℕ × EvmAddress)
  get_service_signer m sid = do
    info ← ok_or (get m.signers sid) (missing_service_key sid)
    ok (info.hd_index, K.address info.signer)

  module _ (C : SigningCrate) (E : EventCrates) where
    -- `WavsSigner::sign`.
    unfoldable pub sign : K.PrivateKeySigner → SignatureKind → Envelope → Result Bytes WavsSignature
    sign signer kind envelope = do
      signature ← K.sign_hash signer (signed_hash C kind.prefix envelope)
      ok (record { data_bytes = signature; kind = kind })

    unfoldable pub sign_request :
        SubmissionManager
        → Services
        → SubmissionRequest
        → Result SubmissionError (Submission TriggerData)
    unfolding request_event_id get_workflow sign
    sign_request m services req = do
      event_id ←
          map_err encode_event_id (request_event_id E req.trigger_action req.operator_response)
      info ←
          ok_or (get m.signers (request_service_id req))
            (missing_evm_signer (request_service_id req))
      workflow ←
          map_err services_error
            (get_workflow services (request_service_id req) (request_workflow_id req))
      kind ← signature_kind_of workflow.submit
      signature ←
          map_err failed_to_sign_envelope (sign info.signer kind (request_envelope req event_id))
      ok (record {
        trigger_action = req.trigger_action;
        operator_response = req.operator_response;
        event_id = event_id;
        envelope = request_envelope req event_id;
        envelope_signature = signature;
      })

    abbrev pub dispatched :
        Result SubmissionError (Submission TriggerData) → Option (Submission TriggerData)
    dispatched (ok submission) = some submission
    dispatched (err e) = none

    -- The spawned part of `Submit`: what goes back to the dispatcher, if anything.
    unfoldable pub submit :
        SubmissionManager → Services → SubmissionRequest → Option (Submission TriggerData)
    unfolding sign_request
    submit m services req =
        if is_active services (request_service_id req)
        then dispatched (sign_request m services req)
        else none
