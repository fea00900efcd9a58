-- ===== src/Submission/Event.antt =====
-- packages/types/src/signing.rs: event ids. `Ripemd160` and the encoder `bincode`, which may fail, are
-- parameters; an error of the encoder is its text.
use wavs.Prelude.{ℕ, ◌≡◌, refl, Option, none, some, ◌++◌, Bytes}
use mathlib.Core.List.{append_assoc}
use wavs.Prelude.Result.{Result, ok, ◌>>=◌}
use wavs.Types.Service.{ServiceId, WorkflowId, AtProtoAction}
use wavs.Types.Submission.{TriggerAction, WasmResponse}
use wavs.Types.TriggerData.{TriggerData, at_proto_event}

pub record EventCrates : Type 0 where
  pub ripemd160 : Bytes → Bytes
  pub encode_trigger : TriggerData → Result Bytes Bytes
  -- repo, collection, record key, action, cid, record, revision, op index
  pub encode_at_proto :
      Bytes
      → Bytes
      → Bytes
      → AtProtoAction
      → Option Bytes
      → Option Bytes
      → Option Bytes
      → Option ℕ
      → Result Bytes Bytes

pub data EventIdSalt : Type 0 where
  wasm_response : Bytes → EventIdSalt
  trigger_salt : TriggerData → EventIdSalt

module _ (E : EventCrates) where
  -- Of an AT Protocol event neither the sequence nor the timestamp, which depend on the stream.
  abbrev pub encoded : TriggerData → Result Bytes Bytes
  encoded (at_proto_event sequence timestamp repo collection rkey action cid json rev op_index) =
      E.encode_at_proto repo collection rkey action cid json rev op_index
  encoded d = E.encode_trigger d

  abbrev pub salt_bytes : EventIdSalt → Result Bytes Bytes
  salt_bytes (wasm_response salt) = ok salt
  salt_bytes (trigger_salt d) = encoded d

  -- `EventId::new`: the updates of the hasher in their order.
  unfoldable pub new_event_id : ServiceId → WorkflowId → EventIdSalt → Result Bytes Bytes
  new_event_id sid wid salt = do salted ← salt_bytes salt; ok (E.ripemd160 (sid ++ (wid ++ salted)))

  abbrev pub salt_of : Option Bytes → TriggerData → EventIdSalt
  salt_of (some salt) d = wasm_response salt
  salt_of none d = trigger_salt d

  -- `SubmissionRequest::event_id`, and `AggregatorInput::event_id` of the same two parts.
  unfoldable pub request_event_id : TriggerAction TriggerData → WasmResponse → Result Bytes Bytes
  unfolding new_event_id
  request_event_id action response =
      new_event_id action.config.service_id action.config.workflow_id
        (salt_of response.event_id_salt action.trigger_data)

  -- Without a salt, two AT Protocol events of one workflow that agree in all but sequence and timestamp
  -- have one event id.
  request_event_id-at_proto :
      (a b : TriggerAction TriggerData) (ra rb : WasmResponse) (s t s' t' : ℕ)
      (repo collection rkey : Bytes) (action : AtProtoAction) (cid json rev : Option Bytes)
      (op_index : Option ℕ)
      → a.config ≡ b.config
      → ra.event_id_salt ≡ none
      → rb.event_id_salt ≡ none
      → a.trigger_data ≡ at_proto_event s t repo collection rkey action cid json rev op_index
      → b.trigger_data ≡ at_proto_event s' t' repo collection rkey action cid json rev op_index
      → request_event_id a ra ≡ request_event_id b rb
  unfolding request_event_id
  request_event_id-at_proto a b ra rb s t s' t' repo collection rkey action cid json rev op_index c
        ea eb da db =
      rw (ea, eb, da, db, c) refl

  -- A byte moved from the end of the workflow id to the front of the component's salt leaves the event id
  -- as it was: no separator stands between the two.
  request_event_id-shifted :
      (a b : TriggerAction TriggerData) (ra rb : WasmResponse) (wid moved salt : Bytes)
      → a.config.service_id ≡ b.config.service_id
      → a.config.workflow_id ≡ wid ++ moved
      → b.config.workflow_id ≡ wid
      → ra.event_id_salt ≡ some salt
      → rb.event_id_salt ≡ some (moved ++ salt)
      → request_event_id a ra ≡ request_event_id b rb
  unfolding request_event_id
  request_event_id-shifted a b ra rb wid moved salt s wa wb ea eb =
      rw (ea, eb, s, wa, wb, append_assoc wid moved salt) refl
