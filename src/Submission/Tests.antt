-- ===== src/Submission/Tests.antt =====
-- Examples of the submission manager: two operators that sign one result.
use wavs.Prelude.{
  ◌*◌, ◌^◌, ◌<◌, ◌≡◌, refl, true, List, [], ◌∷◌, ◌++◌, none, some, bytes, bytes_eq, length, All,
  arith, ◌==◌, if◌then◌else◌, Bytes-discrete, ℕ_discrete,
}
use wavs.Prelude.Map.{get, insert}
use wavs.Prelude.Result.{ok}
use wavs.Types.Service.{Service, ServiceId, TriggerConfig, hypercore_append, id, secp256k1, eip191}
use wavs.Types.Submission.{EvmAddress, Submission, QuorumQueueId, evm}
use wavs.Types.TriggerData.{TriggerData}
use wavs.Aggregator.Queue.{append_submission_to_queue, signer_of}
use wavs.Services.Store.{Services, save, is_active}
use wavs.Submission.Order.{new_u64, from_be, new_u64_lem}
use wavs.Submission.Manager.{
  SubmissionManager, SubmissionRequest, SignerInfo, new_manager, add_service_key, submit,
  request_service_id, get_service_signer,
}
use wavs.Submission.Keys.{KeyUse, fresh, kept, use_keys, use_keys-apart}
use wavs.Submission.Signed.{SignsTruly, IsSigned, submit-IsSigned, submissions-join}
use wavs.Samples.{index_keys, plain_signing, plain_ids, crates, service_of, ethereum}

new_u64_lem_example :
    (length (new_u64 258) ≡ 12)
    × All (λ b. b < 256) (new_u64 258)
    × (from_be 0 (new_u64 258) ≡ 258 * 2 ^ 32)
new_u64_lem_example = new_u64_lem 258 (omega arith)

abbrev first_id : ServiceId
first_id = 1 ∷ []

abbrev uses : List KeyUse
uses = fresh (1 ∷ []) ∷ fresh (2 ∷ []) ∷ kept (1 ∷ []) ∷ []

abbrev first_key : SignerInfo index_keys
first_key = record { signer = 1; hd_index = 1 }

its_key : get (use_keys index_keys (new_manager index_keys) uses).signers (1 ∷ []) ≡ some first_key
unfolding get insert add_service_key get_service_signer Bytes-discrete ℕ_discrete
its_key = refl

use_keys-apart_example : first_id ≡ first_id
use_keys-apart_example =
    use_keys-apart index_keys uses first_id first_id first_key first_key (omega arith) its_key
      its_key refl

signs : SignsTruly index_keys plain_signing
signs signer hash signature h = (signature, refl, cc h)

abbrev echo : Service
echo = service_of (hypercore_append (7 ∷ []))

abbrev echo_id : ServiceId
echo_id = id crates.hash echo

abbrev table : Services
table = save crates.hash [] echo

abbrev operator : SubmissionManager index_keys
operator = (add_service_key index_keys (new_manager index_keys) (id crates.hash echo) none).0

-- The second operator has given out a key before.
abbrev other : SubmissionManager index_keys
other =
    (add_service_key index_keys
      (add_service_key index_keys (new_manager index_keys) (9 ∷ []) none).0 (id crates.hash echo)
      none).0

abbrev request : SubmissionRequest
request = record {
  trigger_action = record {
    config = record {
      service_id = id crates.hash echo;
      workflow_id = bytes "w";
      trigger = hypercore_append (7 ∷ []);
    };
    trigger_data = TriggerData.hypercore_append (7 ∷ []) 1 [];
  };
  operator_response = record { payload = 5 ∷ []; ordering = none; event_id_salt = some (6 ∷ []) };
  service = echo;
}

-- The submission of a signer with a key of this address.
abbrev submission_of : EvmAddress → Submission TriggerData
submission_of address =
    let event_id = echo_id ++ (bytes "w" ++ 6 ∷ []) in
    record {
      trigger_action = request.trigger_action;
      operator_response = request.operator_response;
      event_id = event_id;
      envelope = record {
        event_id = event_id;
        ordering = 0 ∷ 0 ∷ 0 ∷ 0 ∷ 0 ∷ 0 ∷ 0 ∷ 0 ∷ 0 ∷ 0 ∷ 0 ∷ 0 ∷ [];
        payload = 5 ∷ [];
      };
      envelope_signature = record {
        data_bytes = address;
        kind = record { algorithm = secp256k1; prefix = some eip191 };
      };
    }

operator_signs :
    submit index_keys plain_signing plain_ids operator table request ≡ some (submission_of (1 ∷ []))
unfolding submit get insert add_service_key is_active save Bytes-discrete ℕ_discrete
    wavs.Types.Service.manager_bytes
operator_signs = refl

other_signs :
    submit index_keys plain_signing plain_ids other table request ≡ some (submission_of (2 ∷ []))
unfolding submit get insert add_service_key is_active save Bytes-discrete ℕ_discrete
    wavs.Types.Service.manager_bytes
other_signs = refl

submit-IsSigned_example :
    (is_active table (request_service_id request) ≡ true)
    × IsSigned index_keys plain_signing plain_ids operator table request (submission_of (1 ∷ []))
submit-IsSigned_example =
    submit-IsSigned index_keys plain_signing plain_ids operator table request
      (submission_of (1 ∷ [])) signs operator_signs

abbrev its_queue : QuorumQueueId
its_queue = record {
  event_id = (submission_of []).event_id;
  action = evm (record { chain = ethereum; address = 4 ∷ []; gas_price = none });
}

submissions-join_example :
    (a : EvmAddress) × (a' : EvmAddress) × (signer_of plain_signing (submission_of (1 ∷ [])) ≡ ok a)
    × (signer_of plain_signing (submission_of (2 ∷ [])) ≡ ok a')
    × (append_submission_to_queue plain_signing its_queue
          (submission_of (1 ∷ []) ∷ [])
          (submission_of (2 ∷ []))
        ≡ ok (
            if a' == a
            then submission_of (2 ∷ []) ∷ []
            else submission_of (1 ∷ []) ∷ submission_of (2 ∷ []) ∷ []))
submissions-join_example =
    submissions-join index_keys plain_signing plain_ids operator other table table request request
      (submission_of (1 ∷ [])) (submission_of (2 ∷ [])) its_queue signs operator_signs other_signs
      refl refl
