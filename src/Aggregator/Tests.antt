-- ===== src/Aggregator/Tests.antt =====
-- Examples of the aggregator: a signature is the address of its signer, and chains that take every
-- submission or none.
use wavs.Prelude.{
  ◌-◌, ◌+◌, ◌≡◌, refl, ◌⊎◌, true, false, none, some, List, [], ◌∷◌, if◌then◌else◌, ◌==◌, Bytes,
  bytes, bytes_eq, length, retain,
}
use wavs.Prelude.Map.{Map, get, contains_key}
use wavs.Prelude.Result.{Result, ok, err}
use wavs.Types.Chain.{ChainKey}
use wavs.Types.Service.{manual, Service, ServiceId, active, evm, secp256k1, eip191}
use wavs.Types.Submission.{
  EvmAddress, Envelope, Submission, SigningCrate, QuorumQueueId, QuorumQueue, burned, SubmitAction,
  AggregatorAction, submit, timer, evm_signer_address, queue_id_eq,
}
use wavs.Types.Submission
use wavs.Aggregator.Queue.{
  AggregatorError, envelope_diff, insufficient_quorum, QuorumQueues, get_quorum_queue,
  differs_from_first, append_submission_to_queue, signer_of, is_expired, cleanup_old_burned_queues,
}
use wavs.Aggregator.Signers.{held, IsQuorumQueue, append_submission_cases}
use wavs.Aggregator.Submit.{Clients, Task, run_tasks, submit_on_chain}
use wavs.Aggregator.Burned.{times_burned, taken, taken-burned}
use wavs.Aggregator.Retry.{
  IsFit, empty-IsQuorumQueue, empty-IsFit, run_tasks-IsFit, IsRetry, latest, Holds, retries_gather,
}
use wavs.Aggregator.Commands.{me}
use wavs.Aggregator.Hosted.{Handles, Ignores, handle_dispatcher_command_lem}
use wavs.Samples.{service_of}
use wavs.Aggregator.Cleanup.{expired_at, cleanup_lem}

abbrev plain_signing : SigningCrate
plain_signing = record {
  Signature = Bytes;
  from_raw = λ raw. ok raw;
  recover_address_from_prehash = λ signature hash. ok signature;
  keccak256 = λ raw. raw;
  eip191_hash_message = λ raw. 25 ∷ raw;
  abi_encode = λ envelope. envelope.payload;
}

abbrev envelope : Envelope
envelope = record { event_id = 1 ∷ []; ordering = []; payload = 7 ∷ [] }

abbrev signed_by : Bytes → Submission (Unit {0})
signed_by signer = record {
  trigger_action = record {
    config = record { service_id = 9 ∷ []; workflow_id = bytes "w"; trigger = manual };
    trigger_data = tt;
  };
  operator_response = record { payload = 7 ∷ []; ordering = none; event_id_salt = none };
  event_id = 1 ∷ [];
  envelope = envelope;
  envelope_signature = record {
    data_bytes = signer;
    kind = record { algorithm = secp256k1; prefix = some eip191 };
  };
}

abbrev ethereum : ChainKey
ethereum = record { namespace = bytes "evm"; id = bytes "1" }

abbrev action : SubmitAction
action = Submission.evm (record { chain = ethereum; address = 4 ∷ []; gas_price = none })

abbrev queue : QuorumQueueId
queue = record { event_id = 1 ∷ []; action = action }

abbrev service : Service
service = record { name = []; workflows = []; status = active; manager = evm ethereum (5 ∷ []) }

abbrev chain_answers : Result AggregatorError Bytes → Clients (Unit {0})
chain_answers answer = record {
  Client = Unit {0};
  get_evm_client = λ chain. ok (some tt);
  handle_action_submit_evm = λ client submissions a. answer;
  get_cosmos_client = λ chain. ok none;
  handle_action_submit_cosmos = λ client submissions a. answer;
  error_text = λ e. [];
}

abbrev no_quorum : AggregatorError
no_quorum = insufficient_quorum (bytes "1") (bytes "2") (bytes "3")

abbrev task : Bytes → Result AggregatorError Bytes → Task (Unit {0})
task signer answer = record {
  submission = signed_by signer;
  service = service;
  action = submit action;
  clients = chain_answers answer;
  now = 100;
}

abbrev run : List (Task (Unit {0}))
run = task (1 ∷ []) (err no_quorum) ∷ task (2 ∷ []) (ok (8 ∷ [])) ∷ task (3 ∷ []) (ok (8 ∷ [])) ∷ []

append_submission_cases_example :
    let before : List (Submission (Unit {0})) = [] in
    let s = signed_by (2 ∷ []) in
    ((differs_from_first before s.envelope ≡ true)
      × (append_submission_to_queue plain_signing queue before s ≡ err (envelope_diff queue)))
    ⊎ ((x : AggregatorError) × (differs_from_first before s.envelope ≡ false)
        × (signer_of plain_signing s ≡ err x)
        × (append_submission_to_queue plain_signing queue before s ≡ err x))
    ⊎ ((a : EvmAddress) × (after : List (Submission (Unit {0}))) × (signer_of plain_signing s
          ≡ ok a)
        × (append_submission_to_queue plain_signing queue before s ≡ ok after)
        × IsQuorumQueue plain_signing s.envelope after
        × ((b : EvmAddress)
            → held plain_signing b after
              ≡ (if a == b then s ∷ [] else held plain_signing b before)))
append_submission_cases_example =
    append_submission_cases plain_signing queue envelope [] (signed_by (2 ∷ []))
      (empty-IsQuorumQueue plain_signing envelope)

taken-burned_example :
    times_burned (get_quorum_queue {D = Unit {0}} [] queue) + taken plain_signing queue [] run
    ≡ times_burned (get_quorum_queue (run_tasks plain_signing [] run).0 queue)
taken-burned_example = taken-burned plain_signing queue run []

run_tasks-IsFit_example : IsFit plain_signing (run_tasks plain_signing [] run).0
run_tasks-IsFit_example = run_tasks-IsFit plain_signing run [] (empty-IsFit plain_signing)

retry : (signer : Bytes) → IsRetry plain_signing queue envelope (task signer (err no_quorum))
unfolding signer_of evm_signer_address submit_on_chain
retry signer = record {
  action = action;
  action_is = refl;
  same_id = refl;
  same_envelope = refl;
  signer = signer;
  signer_is = refl;
  error = λ submissions. no_quorum;
  refused = λ submissions. refl;
}

nothing_held : Holds plain_signing {D = Unit {0}} [] queue envelope (λ b. [])
unfolding get_quorum_queue get retain
nothing_held = record {
  queue = [];
  queue_is = refl;
  fit = empty-IsQuorumQueue plain_signing envelope;
  holds = λ b. refl;
}

abbrev retries : List (Task (Unit {0}))
retries = task (1 ∷ []) (err no_quorum) ∷ task (2 ∷ []) (err no_quorum) ∷ []

retries_gather_example :
    Holds plain_signing
      (run_tasks plain_signing [] retries).0
      queue
      envelope
      (λ b. latest plain_signing b [] retries)
retries_gather_example =
    retries_gather plain_signing retries [] queue envelope (λ b. []) nothing_held
      (retry (1 ∷ []), (retry (2 ∷ []), tt))

abbrev burned_early : QuorumQueues (Unit {0})
burned_early = (queue, burned 5) ∷ []

cleanup_lem_example :
    let (after, removed) = cleanup_old_burned_queues 10 100 burned_early in
    ((id : QuorumQueueId)
      → get after id
        ≡ (if expired_at (100 - 10) (get burned_early id) then none else get burned_early id))
    × (removed ≡ length (retain (λ p. is_expired (100 - 10) p.1) burned_early))
cleanup_lem_example = cleanup_lem 10 100 burned_early (unfold contains_key in refl, tt)

-- The service of the submissions, with its workflow.
abbrev hosted : Map ServiceId Service
hosted = (9 ∷ [], service_of manual) ∷ []

handle_dispatcher_command_lem_example :
    ((found : Service) × Handles hosted true (signed_by (1 ∷ [])) me (submit action ∷ []) found)
    ⊎ Ignores hosted true (signed_by (1 ∷ [])) me (submit action ∷ [])
handle_dispatcher_command_lem_example =
    handle_dispatcher_command_lem hosted true (signed_by (1 ∷ [])) me (submit action ∷ [])
