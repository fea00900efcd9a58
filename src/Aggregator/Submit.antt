-- ===== src/Aggregator/Submit.antt =====
-- aggregator.rs: the commands of the aggregator. What a client does on its chain is a parameter, and
-- so are the times of the clock. The tasks that a command spawns run in any order, those of one queue
-- one after another (`queue_transaction`), so a run is a list of tasks. Sending on a channel does not
-- fail while its receiver lives; the metrics and the logs are left out.
use wavs.Prelude.{ℕ, Option, none, some, List, [], ◌∷◌, ◌++◌, Bytes, bytes_eq}
use wavs.Prelude.Map.{Map, get}
use wavs.Prelude.Result.{Result, ok, err, ◌>>=◌}
use wavs.Types.Chain.{ChainKey}
use wavs.Types.Service.{ServiceId, Service, Workflow, Submit, no_submit, aggregator}
use wavs.Types.Submission.{
  Submission, SigningCrate, QuorumQueueId, QuorumQueue, burned, active, SubmitAction,
  EvmSubmitAction, CosmosSubmitAction, AggregatorAction, submit, timer, service_id, workflow_id,
}
use wavs.Types.Submission
use wavs.Aggregator.Queue.{
  AggregatorError, QuorumQueues, get_quorum_queue, save_quorum_queue, burn_quorum_queue,
  append_submission_to_queue,
}

-- The hash of a transaction that was included (`AnyTransactionReceipt`, `AnyTxHash`).
pub data AnyTxHash : Type 0 where
  evm cosmos : Bytes → AnyTxHash

pub data AggregatorExecuteKind : Type 0 where
  standard timer_callback : AggregatorExecuteKind
  submit_callback : Result Bytes AnyTxHash → AggregatorExecuteKind

-- `DispatcherCommand::AggregatorExecute`.
pub record AggregatorExecute (D : Type 0) : Type 0 where
  pub submission : Submission D
  pub service : Service
  pub kind : AggregatorExecuteKind

-- `get_evm_client`, `handle_action_submit_evm` and the same for Cosmos, as they answer one task, and
-- the text of an error.
pub record Clients (D : Type 0) : Type 1 where
  pub Client : Type 0
  pub get_evm_client : ChainKey → Result AggregatorError (Option Client)
  pub handle_action_submit_evm :
      Client → List (Submission D) → EvmSubmitAction → Result AggregatorError Bytes
  pub get_cosmos_client : ChainKey → Result AggregatorError (Option Client)
  pub handle_action_submit_cosmos :
      Client → List (Submission D) → CosmosSubmitAction → Result AggregatorError Bytes
  pub error_text : AggregatorError → Bytes

abbrev pub if_aggregator : Service → Submit → Option Service
if_aggregator service no_submit = none
if_aggregator service (aggregator component kind) = some service

abbrev pub if_workflow : Service → Option Workflow → Option Service
if_workflow service none = none
if_workflow service (some w) = if_aggregator service w.submit

module _ {D : Type 0} where
  abbrev pub if_service : Submission D → Option Service → Option Service
  if_service submission none = none
  if_service submission (some service) =
      if_workflow service (get service.workflows (workflow_id submission))

  -- The peer only decides how an error is logged.
  unfoldable pub extract_service_from_submission :
      Map ServiceId Service → Submission D → Option Service
  extract_service_from_submission services submission =
      if_service submission (get services (service_id submission))

  -- A chain without a client is no error.
  abbrev pub submit_evm :
      (K : Clients D)
      → List (Submission D)
      → EvmSubmitAction
      → Option K.Client
      → Result AggregatorError (Option AnyTxHash)
  submit_evm K queue action none = ok none
  submit_evm K queue action (some client) = do
    hash ← K.handle_action_submit_evm client queue action
    ok (some (evm hash))

  abbrev pub submit_cosmos :
      (K : Clients D)
      → List (Submission D)
      → CosmosSubmitAction
      → Option K.Client
      → Result AggregatorError (Option AnyTxHash)
  submit_cosmos K queue action none = ok none
  submit_cosmos K queue action (some client) = do
    hash ← K.handle_action_submit_cosmos client queue action
    ok (some (cosmos hash))

  -- The body of `chain_transaction.run`.
  unfoldable pub submit_on_chain :
      Clients D → List (Submission D) → SubmitAction → Result AggregatorError (Option AnyTxHash)
  submit_on_chain K queue (Submission.evm action) = do
    client ← K.get_evm_client action.chain
    submit_evm K queue action client
  submit_on_chain K queue (Submission.cosmos action) = do
    client ← K.get_cosmos_client action.chain
    submit_cosmos K queue action client

  abbrev pub callback : Submission D → Service → Result Bytes AnyTxHash → List (AggregatorExecute D)
  callback submission service result =
      record { submission = submission; service = service; kind = submit_callback result } ∷ []

  -- What `handle_submit_action` does with the result of the chain.
  abbrev pub after_submit :
      Clients D
      → QuorumQueues D
      → Submission D
      → Service
      → QuorumQueueId
      → List (Submission D)
      → ℕ
      → Result AggregatorError (Option AnyTxHash)
      → QuorumQueues D × List (AggregatorExecute D)
  after_submit K queues submission service id queue now (ok none) = (queues, [])
  after_submit K queues submission service id queue now (ok (some hash)) =
      (burn_quorum_queue queues id now, callback submission service (ok hash))
  after_submit K queues submission service id queue now (err e) =
      (save_quorum_queue queues id queue, callback submission service (err (K.error_text e)))

  unfoldable pub handle_submit_action :
      Clients D
      → QuorumQueues D
      → Submission D
      → Service
      → QuorumQueueId
      → List (Submission D)
      → SubmitAction
      → ℕ
      → QuorumQueues D × List (AggregatorExecute D)
  unfolding submit_on_chain burn_quorum_queue save_quorum_queue
  handle_submit_action K queues submission service id queue action now =
      after_submit K queues submission service id queue now (submit_on_chain K queue action)

  abbrev pub queue_id : Submission D → SubmitAction → QuorumQueueId
  queue_id submission action = record { event_id = submission.event_id; action = action }

-- A spawned task: one action of an `Actions` command, and the clients and the time it meets.
pub record Task (D : Type 0) : Type 1 where
  pub submission : Submission D
  pub service : Service
  pub action : AggregatorAction
  pub clients : Clients D
  pub now : ℕ

module _ (C : SigningCrate) {D : Type 0} where
  abbrev pub submit_appended :
      Clients D
      → QuorumQueues D
      → Submission D
      → Service
      → SubmitAction
      → ℕ
      → Result AggregatorError (List (Submission D))
      → QuorumQueues D × List (AggregatorExecute D)
  submit_appended K queues submission service action now (err e) = (queues, [])
  submit_appended K queues submission service action now (ok queue) =
      handle_submit_action K queues submission service (queue_id submission action) queue action now

  abbrev pub submit_to_queue :
      Clients D
      → QuorumQueues D
      → Submission D
      → Service
      → SubmitAction
      → ℕ
      → QuorumQueue D
      → QuorumQueues D × List (AggregatorExecute D)
  submit_to_queue K queues submission service action now (burned timestamp) = (queues, [])
  submit_to_queue K queues submission service action now (active queue) =
      submit_appended K queues submission service action now
        (append_submission_to_queue C (queue_id submission action) queue submission)

  abbrev pub run_action :
      QuorumQueues D → Task D → AggregatorAction → QuorumQueues D × List (AggregatorExecute D)
  run_action queues t (submit action) =
      submit_to_queue t.clients queues t.submission t.service action t.now
        (get_quorum_queue queues (queue_id t.submission action))
  run_action queues t (timer delay) = (
    queues,
    record { submission = t.submission; service = t.service; kind = timer_callback } ∷ [],
  )

  unfoldable pub run_task : QuorumQueues D → Task D → QuorumQueues D × List (AggregatorExecute D)
  unfolding get_quorum_queue append_submission_to_queue handle_submit_action
  run_task queues t = run_action queues t t.action

  unfoldable pub run_tasks :
      QuorumQueues D → List (Task D) → QuorumQueues D × List (AggregatorExecute D)
  unfolding run_task
  run_tasks queues [] = (queues, [])
  run_tasks queues (t ∷ ts) =
      let (queues', sent) = run_task queues t in
      let (queues'', sent') = run_tasks queues' ts in (queues'', sent ++ sent')
