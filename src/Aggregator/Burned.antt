-- ===== src/Aggregator/Burned.antt =====
-- What a task changes (aggregator.rs, `handle_submit_action`), and how often a queue succeeds.
use wavs.Prelude.{
  ℕ, ◌+◌, ◌≡◌, refl, inl, inr, Bool, true, false, Option, none, some, List, [], ◌∷◌, if◌then◌else◌,
  ◌==◌, arith, subst, eq_iff, Bool-cases,
}
use wavs.Prelude.Map.{get-insert}
use wavs.Prelude.Result.{Result, ok, err}
use wavs.Types.Submission.{
  Submission, SigningCrate, QuorumQueueId, queue_id_eq, QuorumQueue, burned, active, SubmitAction,
  AggregatorAction, submit, timer,
}
use wavs.Aggregator.Queue.{
  AggregatorError, QuorumQueues, get_quorum_queue, save_quorum_queue, burn_quorum_queue,
  append_submission_to_queue,
}
use wavs.Aggregator.Submit.{
  AnyTxHash, AggregatorExecute, AggregatorExecuteKind, submit_callback, Task, run_task, run_tasks,
  submit_on_chain, after_submit, handle_submit_action, submit_appended, submit_to_queue, queue_id,
  run_action,
}

abbrev pub is_success : AggregatorExecuteKind → ℕ
is_success (submit_callback (ok hash)) = 1
is_success _ = 0

-- How many commands tell of a submission that its chain took.
abbrev pub successes : {D : Type 0} → List (AggregatorExecute D) → ℕ
successes [] = 0
successes (x ∷ xs) = is_success x.kind + successes xs

abbrev pub times_burned : {D : Type 0} → QuorumQueue D → ℕ
times_burned (burned timestamp) = 1
times_burned (active queue) = 0

abbrev pub is_for_action : {D : Type 0} → QuorumQueueId → Submission D → AggregatorAction → Bool
is_for_action id s (submit action) = queue_id s action == id
is_for_action id s (timer delay) = false

abbrev pub is_for : {D : Type 0} → QuorumQueueId → Task D → Bool
is_for id t = is_for_action id t.submission t.action

pub get-save :
    {D : Type 0} (queues : QuorumQueues D) (id j : QuorumQueueId) (q : List (Submission D))
    → get_quorum_queue (save_quorum_queue queues id q) j
      ≡ (if id == j then active q else get_quorum_queue queues j)
unfolding get_quorum_queue save_quorum_queue
get-save queues id j q = ground (arith, get-insert id j (active q) queues)

pub get-burn :
    {D : Type 0} (queues : QuorumQueues D) (id j : QuorumQueueId) (now : ℕ)
    → get_quorum_queue (burn_quorum_queue queues id now) j
      ≡ (if id == j then burned now else get_quorum_queue queues j)
unfolding get_quorum_queue burn_quorum_queue
get-burn queues id j now = ground (arith, get-insert id j (burned now) queues)

active_at :
    {D : Type 0} (queues : QuorumQueues D) (j id : QuorumQueueId) (q : List (Submission D))
    → get_quorum_queue queues j ≡ active q
    → (j == id) ≡ true
    → get_quorum_queue queues id ≡ active q
active_at queues j id q g e =
    subst (λ x. get_quorum_queue queues x ≡ active q) ((eq_iff j id).0 e) g

burned-save :
    {D : Type 0} (queues : QuorumQueues D) (j id : QuorumQueueId) (q q' : List (Submission D))
    → get_quorum_queue queues j ≡ active q
    → times_burned (get_quorum_queue queues id) + (if j == id then 0 else 0)
      ≡ times_burned (get_quorum_queue (save_quorum_queue queues j q') id)
burned-save queues j id q q' g = elim (Bool-cases (j == id)) [
  | inl same ↦ rw (get-save queues j id q', same, active_at queues j id q g same) refl
  | inr apart ↦ rw (get-save queues j id q', apart) (omega arith)
]

burned-burn :
    {D : Type 0} (queues : QuorumQueues D) (j id : QuorumQueueId) (q : List (Submission D))
    (now : ℕ)
    → get_quorum_queue queues j ≡ active q
    → times_burned (get_quorum_queue queues id) + (if j == id then 1 else 0)
      ≡ times_burned (get_quorum_queue (burn_quorum_queue queues j now) id)
burned-burn queues j id q now g = elim (Bool-cases (j == id)) [
  | inl same ↦ rw (get-burn queues j id now, same, active_at queues j id q g same) refl
  | inr apart ↦ rw (get-burn queues j id now, apart) (omega arith)
]

module _ (C : SigningCrate) {D : Type 0} where
  -- What one task may do: nothing, or save its queue with the submission, or burn it.
  pub data Change (queues : QuorumQueues D) (t : Task D)
      (r : QuorumQueues D × List (AggregatorExecute D)) : Type 0 where
    unchanged : r.0 ≡ queues → successes r.1 ≡ 0 → Change queues t r
    saved :
        (action : SubmitAction) (q q' : List (Submission D))
        → t.action ≡ submit action
        → get_quorum_queue queues (queue_id t.submission action) ≡ active q
        → append_submission_to_queue C (queue_id t.submission action) q t.submission ≡ ok q'
        → r.0 ≡ save_quorum_queue queues (queue_id t.submission action) q'
        → successes r.1 ≡ 0
        → Change queues t r
    burnt :
        (action : SubmitAction) (q : List (Submission D))
        → t.action ≡ submit action
        → get_quorum_queue queues (queue_id t.submission action) ≡ active q
        → r.0 ≡ burn_quorum_queue queues (queue_id t.submission action) t.now
        → successes r.1 ≡ 1
        → Change queues t r

  after_submit-Change :
      (queues : QuorumQueues D) (t : Task D) (action : SubmitAction) (q q' : List (Submission D))
      (o : Result AggregatorError (Option AnyTxHash))
      → t.action ≡ submit action
      → get_quorum_queue queues (queue_id t.submission action) ≡ active q
      → append_submission_to_queue C (queue_id t.submission action) q t.submission ≡ ok q'
      → Change queues t (
          after_submit t.clients queues t.submission t.service
            (queue_id t.submission action)
            q'
            t.now
            o)
  after_submit-Change queues t action q q' (ok none) e g a = unchanged refl refl
  after_submit-Change queues t action q q' (ok (some hash)) e g a = burnt action q e g refl refl
  after_submit-Change queues t action q q' (err x) e g a = saved action q q' e g a refl refl

  appended-Change :
      (queues : QuorumQueues D) (t : Task D) (action : SubmitAction) (q : List (Submission D))
      (r : Result AggregatorError (List (Submission D)))
      → t.action ≡ submit action
      → get_quorum_queue queues (queue_id t.submission action) ≡ active q
      → append_submission_to_queue C (queue_id t.submission action) q t.submission ≡ r
      → Change queues t (submit_appended C t.clients queues t.submission t.service action t.now r)
  unfolding handle_submit_action
  appended-Change queues t action q (err x) e g a = unchanged refl refl
  appended-Change queues t action q (ok q') e g a =
      after_submit-Change queues t action q q' (submit_on_chain t.clients q' action) e g a

  queue-Change :
      (queues : QuorumQueues D) (t : Task D) (action : SubmitAction) (o : QuorumQueue D)
      → t.action ≡ submit action
      → get_quorum_queue queues (queue_id t.submission action) ≡ o
      → Change queues t (submit_to_queue C t.clients queues t.submission t.service action t.now o)
  queue-Change queues t action (burned timestamp) e g = unchanged refl refl
  queue-Change queues t action (active q) e g = appended-Change queues t action q _ e g refl

  action-Change :
      (queues : QuorumQueues D) (t : Task D) (a : AggregatorAction)
      → t.action ≡ a
      → Change queues t (run_action C queues t a)
  action-Change queues t (submit action) e = queue-Change queues t action _ e refl
  action-Change queues t (timer delay) e = unchanged refl refl

  pub run_task-Change :
      (queues : QuorumQueues D) (t : Task D) → Change queues t (run_task C queues t)
  unfolding run_task
  run_task-Change queues t = action-Change queues t t.action refl

  -- Of the tasks of a run for the queue `id`, how many their chains took.
  abbrev pub taken : QuorumQueueId → QuorumQueues D → List (Task D) → ℕ
  taken id queues [] = 0
  taken id queues (t ∷ ts) =
      (if is_for id t then successes (run_task C queues t).1 else 0)
      + taken id (run_task C queues t).0 ts

  Change-burned :
      (id : QuorumQueueId) (queues : QuorumQueues D) (t : Task D)
      (r : QuorumQueues D × List (AggregatorExecute D))
      → Change queues t r
      → times_burned (get_quorum_queue queues id) + (if is_for id t then successes r.1 else 0)
        ≡ times_burned (get_quorum_queue r.0 id)
  Change-burned id queues t r (unchanged same none_taken) = rw (same, none_taken) (ground arith)
  Change-burned id queues t r (saved action q q' e g a s n) =
      rw (s, e, n) (burned-save queues (queue_id t.submission action) id q q' g)
  Change-burned id queues t r (burnt action q e g s n) =
      rw (s, e, n) (burned-burn queues (queue_id t.submission action) id q t.now g)

  -- In any run of tasks, the successes that the tasks of a queue report, and one more if the
  -- queue was burned before, are as many as one if it is burned after and none if not. So a
  -- queue succeeds once at most, and never once it is burned.
  pub taken-burned :
      (id : QuorumQueueId) (ts : List (Task D)) (queues : QuorumQueues D)
      → times_burned (get_quorum_queue queues id) + taken id queues ts
        ≡ times_burned (get_quorum_queue (run_tasks C queues ts).0 id)
  unfolding run_tasks
  taken-burned id [] queues = omega arith
  taken-burned id (t ∷ ts) queues = omega (
    arith,
    Change-burned id queues t (run_task C queues t) (run_task-Change queues t),
    taken-burned id ts (run_task C queues t).0,
  )
