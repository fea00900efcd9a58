-- ===== src/Aggregator/Retry.antt =====
-- Runs of tasks over the quorum queues (aggregator.rs), and what retries gather.
use wavs.Prelude.{
  ℕ, ◌≡◌, refl, sym, ap, ◌∙◌, inl, inr, false, not, List, [], ◌∷◌, if◌then◌else◌, ◌==◌, arith,
  subst, eq_refl, bytes_eq, Bool-cases, All, retain,
}
use wavs.Prelude.Map.{get}
use wavs.Prelude.Result.{ok, err}
use wavs.Types.Submission.{
  EvmAddress, Envelope, envelope_eq, Submission, SigningCrate, QuorumQueueId, queue_id_eq, active,
  SubmitAction, submit,
}
use wavs.Aggregator.Queue.{
  AggregatorError, QuorumQueues, get_quorum_queue, save_quorum_queue, burn_quorum_queue,
  differs_from_first, append_submission_to_queue, signer_of,
}
use wavs.Aggregator.Signers.{is_address, is_by, held, AllOf, IsQuorumQueue, append_submission_cases}
use wavs.Aggregator.Submit.{
  Task, run_task, run_tasks, submit_on_chain, handle_submit_action, queue_id,
}
use wavs.Aggregator.Burned.{Change, unchanged, saved, burnt, run_task-Change, get-save, get-burn}

module _ (C : SigningCrate) {D : Type 0} where
  -- What a successful append gives.
  pub record Appended (s : Submission D) (queue queue' : List (Submission D)) : Type 0 where
    pub signer : EvmAddress
    pub signer_is : signer_of C s ≡ ok signer
    pub fit : IsQuorumQueue C s.envelope queue'
    pub holds :
        (b : EvmAddress) → held C b queue' ≡ (if signer == b then s ∷ [] else held C b queue)

  append-Appended :
      (id : QuorumQueueId) (e : Envelope) (queue queue' : List (Submission D)) (s : Submission D)
      → IsQuorumQueue C e queue
      → append_submission_to_queue C id queue s ≡ ok queue'
      → Appended s queue queue'
  append-Appended id e queue queue' s w p = elim (append_submission_cases C id e queue s w) [
    | inl (d, q) ↦ absurd (ground arith)
    | inr (inl (x, d, f, q)) ↦ absurd (ground arith)
    | inr (inr (a, queue'', f, q, w', h)) ↦
        let same : queue'' ≡ queue' = ground arith in
        subst (Appended s queue) same (record { signer = a; signer_is = f; fit = w'; holds = h })
  ]

  -- Every active queue holds one envelope, signed by signers that differ.
  abbrev pub IsFit : QuorumQueues D → Type 0
  IsFit queues =
      (id : QuorumQueueId) (queue : List (Submission D))
      → get_quorum_queue queues id ≡ active queue
      → (e : Envelope) × IsQuorumQueue C e queue

  pub empty-IsQuorumQueue : (e : Envelope) → IsQuorumQueue C {D = D} e []
  unfolding retain
  empty-IsQuorumQueue e = record { recovered = tt; same = tt; once = λ b. omega arith }

  -- The queues that a run starts with: none.
  pub empty-IsFit : IsFit []
  unfolding get_quorum_queue get
  empty-IsFit id queue g =
      let no_envelope : Envelope = record { event_id = []; ordering = []; payload = [] } in
      let empty : [] ≡ queue = ground arith in
      (no_envelope, subst (IsQuorumQueue C no_envelope) empty (empty-IsQuorumQueue no_envelope))

  save-IsFit :
      (queues : QuorumQueues D) (j : QuorumQueueId) (queue : List (Submission D))
      → IsFit queues
      → (e : Envelope) × IsQuorumQueue C e queue
      → IsFit (save_quorum_queue queues j queue)
  save-IsFit queues j queue w f id queue' g = elim (Bool-cases (j == id)) [
    | inl same ↦
        let is_new : queue ≡ queue' = ground (arith, get-save queues j id queue) in
        subst (λ q. (e : Envelope) × IsQuorumQueue C e q) is_new f
    | inr apart ↦ w id queue' (ground (arith, get-save queues j id queue))
  ]

  burn-IsFit :
      (queues : QuorumQueues D) (j : QuorumQueueId) (now : ℕ)
      → IsFit queues
      → IsFit (burn_quorum_queue queues j now)
  burn-IsFit queues j now w id queue' g = elim (Bool-cases (j == id)) [
    | inl same ↦ absurd (ground (arith, get-burn queues j id now))
    | inr apart ↦ w id queue' (ground (arith, get-burn queues j id now))
  ]

  Change-IsFit :
      (queues : QuorumQueues D) (t : Task D) (r : QuorumQueues D × _)
      → IsFit queues
      → Change C queues t r
      → IsFit r.0
  Change-IsFit queues t r w (unchanged same n) = subst IsFit (sym same) w
  Change-IsFit queues t r w (saved action q q' e g a s n) = subst IsFit (sym s) (
      save-IsFit queues (queue_id t.submission action) q' w
        (t.submission.envelope, (append-Appended _ _ q q' t.submission (w _ q g).1 a).fit))
  Change-IsFit queues t r w (burnt action q e g s n) =
      subst IsFit (sym s) (burn-IsFit queues (queue_id t.submission action) t.now w)

  run_task-IsFit :
      (queues : QuorumQueues D) (t : Task D) → IsFit queues → IsFit (run_task C queues t).0
  run_task-IsFit queues t w = Change-IsFit queues t _ w (run_task-Change C queues t)

  -- If every active queue holds one envelope, signed by recovered signers that differ, then so
  -- does every active queue after any run of tasks.
  pub run_tasks-IsFit :
      (ts : List (Task D)) (queues : QuorumQueues D)
      → IsFit queues
      → IsFit (run_tasks C queues ts).0
  unfolding run_tasks
  run_tasks-IsFit [] queues w = w
  run_tasks-IsFit (t ∷ ts) queues w =
      run_tasks-IsFit ts (run_task C queues t).0 (run_task-IsFit queues t w)

  -- A task for the queue `id` whose chain refuses every submission.
  pub record IsRetry (id : QuorumQueueId) (e : Envelope) (t : Task D) : Type 0 where
    pub action : SubmitAction
    pub action_is : t.action ≡ submit action
    pub same_id : queue_id t.submission action ≡ id
    pub same_envelope : t.submission.envelope ≡ e
    pub signer : EvmAddress
    pub signer_is : signer_of C t.submission ≡ ok signer
    pub error : List (Submission D) → AggregatorError
    pub refused :
        (queue : List (Submission D)) → submit_on_chain t.clients queue action ≡ err (error queue)

  -- The last submission of the signer `b`, after those held before.
  abbrev pub latest : EvmAddress → List (Submission D) → List (Task D) → List (Submission D)
  latest b before [] = before
  latest b before (t ∷ ts) =
      latest b (if is_by C b t.submission then t.submission ∷ [] else before) ts

  -- The queue `id` is active and holds of each signer what `h` says.
  pub record Holds (queues : QuorumQueues D) (id : QuorumQueueId) (e : Envelope)
      (h : EvmAddress → List (Submission D)) : Type 0 where
    pub queue : List (Submission D)
    pub queue_is : get_quorum_queue queues id ≡ active queue
    pub fit : IsQuorumQueue C e queue
    pub holds : (b : EvmAddress) → held C b queue ≡ h b

  same-envelope :
      (e : Envelope) (queue : List (Submission D)) (s : Submission D)
      → AllOf C e queue
      → s.envelope ≡ e
      → differs_from_first queue s.envelope ≡ false
  same-envelope e [] s h f = refl
  same-envelope e (first ∷ queue) s h f = rw (f, h.0) (ap not (eq_refl e))

  appended-ok :
      (id : QuorumQueueId) (e : Envelope) (queue : List (Submission D)) (s : Submission D)
      (a : EvmAddress)
      → IsQuorumQueue C e queue
      → s.envelope ≡ e
      → signer_of C s ≡ ok a
      → (queue' : List (Submission D)) × (append_submission_to_queue C id queue s ≡ ok queue')
  appended-ok id e queue s a w f g = elim (append_submission_cases C id e queue s w) [
    | inl (d, q) ↦ absurd (ground (arith, same-envelope e queue s w.same f))
    | inr (inl (x, d, g', q)) ↦ absurd (ground arith)
    | inr (inr (b, queue', g', q, w', h)) ↦ (queue', q)
  ]

  retry_saves :
      (queues : QuorumQueues D) (t : Task D) (action : SubmitAction) (q q' : List (Submission D))
      (x : AggregatorError)
      → t.action ≡ submit action
      → get_quorum_queue queues (queue_id t.submission action) ≡ active q
      → append_submission_to_queue C (queue_id t.submission action) q t.submission ≡ ok q'
      → submit_on_chain t.clients q' action ≡ err x
      → (run_task C queues t).0 ≡ save_quorum_queue queues (queue_id t.submission action) q'
  unfolding run_task handle_submit_action
  retry_saves queues t action q q' x e g a f = rw (e, g, a, f) refl

  is_by-signer :
      (a b : EvmAddress) (s : Submission D) → signer_of C s ≡ ok a → (a == b) ≡ is_by C b s
  is_by-signer a b s e = sym (ap (is_address b) e)

  get-saved :
      (queues : QuorumQueues D) (j id : QuorumQueueId) (queue : List (Submission D))
      → j ≡ id
      → get_quorum_queue (save_quorum_queue queues j queue) id ≡ active queue
  get-saved queues j id queue e =
      get-save queues j id queue
      ∙ subst (λ x. (if j == x then active queue else get_quorum_queue queues x) ≡ active queue) e
          (ap (λ b. if b then active queue else get_quorum_queue queues j) (eq_refl j))

  retry_step :
      (queues : QuorumQueues D) (id : QuorumQueueId) (e : Envelope)
      (h : EvmAddress → List (Submission D)) (t : Task D)
      → Holds queues id e h
      → IsRetry id e t
      → Holds
          (run_task C queues t).0
          id
          e
          (λ b. if is_by C b t.submission then t.submission ∷ [] else h b)
  retry_step queues id e h t w r =
      let at_id : get_quorum_queue queues (queue_id t.submission r.action) ≡ active w.queue =
        subst (λ x. get_quorum_queue queues x ≡ active w.queue) (sym r.same_id) w.queue_is in
      let (q', a) =
        appended-ok (queue_id t.submission r.action) e w.queue t.submission r.signer w.fit
          r.same_envelope r.signer_is in
      let new =
        append-Appended (queue_id t.submission r.action) e w.queue q' t.submission w.fit a in
      let after : (run_task C queues t).0
          ≡ save_quorum_queue queues (queue_id t.submission r.action) q' =
        retry_saves queues t r.action w.queue q' (r.error q') r.action_is at_id a (r.refused q') in
      record {
        queue = q';
        queue_is =
            ap (λ qs. get_quorum_queue qs id) after
            ∙ get-saved queues (queue_id t.submission r.action) id q' r.same_id;
        fit = subst (λ x. IsQuorumQueue C x q') r.same_envelope new.fit;
        holds = λ b.
            rw (new.holds b, is_by-signer new.signer b t.submission new.signer_is, w.holds b) refl;
      }

  -- An active and fit queue, and tasks for it with its envelope, by signers that are recovered,
  -- whose chain refuses every submission: after them the queue is active and fit, and holds of
  -- every signer the last submission, or what it held before if there was none.
  pub retries_gather :
      (ts : List (Task D)) (queues : QuorumQueues D) (id : QuorumQueueId) (e : Envelope)
      (h : EvmAddress → List (Submission D))
      → Holds queues id e h
      → All (IsRetry id e) ts
      → Holds (run_tasks C queues ts).0 id e (λ b. latest b (h b) ts)
  unfolding run_tasks
  retries_gather [] queues id e h w r = w
  retries_gather (t ∷ ts) queues id e h w r =
      retries_gather ts (run_task C queues t).0 id e _ (retry_step queues id e h t w r.0) r.1
