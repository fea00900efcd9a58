-- ===== src/Aggregator/Queue.antt =====
-- aggregator/queue.rs: the quorum queues of the database. A table of packages/utils/src/storage/db.rs
-- is a map whose operations do not fail; the times are the seconds of the clock, read by the caller.
use wavs.Prelude.{
  ℕ, ◌-◌, Bool, true, false, not, Option, none, some, List, [], ◌∷◌, if◌then◌else◌, ltb, length,
  ◌==◌, Bytes, bytes_eq,
}
use wavs.Prelude.Map.{Map, get, insert, remove}
use wavs.Prelude.Result.{Result, ok, err, ◌>>=◌, map_err}
use wavs.Types.Submission.{
  EvmAddress, Envelope, envelope_eq, Submission, SigningCrate, SigningError, evm_signer_address,
  QuorumQueueId, queue_id_eq, QuorumQueue, burned, active,
}

-- aggregator/error.rs; the variants of the clients and the channels are their texts.
pub data AggregatorError : Type 0 where
  envelope_diff : QuorumQueueId → AggregatorError
  signing : SigningError → AggregatorError
  insufficient_quorum : Bytes → Bytes → Bytes → AggregatorError
  other : Bytes → AggregatorError

abbrev pub QuorumQueues : Type 0 → Type 0
QuorumQueues D = Map QuorumQueueId (QuorumQueue D)

abbrev pub queue_or_default : {D : Type 0} → Option (QuorumQueue D) → QuorumQueue D
queue_or_default none = active []
queue_or_default (some queue) = queue

unfoldable pub get_quorum_queue : {D : Type 0} → QuorumQueues D → QuorumQueueId → QuorumQueue D
get_quorum_queue queues id = queue_or_default (get queues id)

unfoldable pub save_quorum_queue :
    {D : Type 0} → QuorumQueues D → QuorumQueueId → List (Submission D) → QuorumQueues D
save_quorum_queue queues id submissions = insert id (active submissions) queues

unfoldable pub burn_quorum_queue :
    {D : Type 0} → QuorumQueues D → QuorumQueueId → ℕ → QuorumQueues D
burn_quorum_queue queues id burned_at = insert id (burned burned_at) queues

-- Burned before the cutoff.
abbrev pub is_expired : {D : Type 0} → ℕ → QuorumQueue D → Bool
is_expired cutoff (burned timestamp) = ltb timestamp cutoff
is_expired cutoff (active submissions) = false

unfoldable pub expired_keys : {D : Type 0} → ℕ → QuorumQueues D → List QuorumQueueId
expired_keys cutoff [] = []
expired_keys cutoff ((id, queue) ∷ queues) =
    if is_expired cutoff queue then id ∷ expired_keys cutoff queues else expired_keys cutoff queues

unfoldable pub remove_keys : {D : Type 0} → List QuorumQueueId → QuorumQueues D → QuorumQueues D
remove_keys [] queues = queues
remove_keys (id ∷ ids) queues = remove_keys ids (remove id queues)

-- The queues that remain, and how many were removed; `saturating_sub` is the subtraction of ℕ.
unfoldable pub cleanup_old_burned_queues :
    {D : Type 0} → ℕ → ℕ → QuorumQueues D → QuorumQueues D × ℕ
unfolding expired_keys remove_keys
cleanup_old_burned_queues ttl_secs now queues =
    let keys_to_remove = expired_keys (now - ttl_secs) queues in
    (remove_keys keys_to_remove queues, length keys_to_remove)

-- The queued submission is the first of `queued ∷ queue`; `rest` is the loop over `queue`.
abbrev pub replaced_or_kept :
    {D : Type 0}
    → Bool
    → Submission D
    → Submission D
    → List (Submission D)
    → Result AggregatorError (List (Submission D))
    → Result AggregatorError (List (Submission D))
replaced_or_kept true submission queued queue rest = ok (submission ∷ queue)
replaced_or_kept false submission queued queue rest = do queue' ← rest; ok (queued ∷ queue')

-- `queue.first()` against the new envelope.
abbrev pub differs_from_first : {D : Type 0} → List (Submission D) → Envelope → Bool
differs_from_first [] envelope = false
differs_from_first (prev ∷ queue) envelope = not (envelope == prev.envelope)

module _ (C : SigningCrate) {D : Type 0} where
  unfoldable pub signer_of : Submission D → Result AggregatorError EvmAddress
  signer_of s = map_err signing (evm_signer_address C s.envelope_signature s.envelope)

  -- The loop over the queue: the first submission of the same signer is replaced, and one whose
  -- signer cannot be recovered ends it with its error.
  unfoldable pub replace_or_push :
      EvmAddress → Submission D → List (Submission D) → Result AggregatorError (List (Submission D))
  unfolding signer_of
  replace_or_push signer submission [] = ok (submission ∷ [])
  replace_or_push signer submission (queued ∷ queue) = do
    queued_signer ← signer_of queued
    replaced_or_kept (signer == queued_signer) submission queued queue
        (replace_or_push signer submission queue)

  unfoldable pub append_submission_to_queue :
      QuorumQueueId
      → List (Submission D)
      → Submission D
      → Result AggregatorError (List (Submission D))
  unfolding signer_of replace_or_push
  append_submission_to_queue queue_id queue submission =
      if differs_from_first queue submission.envelope
      then err (envelope_diff queue_id)
      else (do signer ← signer_of submission; replace_or_push signer submission queue)
