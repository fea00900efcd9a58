-- ===== src/Aggregator/Cleanup.antt =====
-- What `cleanup_old_burned_queues` of aggregator/queue.rs removes.
use wavs.Prelude.{
  ℕ, ◌-◌, ◌≡◌, refl, inl, inr, Bool, false, Option, none, some, List, [], ◌∷◌, if◌then◌else◌, ◌==◌,
  arith, any, retain, length, ◌∙◌, subst, eq_iff, Bool-cases,
}
use wavs.Prelude.Map.{get, remove, contains_key, get-remove, contains_key-get}
use wavs.Types.Submission.{QuorumQueueId, queue_id_eq, QuorumQueue}
use wavs.Aggregator.Queue.{
  QuorumQueues, is_expired, expired_keys, remove_keys, cleanup_old_burned_queues,
}

-- A map holds every key once.
abbrev pub Distinct : {D : Type 0} → QuorumQueues D → Type 0
Distinct [] = Unit
Distinct ((id, queue) ∷ queues) = (contains_key queues id ≡ false) × Distinct queues

abbrev pub expired_at : {D : Type 0} → ℕ → Option (QuorumQueue D) → Bool
expired_at cutoff none = false
expired_at cutoff (some queue) = is_expired cutoff queue

get-remove_keys :
    {D : Type 0} (ids : List QuorumQueueId) (queues : QuorumQueues D) (id : QuorumQueueId)
    → get (remove_keys ids queues) id ≡ (if any (λ j. j == id) ids then none else get queues id)
unfolding remove_keys any
get-remove_keys [] queues id = refl
get-remove_keys (j ∷ ids) queues id =
    ground (arith, get-remove_keys ids (remove j queues) id, get-remove j id queues)

not_there :
    {D : Type 0} (queues : QuorumQueues D) (id : QuorumQueueId)
    → contains_key queues id ≡ false
    → get queues id ≡ none
not_there queues id e = ground (arith, contains_key-get queues id)

expired_keys_lem :
    {D : Type 0} (cutoff : ℕ) (queues : QuorumQueues D) (id : QuorumQueueId)
    → Distinct queues
    → any (λ j. j == id) (expired_keys cutoff queues) ≡ expired_at cutoff (get queues id)
unfolding expired_keys any get
expired_keys_lem cutoff [] id d = refl
expired_keys_lem cutoff ((j, queue) ∷ queues) id d = elim (Bool-cases (j == id)) [
  | inl same ↦
      let none_left : get queues id ≡ none =
        subst (λ x. get queues x ≡ none) ((eq_iff j id).0 same) (not_there queues j d.0) in
      let rest : any (λ j. j == id) (expired_keys cutoff queues) ≡ false =
        expired_keys_lem cutoff queues id d.1 ∙ rw none_left in
      ground arith
  | inr apart ↦ ground (arith, expired_keys_lem cutoff queues id d.1)
]

length-expired_keys :
    {D : Type 0} (cutoff : ℕ) (queues : QuorumQueues D)
    → length (expired_keys cutoff queues) ≡ length (retain (λ p. is_expired cutoff p.1) queues)
unfolding expired_keys retain
length-expired_keys cutoff [] = refl
length-expired_keys cutoff ((j, queue) ∷ queues) = ground (arith, length-expired_keys cutoff queues)

-- If every queue is there once, the cleanup removes exactly those that were burned before now
-- less the time to live, keeps every other as it was, and says how many it found.
pub cleanup_lem :
    {D : Type 0} (ttl_secs now : ℕ) (queues : QuorumQueues D)
    → Distinct queues
    → let (queues', removed) = cleanup_old_burned_queues ttl_secs now queues in
      ((id : QuorumQueueId)
        → get queues' id
          ≡ (if expired_at (now - ttl_secs) (get queues id) then none else get queues id))
      × (removed ≡ length (retain (λ p. is_expired (now - ttl_secs) p.1) queues))
unfolding cleanup_old_burned_queues
cleanup_lem ttl_secs now queues d = (
  λ id.
      rw
        (
          get-remove_keys (expired_keys (now - ttl_secs) queues) queues id,
          expired_keys_lem (now - ttl_secs) queues id d,
        )
        refl,
  length-expired_keys (now - ttl_secs) queues,
)
