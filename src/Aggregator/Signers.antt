-- ===== src/Aggregator/Signers.antt =====
-- A quorum queue (aggregator/queue.rs) seen by its signers: what it holds of each.
use wavs.Prelude.{
  ◌≤◌, ◌≡◌, refl, sym, ap, ◌∙◌, ◌⊎◌, inl, inr, Bool, true, false, not, List, [], ◌∷◌, if◌then◌else◌,
  retain, length, ◌==◌, subst, eq_sym, bytes_eq, arith, All, Bool-cases, eq_iff,
}
use wavs.Prelude.Result.{Result, ok, err, ◌>>=◌}
use wavs.Types.Submission.{
  EvmAddress, Envelope, Submission, SigningCrate, QuorumQueueId, envelope_eq,
}
use wavs.Aggregator.Queue.{
  AggregatorError, envelope_diff, signer_of, replace_or_push, differs_from_first,
  append_submission_to_queue,
}

not-false : (b : Bool) → not b ≡ false → b ≡ true
not-false b h = ground arith

abbrev pub is_address : EvmAddress → Result AggregatorError EvmAddress → Bool
is_address b (ok a) = a == b
is_address b (err e) = false

module _ (C : SigningCrate) {D : Type 0} where
  abbrev pub is_by : EvmAddress → Submission D → Bool
  is_by b s = is_address b (signer_of C s)

  -- What the queue holds of the signer `b`.
  abbrev pub held : EvmAddress → List (Submission D) → List (Submission D)
  held b queue = retain (is_by b) queue

  abbrev pub Recovered : Submission D → Type 0
  Recovered s = (a : EvmAddress) × (signer_of C s ≡ ok a)

  abbrev pub AllOf : Envelope → List (Submission D) → Type 0
  AllOf e queue = All (λ s. s.envelope ≡ e) queue

  -- A queue that is fit for submission: one envelope, signed by signers that differ.
  pub record IsQuorumQueue (e : Envelope) (queue : List (Submission D)) : Type 0 where
    pub recovered : All Recovered queue
    pub same : AllOf e queue
    pub once : (b : EvmAddress) → length (held b queue) ≤ 1

  -- The queue after `s` of the signer `a` is filed.
  pub record Filed (a : EvmAddress) (s : Submission D) (queue queue' : List (Submission D))
      : Type 0 where
    pub holds : (b : EvmAddress) → held b queue' ≡ (if a == b then s ∷ [] else held b queue)
    recovered' : All Recovered queue'
    same' : AllOf s.envelope queue → AllOf s.envelope queue'

  held-cons :
      (b c : EvmAddress) (q : Submission D) (queue : List (Submission D))
      → signer_of C q ≡ ok c
      → held b (q ∷ queue) ≡ (if c == b then q ∷ held b queue else held b queue)
  unfolding retain
  held-cons b c q queue e = ap (λ r. if is_address b r then q ∷ held b queue else held b queue) e

  none_left :
      (c : EvmAddress) (q : Submission D) (queue : List (Submission D))
      → signer_of C q ≡ ok c
      → length (held c (q ∷ queue)) ≤ 1
      → held c queue ≡ []
  none_left c q queue e h = ground (arith, held-cons c c q queue e)

  held-replaced :
      (a c b : EvmAddress) (s q : Submission D) (queue : List (Submission D))
      → signer_of C s ≡ ok a
      → signer_of C q ≡ ok c
      → a ≡ c
      → ((d : EvmAddress) → length (held d (q ∷ queue)) ≤ 1)
      → held b (s ∷ queue) ≡ (if a == b then s ∷ [] else held b (q ∷ queue))
  held-replaced a c b s q queue e f same u = elim (Bool-cases (a == b)) [
    | inl mine ↦
        rw (held-cons b a s queue e, mine)
          (ap (λ l. s ∷ l)
            (subst (λ x. held x queue ≡ []) (sym same ∙ (eq_iff a b).0 mine)
              (none_left c q queue f (u c))))
    | inr others ↦ rw (held-cons b a s queue e, held-cons b c q queue f, sym same, others) refl
  ]

  held-kept :
      (a c b : EvmAddress) (s q : Submission D) (queue queue' : List (Submission D))
      → signer_of C q ≡ ok c
      → (a == c) ≡ false
      → held b queue' ≡ (if a == b then s ∷ [] else held b queue)
      → held b (q ∷ queue') ≡ (if a == b then s ∷ [] else held b (q ∷ queue))
  held-kept a c b s q queue queue' f new h = elim (Bool-cases (a == b)) [
    | inl mine ↦
        let apart : (c == b) ≡ false =
          subst (λ x. (c == x) ≡ false) ((eq_iff a b).0 mine) (eq_sym c a ∙ new) in
        rw (held-cons b c q queue' f, apart, mine) (h ∙ rw mine)
    | inr others ↦ rw (held-cons b c q queue' f, held-cons b c q queue f, h, others) refl
  ]

  replace_or_push_lem :
      (a : EvmAddress) (s : Submission D) (queue : List (Submission D))
      → signer_of C s ≡ ok a
      → All Recovered queue
      → ((b : EvmAddress) → length (held b queue) ≤ 1)
      → (queue' : List (Submission D)) × (replace_or_push C a s queue ≡ ok queue')
        × Filed a s queue queue'
  unfolding replace_or_push retain
  replace_or_push_lem a s [] e r u = (
    s ∷ [],
    refl,
    record {
      holds = λ b. held-cons b a s [] e;
      recovered' = ((a, e), tt);
      same' = λ h. (refl, tt);
    },
  )
  replace_or_push_lem a s (q ∷ queue) e ((c, f), r) u = elim (Bool-cases (a == c)) [
    | inl same ↦ (
      s ∷ queue,
      rw (f, same) refl,
      record {
        holds = λ b. held-replaced a c b s q queue e f ((eq_iff a c).0 same) u;
        recovered' = ((a, e), r);
        same' = λ h. (refl, h.1);
      },
    )
    | inr new ↦
        let (queue', placed, filed) =
          replace_or_push_lem a s queue e r (λ b. ground (arith, u b, held-cons b c q queue f)) in
        (
          q ∷ queue',
          rw (f, new, placed) refl,
          record {
            holds = λ b. held-kept a c b s q queue queue' f new (filed.holds b);
            recovered' = ((c, f), filed.recovered');
            same' = λ h. (h.0, filed.same' h.1);
          },
        )
  ]

  AllOf-new :
      (e : Envelope) (queue : List (Submission D)) (s : Submission D)
      → AllOf e queue
      → differs_from_first queue s.envelope ≡ false
      → AllOf s.envelope queue
  AllOf-new e [] s h d = tt
  AllOf-new e (first ∷ queue) s h d =
      let same : s.envelope ≡ first.envelope =
        (eq_iff s.envelope first.envelope).0 (not-false (s.envelope == first.envelope) d) in
      subst (λ x. AllOf x (first ∷ queue)) (sym (same ∙ h.0)) h

  held_once :
      (a b : EvmAddress) (s : Submission D) (queue queue' : List (Submission D))
      → length (held b queue) ≤ 1
      → held b queue' ≡ (if a == b then s ∷ [] else held b queue)
      → length (held b queue') ≤ 1
  held_once a b s queue queue' u h = ground arith

  -- The rest of `append_submission_to_queue`, from the signer.
  abbrev filed_or_error :
      Submission D
      → List (Submission D)
      → Result AggregatorError EvmAddress
      → Result AggregatorError (List (Submission D))
  filed_or_error s queue r = r >>= λ signer. replace_or_push C signer s queue

  by_signer :
      (e : Envelope) (queue : List (Submission D)) (s : Submission D)
      (r : Result AggregatorError EvmAddress)
      → IsQuorumQueue e queue
      → differs_from_first queue s.envelope ≡ false
      → signer_of C s ≡ r
      → ((x : AggregatorError) × (r ≡ err x) × (filed_or_error s queue r ≡ err x))
        ⊎ ((a : EvmAddress) × (queue' : List (Submission D)) × (r ≡ ok a)
            × (filed_or_error s queue r ≡ ok queue')
            × IsQuorumQueue s.envelope queue'
            × ((b : EvmAddress) → held b queue' ≡ (if a == b then s ∷ [] else held b queue)))
  by_signer e queue s (err x) w d f = inl (x, refl, refl)
  by_signer e queue s (ok a) w d f =
      let (queue', placed, filed) = replace_or_push_lem a s queue f w.recovered w.once in
      inr (
        a,
        queue',
        refl,
        placed,
        record {
          recovered = filed.recovered';
          same = filed.same' (AllOf-new e queue s w.same d);
          once = λ b. held_once a b s queue queue' (w.once b) (filed.holds b);
        },
        filed.holds,
      )

  -- On a fit queue, a submission is refused if its envelope differs from that of the first in
  -- the queue, or else if its signer is not recovered, with that error. Otherwise it is filed:
  -- the queue then is fit, and holds of its signer this submission alone, and of every other
  -- signer what it held before.
  pub append_submission_cases :
      (id : QuorumQueueId) (e : Envelope) (queue : List (Submission D)) (s : Submission D)
      → IsQuorumQueue e queue
      → ((differs_from_first queue s.envelope ≡ true)
          × (append_submission_to_queue C id queue s ≡ err (envelope_diff id)))
        ⊎ ((x : AggregatorError) × (differs_from_first queue s.envelope ≡ false)
            × (signer_of C s ≡ err x)
            × (append_submission_to_queue C id queue s ≡ err x))
        ⊎ ((a : EvmAddress) × (queue' : List (Submission D)) × (signer_of C s ≡ ok a)
            × (append_submission_to_queue C id queue s ≡ ok queue')
            × IsQuorumQueue s.envelope queue'
            × ((b : EvmAddress) → held b queue' ≡ (if a == b then s ∷ [] else held b queue)))
  unfolding append_submission_to_queue
  append_submission_cases id e queue s w = elim (Bool-cases (differs_from_first queue s.envelope)) [
    | inl differs ↦ inl (differs, rw differs)
    | inr same ↦ elim (by_signer e queue s (signer_of C s) w same refl) [
      | inl (x, f, g) ↦ inr (inl (x, same, f, rw same g))
      | inr (a, queue', f, g, w', h) ↦ inr (inr (a, queue', f, rw same g, w', h))
    ]
  ]
