-- ===== src/Submission/Signed.antt =====
-- What submission.rs signs, the signer recovered from it, and the results of two operators for one event
-- in the aggregator's queue.
use wavs.Prelude.{
  ◌≡◌, refl, sym, ap, ◌∙◌, subst, Bool, true, false, none, some, [], ◌∷◌, ◌==◌, Bytes, bytes_eq,
  if◌then◌else◌, arith, Bool-cases, inl, inr, eq_iff,
}
use wavs.Prelude.Map.{get}
use wavs.Prelude.Result.{Result, ok, err, ok_or, map_err, ◌>>=◌, bind_ok, map_err_ok, ok_or_ok}
use wavs.Types.Service.{SignatureKind}
use wavs.Types.Submission.{
  EvmAddress, Envelope, envelope_eq, WavsSignature, Submission, SigningCrate, signed_hash,
  evm_signer_address, QuorumQueueId,
}
use wavs.Types.TriggerData.{TriggerData}
use wavs.Aggregator.Queue.{
  signing, signer_of, append_submission_to_queue, replace_or_push, replaced_or_kept,
}
use wavs.Services.Store.{Services, get_workflow, is_active}
use wavs.Submission.Event.{EventCrates, request_event_id}
use wavs.Submission.Manager.{
  KeyCrate, SignerInfo, SubmissionManager, SubmissionRequest, SubmissionError, request_service_id,
  request_workflow_id, request_envelope, ordering_bytes, signature_kind_of, sign, sign_request,
  submit, dispatched, encode_event_id, missing_evm_signer, services_error, failed_to_sign_envelope,
}

module _ (K : KeyCrate) (C : SigningCrate) where
  -- Of the crate `alloy`: a signature that a key makes of a hash reads back, and recovers, with the hash,
  -- to the key's address.
  abbrev pub SignsTruly : Type 0
  SignsTruly =
      (signer : K.PrivateKeySigner) (hash signature : Bytes)
      → K.sign_hash signer hash ≡ ok signature
      → (s : C.Signature) × (C.from_raw signature ≡ ok s)
        × (C.recover_address_from_prehash s hash ≡ ok (K.address signer))

  sign-signer :
      (signer : K.PrivateKeySigner) (kind : SignatureKind) (envelope : Envelope)
      (r : Result Bytes Bytes) (sig : WavsSignature)
      → SignsTruly
      → K.sign_hash signer (signed_hash C kind.prefix envelope) ≡ r
      → (r >>= λ signature. ok (record { data_bytes = signature; kind = kind })) ≡ ok sig
      → evm_signer_address C sig envelope ≡ ok (K.address signer)
  unfolding evm_signer_address
  sign-signer signer kind envelope (err x) sig t h e = absurd (ground arith)
  sign-signer signer kind envelope (ok signature) sig t h e =
      let b = t signer (signed_hash C kind.prefix envelope) signature h in
      let made : WavsSignature = record { data_bytes = signature; kind = kind } in
      let is : made ≡ sig = cc e in
      subst (λ x. evm_signer_address C x envelope ≡ ok (K.address signer)) is (rw (b.1, b.2) refl)

module _ (K : KeyCrate) (C : SigningCrate) (E : EventCrates) where
  -- What a submission says of its request and of the key that signed it.
  pub record IsSigned (m : SubmissionManager K) (services : Services) (req : SubmissionRequest)
      (s : Submission TriggerData) : Type 0 where
    pub info : SignerInfo K
    pub has_key : get m.signers (request_service_id req) ≡ some info
    pub signed : evm_signer_address C s.envelope_signature s.envelope ≡ ok (K.address info.signer)
    pub same_action : s.trigger_action ≡ req.trigger_action
    pub same_response : s.operator_response ≡ req.operator_response
    pub named : request_event_id E req.trigger_action req.operator_response ≡ ok s.event_id
    pub enveloped : s.envelope ≡ request_envelope req s.event_id

  sign_request-IsSigned :
      (m : SubmissionManager K) (services : Services) (req : SubmissionRequest)
      (s : Submission TriggerData)
      → SignsTruly K C
      → sign_request K C E m services req ≡ ok s
      → IsSigned m services req s
  unfolding sign_request sign
  sign_request-IsSigned m services req s t h =
      let sid = request_service_id req in
      let b1 =
        bind_ok
          (map_err encode_event_id (request_event_id E req.trigger_action req.operator_response)) _
          s h in
      let b2 = bind_ok (ok_or (get m.signers sid) (missing_evm_signer sid)) _ s b1.2 in
      let b3 =
        bind_ok (map_err services_error (get_workflow services sid (request_workflow_id req))) _ s
          b2.2 in
      let b4 = bind_ok (signature_kind_of b3.0.submit) _ s b3.2 in
      let envelope = request_envelope req b1.0 in
      let b5 =
        bind_ok
          (map_err failed_to_sign_envelope (
            K.sign_hash b2.0.signer (signed_hash C b4.0.prefix envelope) >>= λ signature.
            ok (record { data_bytes = signature; kind = b4.0 })))
          _ s b4.2 in
      let made : Submission TriggerData = record {
        trigger_action = req.trigger_action;
        operator_response = req.operator_response;
        event_id = b1.0;
        envelope = envelope;
        envelope_signature = b5.0;
      } in
      let is : made ≡ s = cc b5.2 in
      subst (IsSigned m services req) is (record {
        info = b2.0;
        has_key = ok_or_ok (get m.signers sid) (missing_evm_signer sid) b2.0 b2.1;
        signed =
            sign-signer K C b2.0.signer b4.0 envelope _ b5.0 t refl
              (map_err_ok failed_to_sign_envelope _ b5.0 b5.1);
        same_action = refl;
        same_response = refl;
        named = map_err_ok encode_event_id _ b1.0 b1.1;
        enveloped = refl;
      })

  dispatched-ok :
      (r : Result SubmissionError (Submission TriggerData)) (s : Submission TriggerData)
      → dispatched K C E r ≡ some s
      → r ≡ ok s
  dispatched-ok (ok t) s h = cc h
  dispatched-ok (err e) s h = absurd (ground arith)

  -- What the submission manager gives back to the dispatcher, the crate signing truly, is of a service
  -- that is active and has a key; it carries the request's action and response, the event id of both, the
  -- envelope made of them, and a signature from which the address of the service's key is recovered.
  pub submit-IsSigned :
      (m : SubmissionManager K) (services : Services) (req : SubmissionRequest)
      (s : Submission TriggerData)
      → SignsTruly K C
      → submit K C E m services req ≡ some s
      → (is_active services (request_service_id req) ≡ true) × IsSigned m services req s
  unfolding submit
  submit-IsSigned m services req s t h =
      elim (Bool-cases (is_active services (request_service_id req))) [
        | inl on ↦ (
          on,
          sign_request-IsSigned m services req s t (
              dispatched-ok _ s (
                subst
                  (λ b.
                    (if b then dispatched K C E (sign_request K C E m services req) else none)
                    ≡ some s)
                  on h)),
        )
        | inr off ↦ absurd (ground (arith, h, off))
      ]

  same_envelope :
      (m m' : SubmissionManager K) (services services' : Services) (req req' : SubmissionRequest)
      (s s' : Submission TriggerData)
      → IsSigned m services req s
      → IsSigned m' services' req' s'
      → req'.trigger_action ≡ req.trigger_action
      → req'.operator_response ≡ req.operator_response
      → s'.envelope ≡ s.envelope
  same_envelope m m' services services' req req' s s' h h' a r =
      let named : request_event_id E req.trigger_action req.operator_response ≡ ok s'.event_id =
        ap (λ x. request_event_id E x req.operator_response) (sym a)
        ∙ ap (request_event_id E req'.trigger_action) (sym r)
        ∙ h'.named in
      let ids : s'.event_id ≡ s.event_id = cc (named, h.named) in
      h'.enveloped
      ∙ (λ i. record {
        event_id = ids i;
        ordering = ordering_bytes ((r i).ordering);
        payload = (r i).payload;
      })
      ∙ sym h.enveloped

  replaced :
      (b : Bool) (s s' : Submission TriggerData)
      → replaced_or_kept b s' s [] (ok (s' ∷ [])) ≡ ok (if b then s' ∷ [] else s ∷ s' ∷ [])
  replaced true s s' = refl
  replaced false s s' = refl

  -- When two operators, each with its own keys and services, give a submission for the same action and
  -- the same response, the aggregator appends the second to the first: it replaces the first if both
  -- recover to one address, and stands behind it otherwise.
  pub submissions-join :
      (m m' : SubmissionManager K) (services services' : Services) (req req' : SubmissionRequest)
      (s s' : Submission TriggerData) (queue_id : QuorumQueueId)
      → SignsTruly K C
      → submit K C E m services req ≡ some s
      → submit K C E m' services' req' ≡ some s'
      → req'.trigger_action ≡ req.trigger_action
      → req'.operator_response ≡ req.operator_response
      → (a : EvmAddress) × (a' : EvmAddress) × (signer_of C s ≡ ok a)
        × (signer_of C s' ≡ ok a')
        × (append_submission_to_queue C queue_id (s ∷ []) s'
            ≡ ok (if a' == a then s' ∷ [] else s ∷ s' ∷ []))
  unfolding append_submission_to_queue signer_of replace_or_push
  submissions-join m m' services services' req req' s s' queue_id t h h' a r =
      let i = (submit-IsSigned m services req s t h).1 in
      let i' = (submit-IsSigned m' services' req' s' t h').1 in
      let same = same_envelope m m' services services' req req' s s' i i' a r in
      let fits : (s'.envelope == s.envelope) ≡ true = (eq_iff s'.envelope s.envelope).1 same in
      (
        K.address i.info.signer,
        K.address i'.info.signer,
        ap (map_err signing) i.signed,
        ap (map_err signing) i'.signed,
        rw (fits, i'.signed, i.signed)
            (replaced (K.address i'.info.signer == K.address i.info.signer) s s'),
      )
