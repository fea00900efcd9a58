-- ===== src/Submission/Keys.antt =====
-- The keys of submission.rs: the derivation indexes of the services, as the dispatcher adds them.
use wavs.Prelude.{
  ℕ, suc, ◌+◌, ◌%◌, ◌<◌, ◌≤◌, ◌≡◌, ◌⊎◌, refl, sym, ap, ◌∙◌, subst, Option, none, some, List, [],
  ◌∷◌, ◌==◌, Bytes, bytes_eq, if◌then◌else◌, arith, Bool-cases, inl, inr, eq_iff, length,
}
use wavs.Prelude.Map.{Map, get, insert, get-insert}
use wavs.Prelude.Result.{Result, ok, err, ok_or, ◌>>=◌}
use wavs.Types.Service.{ServiceId}
use wavs.Types.Submission.{EvmAddress}
use wavs.Submission.Manager.{
  KeyCrate, SignerInfo, SubmissionManager, SubmissionError, new_manager, add_service_key,
  get_service_signer, with_signer, u32_mod, missing_service_key,
}

-- The dispatcher adds a new service with no index, and a changed one with the index that it has.
pub data KeyUse : Type 0 where
  fresh : ServiceId → KeyUse
  kept : ServiceId → KeyUse

module _ (K : KeyCrate) where
  abbrev pub keep :
      SubmissionManager K
      → ServiceId
      → Result SubmissionError (ℕ × EvmAddress)
      → SubmissionManager K
  keep m sid (err e) = m
  keep m sid (ok (index, address)) = (add_service_key K m sid (some index)).0

  abbrev pub use_key : SubmissionManager K → KeyUse → SubmissionManager K
  use_key m (fresh sid) = (add_service_key K m sid none).0
  use_key m (kept sid) = keep m sid (get_service_signer K m sid)

  abbrev pub use_keys : SubmissionManager K → List KeyUse → SubmissionManager K
  use_keys m [] = m
  use_keys m (u ∷ us) = use_keys (use_key m u) us

  -- Every index was given out, and each to one service.
  pub record IsApart (m : SubmissionManager K) : Type 0 where
    pub below :
        (sid : ServiceId) (i : SignerInfo K)
        → get m.signers sid ≡ some i
        → i.hd_index < m.hd_index_count
    pub own :
        (sid sid' : ServiceId) (i i' : SignerInfo K)
        → get m.signers sid ≡ some i
        → get m.signers sid' ≡ some i'
        → i.hd_index ≡ i'.hd_index
        → sid ≡ sid'

  counted :
      (m : SubmissionManager K)
      → suc m.hd_index_count < u32_mod
      → (m.hd_index_count + 1) % u32_mod ≡ suc m.hd_index_count
  counted m lt = omega (arith, lt)

  abbrev stored :
      SubmissionManager K → ServiceId → ℕ → K.PrivateKeySigner → Map ServiceId (SignerInfo K)
  stored m sid index signer = insert sid (record { signer = signer; hd_index = index }) m.signers

  stored_cases :
      (m : SubmissionManager K) (sid : ServiceId) (index : ℕ) (signer : K.PrivateKeySigner)
      (s : ServiceId) (i : SignerInfo K)
      → get (stored m sid index signer) s ≡ some i
      → ((s ≡ sid) × (i.hd_index ≡ index)) ⊎ (get m.signers s ≡ some i)
  stored_cases m sid index signer s i e =
      let info : SignerInfo K = record { signer = signer; hd_index = index } in
      let found = sym (get-insert sid s info m.signers) ∙ e in
      elim (Bool-cases (sid == s)) [
        | inl same ↦
            let is : some info ≡ some i =
              subst (λ b. (if b then some info else get m.signers s) ≡ some i) same found in
            let info_is : info ≡ i = cc is in
            inl (sym ((eq_iff sid s).0 same), sym (ap (λ (x : SignerInfo K). x.hd_index) info_is))
        | inr other ↦
            inr (subst (λ b. (if b then some info else get m.signers s) ≡ some i) other found)
      ]

  inserted-IsApart :
      (m : SubmissionManager K) (sid : ServiceId) (index : ℕ) (signer : K.PrivateKeySigner)
      (count : ℕ)
      → index < count
      → m.hd_index_count ≤ count
      → ((other : ServiceId) (i : SignerInfo K)
          → get m.signers other ≡ some i
          → i.hd_index ≡ index
          → other ≡ sid)
      → IsApart m
      → IsApart (record { signers = stored m sid index signer; hd_index_count = count })
  inserted-IsApart m sid index signer count lt le mine a = record {
    below = λ s i e. elim (stored_cases m sid index signer s i e) [
      | inl (s_is, i_is) ↦ omega (arith, lt, i_is)
      | inr old ↦ omega (arith, le, a.below s i old)
    ];
    own = λ s s' i i' e e' same. elim (stored_cases m sid index signer s i e) [
      | inl (s_is, i_is) ↦ elim (stored_cases m sid index signer s' i' e') [
        | inl (s_is', i_is') ↦ s_is ∙ sym s_is'
        | inr old' ↦ s_is ∙ sym (mine s' i' old' (sym same ∙ i_is))
      ]
      | inr old ↦ elim (stored_cases m sid index signer s' i' e') [
        | inl (s_is', i_is') ↦ mine s i old (same ∙ i_is') ∙ sym s_is'
        | inr old' ↦ a.own s s' i i' old old' same
      ]
    ];
  }

  counted-IsApart :
      (m : SubmissionManager K) (count : ℕ)
      → m.hd_index_count ≤ count
      → IsApart m
      → IsApart (record m { hd_index_count = count })
  counted-IsApart m count le a = record {
    below = λ s i e. omega (arith, le, a.below s i e);
    own = a.own;
  }

  signer-IsApart :
      (m : SubmissionManager K) (sid : ServiceId) (index : ℕ) (count : ℕ)
      (r : Result Bytes K.PrivateKeySigner)
      → index < count
      → m.hd_index_count ≤ count
      → ((other : ServiceId) (i : SignerInfo K)
          → get m.signers other ≡ some i
          → i.hd_index ≡ index
          → other ≡ sid)
      → IsApart m
      → IsApart (with_signer K (record m { hd_index_count = count }) sid index r).0
  signer-IsApart m sid index count (err e) lt le mine a = counted-IsApart m count le a
  signer-IsApart m sid index count (ok signer) lt le mine a =
      inserted-IsApart m sid index signer count lt le mine a

  fresh-IsApart :
      (m : SubmissionManager K) (sid : ServiceId)
      → suc m.hd_index_count < u32_mod
      → IsApart m
      → IsApart (use_key m (fresh sid))
  unfolding add_service_key
  fresh-IsApart m sid lt a =
      signer-IsApart m sid m.hd_index_count ((m.hd_index_count + 1) % u32_mod)
        (K.make_signer m.hd_index_count) (omega (arith, counted m lt)) (omega (arith, counted m lt))
        (λ other i e same. absurd (omega (arith, a.below other i e, same))) a

  kept-IsApart :
      (m : SubmissionManager K) (sid : ServiceId) (o : Option (SignerInfo K))
      → get m.signers sid ≡ o
      → suc m.hd_index_count < u32_mod
      → IsApart m
      → IsApart (
          keep m sid (
            ok_or o (missing_service_key sid) >>= λ info.
            ok (info.hd_index, K.address info.signer)))
  unfolding add_service_key
  kept-IsApart m sid none e lt a = a
  kept-IsApart m sid (some info) e lt a =
      signer-IsApart m sid info.hd_index ((m.hd_index_count + 1) % u32_mod)
        (K.make_signer info.hd_index) (omega (arith, counted m lt, a.below sid info e))
        (omega (arith, counted m lt)) (λ other i e' same. a.own other sid i info e' e same) a

  use_key-IsApart :
      (m : SubmissionManager K) (u : KeyUse)
      → suc m.hd_index_count < u32_mod
      → IsApart m
      → IsApart (use_key m u)
  unfolding get_service_signer
  use_key-IsApart m (fresh sid) lt a = fresh-IsApart m sid lt a
  use_key-IsApart m (kept sid) lt a = kept-IsApart m sid (get m.signers sid) refl lt a

  signer-count :
      (m : SubmissionManager K) (sid : ServiceId) (index : ℕ) (r : Result Bytes K.PrivateKeySigner)
      → (with_signer K m sid index r).0.hd_index_count ≡ m.hd_index_count
  signer-count m sid index (err e) = refl
  signer-count m sid index (ok signer) = refl

  use_key-count :
      (m : SubmissionManager K) (u : KeyUse)
      → suc m.hd_index_count < u32_mod
      → (use_key m u).hd_index_count ≤ suc m.hd_index_count
  unfolding add_service_key get_service_signer
  use_key-count m (fresh sid) lt = omega (
    arith,
    signer-count (record m { hd_index_count = (m.hd_index_count + 1) % u32_mod }) sid
        m.hd_index_count (K.make_signer m.hd_index_count),
    counted m lt,
  )
  use_key-count m (kept sid) lt = kept_count (get m.signers sid)
    where
      kept_count :
          (o : Option (SignerInfo K))
          → (keep m sid (
              ok_or o (missing_service_key sid) >>= λ info.
              ok (info.hd_index, K.address info.signer))).hd_index_count
            ≤ suc m.hd_index_count
      kept_count none = omega arith
      kept_count (some info) = omega (
        arith,
        signer-count (record m { hd_index_count = (m.hd_index_count + 1) % u32_mod }) sid
            info.hd_index (K.make_signer info.hd_index),
        counted m lt,
      )

  use_keys-IsApart :
      (us : List KeyUse) (m : SubmissionManager K)
      → m.hd_index_count + length us < u32_mod
      → IsApart m
      → IsApart (use_keys m us)
  use_keys-IsApart [] m lt a = a
  use_keys-IsApart (u ∷ us) m lt a =
      use_keys-IsApart us (use_key m u) (omega (arith, lt, use_key-count m u (omega (arith, lt))))
        (use_key-IsApart m u (omega (arith, lt)) a)

  -- However new services take the next index and changed services keep theirs, fewer than 2^32 - 1
  -- times in all, two services that have the same derivation index are the same service.
  pub use_keys-apart :
      (us : List KeyUse) (sid sid' : ServiceId) (i i' : SignerInfo K)
      → 1 + length us < u32_mod
      → get (use_keys (new_manager K) us).signers sid ≡ some i
      → get (use_keys (new_manager K) us).signers sid' ≡ some i'
      → i.hd_index ≡ i'.hd_index
      → sid ≡ sid'
  unfolding get
  use_keys-apart us sid sid' i i' lt =
      (use_keys-IsApart us (new_manager K) lt (record {
        below = λ s j e. absurd (ground arith);
        own = λ s s' j j' e e' same. absurd (ground arith);
      })).own
        sid sid' i i'
