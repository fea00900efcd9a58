-- ===== src/Dispatcher/Changed.antt =====
-- What `change_service_inner` of dispatcher.rs changes and keeps.
use wavs.Prelude.{
  ℕ, ◌+◌, ◌<◌, ◌≡◌, refl, sym, ap, ◌∙◌, subst, Bool, true, false, Option, none, some, List, Bytes,
  bytes_eq, ◌==◌, if◌then◌else◌, arith, Bool-cases, inl, inr, eq_refl, eq_iff, length,
}
use wavs.Prelude.Map.{Map, get, insert, get-insert}
use wavs.Prelude.Result.{Result, ok, err}
use wavs.Errors.{TriggerError}
use wavs.Types.Service.{ServiceId, WorkflowId, Service}
use wavs.Types.Submission.{EvmAddress}
use wavs.Scheduler.Block.{u64_mod}
use wavs.Services.Store.{save}
use wavs.Lookup.Maps.{LookupMaps, values, remove_workflows}
use wavs.Lookup.Maps
use wavs.Lookup.Indexed.{IsIndexed}
use wavs.Lookup.IndexedAdd.{add_service-IsIndexed}
use wavs.Lookup.IndexedRemove.{remove_service-IsIndexed, SameRest-unindex_all}
use wavs.Scheduler.Interval.{LookupId}
use wavs.Trigger.Commands.{TriggerCommand, add_to_manager, with_commands}
use wavs.Submission.Manager.{
  KeyCrate, SignerInfo, SubmissionManager, SubmissionError, add_service_key, get_service_signer,
  with_signer,
}
use wavs.Dispatcher.Operations.{
  Crates, Dispatcher, DispatcherError, service_id, triggers_added, key_added,
  add_service_to_managers, then_add, remove_service, changed_components, logged_old, with_log,
  with_index, change_service_inner, change_id_mismatch,
}
use wavs.Dispatcher.Registered.{then_add-services}
use wavs.Dispatcher.Removed.{removed-get}

-- A key that was added with an index has it.
module _ (K : KeyCrate) where
  with_signer-index :
      (m m' : SubmissionManager K) (sid : ServiceId) (index : ℕ)
      (r : Result Bytes K.PrivateKeySigner)
      → with_signer K m sid index r ≡ (m', ok tt)
      → (address : EvmAddress) × (get_service_signer K m' sid ≡ ok (index, address))
  unfolding get_service_signer
  with_signer-index m m' sid index (err e) h = absurd (ground arith)
  with_signer-index m m' sid index (ok signer) h =
      let info : SignerInfo K = record { signer = signer; hd_index = index } in
      let there : get (insert sid info m.signers) sid ≡ some info =
        get-insert sid sid info m.signers ∙ rw (eq_refl sid) refl in
      (
        K.address signer,
        subst (λ x. get_service_signer K x sid ≡ ok (index, K.address signer)) (ap (λ p. p.0) h)
            (rw there refl),
      )

module _ (R : Crates) where
  triggers_ok :
      (d d' : Dispatcher R) (sid : ServiceId)
      (r : LookupMaps R.cron R.bimap × Result TriggerError (List TriggerCommand))
      → triggers_added R d sid r ≡ (d', ok tt)
      → (d'.submissions ≡ d.submissions) × (d'.maps ≡ r.0)
  triggers_ok d d' sid (maps, err e) h = absurd (ground (arith, ap (λ p. p.1) h))
  triggers_ok d d' sid (maps, ok commands) h =
      (sym (ap (λ p. p.0.submissions) h), sym (ap (λ p. p.0.maps) h))

  key_ok :
      (d d' : Dispatcher R) (service : Service)
      (r : SubmissionManager R.keys × Result SubmissionError (Unit {0}))
      → key_added R d service r ≡ (d', ok tt)
      → (r.1 ≡ ok tt)
        × (d'.submissions ≡ r.0)
        × (d'.maps
            ≡ (add_to_manager R.cron R.bimap R.events d.maps d.chain_configs
                (service_id R service)
                service).0)
  key_ok d d' service (m, err e) h = absurd (ground (arith, ap (λ p. p.1) h))
  key_ok d d' service (m, ok u) h =
      let t =
        triggers_ok (record d { submissions = m }) d' (service_id R service)
          (add_to_manager R.cron R.bimap R.events d.maps d.chain_configs (service_id R service)
            service)
          h in
      (refl, t.0, t.1)

  commands-maps :
      (d : Dispatcher R) (service : Service) (out : Maps.Outcome R.cron R.bimap)
      → (with_commands R.cron R.bimap R.events service d.chain_configs out).0 ≡ out.0
  commands-maps d service (l, ok u) = refl
  commands-maps d service (l, err e) = refl

  -- A successful addition: the key has the index, and the indexes agree if there is room.
  added_lem :
      (d d' : Dispatcher R) (service : Service) (index : ℕ)
      → then_add R d service (some index) ≡ (d', ok tt)
      → IsIndexed R.cron R.bimap d.maps
      → d.maps.lookup_id + length service.workflows < u64_mod
      → ((address : EvmAddress) × (get_service_signer R.keys d'.submissions (service_id R service)
            ≡ ok (index, address)))
        × IsIndexed R.cron R.bimap d'.maps
  unfolding add_service_to_managers add_service_key add_to_manager
  added_lem d d' service index h w room =
      let d1 : Dispatcher R = record d { services = save R.hash d.services service } in
      let sid = service_id R service in
      let r = add_service_key R.keys d.submissions sid (some index) in
      let k = key_ok d1 d' service r h in
      let added : r ≡ (d'.submissions, ok tt) = λ i. (sym k.1 i, k.0 i) in
      let out = Maps.add_service R.cron R.bimap d.maps sid service in
      (
        with_signer-index R.keys _ d'.submissions sid index (R.keys.make_signer index) added,
        subst (IsIndexed R.cron R.bimap) (sym (k.2 ∙ commands-maps d service out))
            (add_service-IsIndexed R.cron R.bimap d.maps sid service w room),
      )

  removed-counter :
      (l : LookupMaps R.cron R.bimap) (sid : ServiceId)
      → (Maps.remove_service R.cron R.bimap l sid).lookup_id ≡ l.lookup_id
  unfolding Maps.remove_service
  removed-counter l sid = counted (get l.service_workflows sid)
    where
      counted :
          (o : Option (Map WorkflowId LookupId))
          → (remove_workflows R.cron R.bimap
              (record l { service_manager = R.bimap.remove_by_left sid l.service_manager })
              sid
              o).lookup_id
            ≡ l.lookup_id
      counted none = refl
      counted (some m) =
          (SameRest-unindex_all R.cron R.bimap (values m)
            (record l { service_manager = R.bimap.remove_by_left sid l.service_manager })).counter

  -- What a successful change says.
  abbrev pub IsChanged : Dispatcher R → Dispatcher R → ServiceId → Service → Type 0
  IsChanged d d' sid service =
      (service_id R service ≡ sid)
      × ((k : ServiceId)
          → get d'.services k ≡ (if sid == k then some service else get d.services k))
      × ((index : ℕ) × (before : EvmAddress) × (after : EvmAddress) × (get_service_signer R.keys
              d.submissions sid
            ≡ ok (index, before))
          × (get_service_signer R.keys d'.submissions sid ≡ ok (index, after)))
      × IsIndexed R.cron R.bimap d'.maps

  twice :
      {A : Type 0} (a b : Bool) (x y z : A)
      → a ≡ b
      → (if a then x else if b then y else z) ≡ (if a then x else z)
  twice true b x y z e = refl
  twice false true x y z e = absurd (ground (arith, e))
  twice false false x y z e = refl

  components-IsChanged :
      (d d' : Dispatcher R) (sid : ServiceId) (service : Service) (index : ℕ) (before : EvmAddress)
      (store : Result Bytes (Unit {0}))
      → IsIndexed R.cron R.bimap d.maps
      → d.maps.lookup_id + length service.workflows < u64_mod
      → service_id R service ≡ sid
      → get_service_signer R.keys d.submissions sid ≡ ok (index, before)
      → changed_components R d service sid index store ≡ (d', ok tt)
      → IsChanged d d' sid service
  unfolding remove_service
  components-IsChanged d d' sid service index before (err e) w room same signer h =
      absurd (ground (arith, ap (λ p. p.1) h))
  components-IsChanged d d' sid service index before (ok u) w room same signer h =
      let d1 = remove_service R d sid in
      let a =
        added_lem d1 d' service index h (remove_service-IsIndexed R.cron R.bimap d.maps sid w).0
          (omega (arith, removed-counter d.maps sid, room)) in
      (
        same,
        λ k.
            ap (λ p. get p.0.services k) (sym h)
            ∙ then_add-services R d1 service (some index) k
            ∙ ap (λ s. if s == k then some service else get d1.services k) same
            ∙ ap (λ o. if sid == k then some service else o) (removed-get R d sid k)
            ∙ twice (sid == k) (sid == k) (some service) none (get d.services k) refl,
        (
          index,
          before,
          a.0.0,
          signer,
          subst (λ s. get_service_signer R.keys d'.submissions s ≡ ok (index, a.0.0)) same a.0.1,
        ),
        a.1,
      )

  log-IsChanged :
      (d d' : Dispatcher R) (sid : ServiceId) (service : Service) (index : ℕ) (before : EvmAddress)
      (store : Result Bytes (Unit {0})) (r : Result DispatcherError (Unit {0}))
      → IsIndexed R.cron R.bimap d.maps
      → d.maps.lookup_id + length service.workflows < u64_mod
      → service_id R service ≡ sid
      → get_service_signer R.keys d.submissions sid ≡ ok (index, before)
      → with_log R d store service sid index r ≡ (d', ok tt)
      → IsChanged d d' sid service
  log-IsChanged d d' sid service index before store (err e) w room same signer h =
      absurd (ground (arith, ap (λ p. p.1) h))
  log-IsChanged d d' sid service index before store (ok u) w room same signer h =
      components-IsChanged d d' sid service index before store w room same signer h

  signer-IsChanged :
      (d d' : Dispatcher R) (info : Bool) (store : Result Bytes (Unit {0})) (sid : ServiceId)
      (service : Service) (r : Result SubmissionError (ℕ × EvmAddress))
      → IsIndexed R.cron R.bimap d.maps
      → d.maps.lookup_id + length service.workflows < u64_mod
      → service_id R service ≡ sid
      → get_service_signer R.keys d.submissions sid ≡ r
      → with_index R d info store service sid r ≡ (d', ok tt)
      → IsChanged d d' sid service
  signer-IsChanged d d' info store sid service (err e) w room same signer h =
      absurd (ground (arith, ap (λ p. p.1) h))
  signer-IsChanged d d' info store sid service (ok (index, before)) w room same signer h =
      log-IsChanged d d' sid service index before store (logged_old R info d sid service) w room
        same signer h

  -- A change of a service that succeeds, from maps whose indexes agree with their configs and whose id
  -- counter has room for the new workflows: the new service has the id that was to change; the table has
  -- it there, and other services as they were; its key has the derivation index that it had; and the
  -- indexes still agree.
  pub change_service_inner_lem :
      (d d' : Dispatcher R) (info : Bool) (store : Result Bytes (Unit {0})) (sid : ServiceId)
      (service : Service)
      → IsIndexed R.cron R.bimap d.maps
      → d.maps.lookup_id + length service.workflows < u64_mod
      → change_service_inner R d info store sid service ≡ (d', ok tt)
      → IsChanged d d' sid service
  unfolding change_service_inner
  change_service_inner_lem d d' info store sid service w room h =
      elim (Bool-cases (service_id R service == sid)) [
        | inl same ↦
            signer-IsChanged d d' info store sid service
              (get_service_signer R.keys d.submissions sid) w room
              ((eq_iff (service_id R service) sid).0 same) refl
              (subst
                (λ b.
                  (if b
                    then with_index R d info store service sid
                        (get_service_signer R.keys d.submissions sid)
                    else (d, err (change_id_mismatch sid (service_id R service))))
                  ≡ (d', ok tt))
                same h)
        | inr other ↦ absurd (ground (arith, other, ap (λ p. p.1) h))
      ]
