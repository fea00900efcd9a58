-- ===== src/Dispatcher/Revived.antt =====
-- A change that arrives after its service was removed, in dispatcher.rs.
use wavs.Prelude.{
  ℕ, ◌≡◌, refl, ap, ◌∙◌, true, false, none, some, Bytes, bytes_eq, ◌==◌, arith, eq_iff,
}
use wavs.Prelude.Map.{get}
use wavs.Prelude.Result.{Result, ok, err}
use wavs.Types.Service.{ServiceId, Service}
use wavs.Types.Submission.{EvmAddress}
use wavs.Services.Store.{exists, get_service, try_get}
use wavs.Services.Store
use wavs.Services.Table.{get_cloned}
use wavs.Submission.Manager.{get_service_signer}
use wavs.Dispatcher.Operations.{
  Crates, Dispatcher, DispatcherError, service_id, then_add, remove_service, with_log, logged_old,
  change_service_inner,
}
use wavs.Dispatcher.Registered.{then_add-services, get-exists}

module _ (R : Crates) where
  logged_unknown :
      (d : Dispatcher R) (sid : ServiceId) (service : Service)
      → get d.services sid ≡ none
      → logged_old R true d sid service
        ≡ err (DispatcherError.unknown_service (Store.unknown_service sid))
  unfolding logged_old get_service try_get get_cloned
  logged_unknown d sid service e = ground (arith, e)

  -- A change of a service that the table does not have, while its key is still there: where logging at
  -- the level INFO is on, it fails with `UnknownService` and changes nothing; where it is off and the engine
  -- stores the components, the table has the service afterwards.
  pub change_of_removed :
      (d : Dispatcher R) (store : Result Bytes (Unit {0})) (sid : ServiceId) (service : Service)
      (index : ℕ) (address : EvmAddress)
      → get d.services sid ≡ none
      → service_id R service ≡ sid
      → get_service_signer R.keys d.submissions sid ≡ ok (index, address)
      → (change_service_inner R d true store sid service
          ≡ (d, err (DispatcherError.unknown_service (Store.unknown_service sid))))
        × (exists (change_service_inner R d false (ok tt) sid service).0.services sid ≡ true)
  unfolding change_service_inner logged_old
  change_of_removed d store sid service index address e same signer =
      let fits : (service_id R service == sid) ≡ true =
        (eq_iff (service_id R service) sid).1 same in
      let d1 = remove_service R d sid in
      let stored : get (then_add R d1 service (some index)).0.services sid ≡ some service =
        then_add-services R d1 service (some index) sid ∙ rw fits refl in
      (
        rw (fits, signer)
            (ap (with_log R d store service sid index) (logged_unknown d sid service e)),
        rw (fits, signer) (get-exists R _ sid service stored),
      )
