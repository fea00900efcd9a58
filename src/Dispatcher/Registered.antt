-- ===== src/Dispatcher/Registered.antt =====
-- What `add_service_direct` of dispatcher.rs does to the services table.
use wavs.Prelude.{
  ℕ, ◌≡◌, refl, ap, ◌∙◌, subst, true, false, Option, none, some, List, Bytes, bytes_eq, ◌==◌,
  if◌then◌else◌, arith, Bool-cases, inl, inr, ◌⊎◌, eq_refl,
}
use wavs.Prelude.Map.{get, get-insert, contains_key-get}
use wavs.Prelude.Result.{Result, ok, err}
use wavs.Errors.{TriggerError}
use wavs.Types.Service.{ServiceId, Service}
use wavs.Services.Store.{Services, exists, save}
use wavs.Lookup.Maps.{LookupMaps}
use wavs.Trigger.Commands.{TriggerCommand, add_to_manager}
use wavs.Submission.Manager.{SubmissionManager, SubmissionError, add_service_key}
use wavs.Dispatcher.Operations.{
  Crates, Dispatcher, Outcome, service_registered, engine, service_id, triggers_added, key_added,
  add_service_to_managers, then_add, components_stored, add_service_direct,
}

module _ (R : Crates) where
  triggers-services :
      (d : Dispatcher R) (sid : ServiceId)
      (r : LookupMaps R.cron R.bimap × Result TriggerError (List TriggerCommand))
      → (triggers_added R d sid r).0.services ≡ d.services
  triggers-services d sid (maps, ok commands) = refl
  triggers-services d sid (maps, err e) = refl

  key-services :
      (d : Dispatcher R) (service : Service)
      (r : SubmissionManager R.keys × Result SubmissionError (Unit {0}))
      → (key_added R d service r).0.services ≡ d.services
  key-services d service (m, ok _) =
      triggers-services (record d { submissions = m }) (service_id R service)
        (add_to_manager R.cron R.bimap R.events d.maps d.chain_configs (service_id R service)
          service)
  key-services d service (m, err e) = refl

  -- The managers leave the services table alone.
  managers-services :
      (d : Dispatcher R) (service : Service) (hd_index : Option ℕ)
      → (add_service_to_managers R d service hd_index).0.services ≡ d.services
  unfolding add_service_to_managers
  managers-services d service hd_index =
      key-services d service (add_service_key R.keys d.submissions (service_id R service) hd_index)

  -- A service that was saved stands under its id, beside what the others have.
  pub then_add-services :
      (d : Dispatcher R) (service : Service) (hd_index : Option ℕ) (k : ServiceId)
      → get (then_add R d service hd_index).0.services k
        ≡ (if service_id R service == k then some service else get d.services k)
  unfolding save
  then_add-services d service hd_index k =
      ap (λ m. get m k)
        (managers-services (record d { services = save R.hash d.services service }) service
          hd_index)
      ∙ get-insert (service_id R service) k service d.services

  pub get-exists :
      (services : Services) (sid : ServiceId) (service : Service)
      → get services sid ≡ some service
      → exists services sid ≡ true
  unfolding exists
  get-exists services sid service e = ground (arith, contains_key-get services sid, e)

  abbrev pub IsRegistered : Dispatcher R → Service → Outcome R → Type 0
  IsRegistered d service out =
      ((k : ServiceId)
        → get out.0.services k
          ≡ (if service_id R service == k then some service else get d.services k))
      × ((store : Result Bytes (Unit {0}))
          → add_service_direct R out.0 store service
            ≡ (out.0, err (service_registered (service_id R service))))

  abbrev pub AddOutcome : Dispatcher R → Result Bytes (Unit {0}) → Service → Outcome R → Type 0
  AddOutcome d store service out =
      ((exists d.services (service_id R service) ≡ true)
        × (out ≡ (d, err (service_registered (service_id R service)))))
      ⊎ ((exists d.services (service_id R service) ≡ false)
          × (e : Bytes) × (store ≡ err e)
          × (out ≡ (d, err (engine e))))
      ⊎ ((exists d.services (service_id R service) ≡ false)
          × (store ≡ ok tt)
          × IsRegistered d service out)

  refused_again :
      (d : Dispatcher R) (store : Result Bytes (Unit {0})) (service : Service)
      → get d.services (service_id R service) ≡ some service
      → add_service_direct R d store service ≡ (d, err (service_registered (service_id R service)))
  unfolding add_service_direct
  refused_again d store service e = rw (get-exists d.services (service_id R service) service e) refl

  stored_outcome :
      (d : Dispatcher R) (store : Result Bytes (Unit {0})) (service : Service)
      → exists d.services (service_id R service) ≡ false
      → AddOutcome d store service (components_stored R d service store)
  stored_outcome d (err e) service h = inr (inl (h, e, refl, refl))
  stored_outcome d (ok u) service h = inr (
      inr (
        h,
        refl,
        (
          then_add-services d service none,
          λ store. refused_again (then_add R d service none).0 store service (
              then_add-services d service none (service_id R service)
              ∙ rw (eq_refl (service_id R service)) refl),
        ),
      ))

  -- `add_service_direct` refuses an id that the table has, and changes nothing; it fails where the
  -- engine does not store the components, and changes nothing. Otherwise, whether or not the managers then
  -- fail, the table has the service under its id, and for other ids what it had; and adding the service
  -- again is refused as registered.
  pub add_service_direct_cases :
      (d : Dispatcher R) (store : Result Bytes (Unit {0})) (service : Service)
      → AddOutcome d store service (add_service_direct R d store service)
  unfolding add_service_direct
  add_service_direct_cases d store service =
      elim (Bool-cases (exists d.services (service_id R service))) [
        | inl there ↦ inl (there, rw there refl)
        | inr absent ↦
            subst (AddOutcome d store service) (rw absent refl)
              (stored_outcome d store service absent)
      ]
