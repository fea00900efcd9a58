-- ===== src/Dispatcher/Removed.antt =====
-- What `remove_service` of dispatcher.rs leaves behind, and the events after it.
use wavs.Prelude.{
  ◌≡◌, ◌≢◌, refl, ◌∙◌, subst, true, false, none, List, bytes_eq, ◌==◌, if◌then◌else◌, arith,
  eq_refl,
}
use wavs.Prelude.Map.{get, get-remove}
use wavs.Prelude.Result.{ok}
use wavs.Types.Service.{ServiceId}
use wavs.Types.Submission.{TriggerAction}
use wavs.Types.TriggerData.{TriggerData}
use wavs.Services.Store.{Services, exists, is_active, get_service, try_get}
use wavs.Services.Store
use wavs.Services.Table.{get_cloned}
use wavs.Lookup.Maps.{LookupMaps}
use wavs.Lookup.Configs.{In}
use wavs.Trigger.Events.{DispatcherCommand, trigger, StreamTrigger, stream_event}
use wavs.Trigger.Active.{is_manual, stream_event-active}
use wavs.Dispatcher.Operations.{Crates, Dispatcher, remove_service}

module _ (R : Crates) where
  pub removed-get :
      (d : Dispatcher R) (sid k : ServiceId)
      → get (remove_service R d sid).services k ≡ (if sid == k then none else get d.services k)
  unfolding remove_service Store.remove_service
  removed-get d sid k = get-remove sid k d.services

  inactive :
      (services : Services) (sid : ServiceId)
      → get services sid ≡ none
      → is_active services sid ≡ false
  unfolding is_active get_service try_get get_cloned
  inactive services sid e = ground (arith, e)

  gone : (d : Dispatcher R) (sid : ServiceId) → get (remove_service R d sid).services sid ≡ none
  gone d sid = removed-get d sid sid ∙ rw (eq_refl sid) refl

  -- With the services table that `remove_service` leaves, no event but a manual trigger fires a trigger of
  -- the removed service, whatever the maps still hold.
  pub removed-silent :
      (d : Dispatcher R) (sid : ServiceId) (maps : LookupMaps R.cron R.bimap) (t : StreamTrigger)
      (commands : List DispatcherCommand) (a : TriggerAction TriggerData)
      → is_manual t ≡ false
      → (stream_event R.cron R.bimap R.events maps (remove_service R d sid).services t).1
        ≡ ok commands
      → In (trigger a) commands
      → a.config.service_id ≢ sid
  removed-silent d sid maps t commands a m e h same =
      let services = (remove_service R d sid).services in
      let on = stream_event-active R.cron R.bimap R.events services maps t commands a m e h in
      let off = inactive services sid (gone d sid) in
      absurd (ground (arith, off, subst (λ k. is_active services k ≡ true) same on))
