-- ===== src/Services/Refinement.antt =====
-- services.rs against a function from service ids to services: the operations that write, and those that
-- read.
use wavs.Prelude.{
  ◌≡◌, refl, ◌∙◌, ap, Bool, true, false, Option, none, some, List, [], ◌∷◌, Bytes, bytes_eq, ◌==◌,
  if◌then◌else◌, arith,
}
use wavs.Prelude.Map.{get, get-insert, get-remove, contains_key-get}
use wavs.Prelude.Result.{ok_or}
use wavs.Prelude.Distinct.{IsDistinct, insert-IsDistinct, remove-IsDistinct}
use wavs.Types.Service.{ServiceId, Service, id}
use wavs.Services.Store.{
  Services, save, remove_service, get_service, exists, is_active, try_get, unknown_service,
  status_is_active,
}
use wavs.Services.Table.{get_cloned}

abbrev pub View : Type 0
View = ServiceId → Option Service

abbrev pub viewed_active : Option Service → Bool
viewed_active none = false
viewed_active (some s) = status_is_active s.status

abbrev pub viewed_exists : Option Service → Bool
viewed_exists none = false
viewed_exists (some s) = true

-- The two writes.
pub data Write : Type 0 where
  saved : Service → Write
  removed : ServiceId → Write

module _ (hash : Bytes → ServiceId) where
  -- The writes of services.rs, one after another.
  abbrev pub run : List Write → Services → Services
  run [] services = services
  run (saved s ∷ ws) services = run ws (save hash services s)
  run (removed sid ∷ ws) services = run ws (remove_service services sid)

  abbrev pub run_view : List Write → View → View
  run_view [] f = f
  run_view (saved s ∷ ws) f = run_view ws (λ k. if id hash s == k then some s else f k)
  run_view (removed sid ∷ ws) f = run_view ws (λ k. if sid == k then none else f k)

  pub record IsView (services : Services) (f : View) : Type 0 where
    pub distinct : IsDistinct services
    pub reads : (sid : ServiceId) → get services sid ≡ f sid

  run-IsView :
      (ws : List Write) (services : Services) (f : View)
      → IsView services f
      → IsView (run ws services) (run_view ws f)
  unfolding save remove_service
  run-IsView [] services f v = v
  run-IsView (saved s ∷ ws) services f v = run-IsView ws _ _ (record {
    distinct = insert-IsDistinct (id hash s) s services v.distinct;
    reads = λ k. ground (arith, get-insert (id hash s) k s services, v.reads k);
  })
  run-IsView (removed sid ∷ ws) services f v = run-IsView ws _ _ (record {
    distinct = remove-IsDistinct sid services v.distinct;
    reads = λ k. ground (arith, get-remove sid k services, v.reads k);
  })

  pub run-IsDistinct : (ws : List Write) → IsDistinct (run ws [])
  unfolding get
  run-IsDistinct ws =
      (run-IsView ws [] (λ k. none) (record { distinct = tt; reads = λ k. refl })).distinct

  -- After any sequence of saves and removals from an empty table, `get`, `exists` and `is_active` of
  -- every id return what the function from ids to services has there that the same sequence updates.
  pub services-refine :
      (ws : List Write) (sid : ServiceId)
      → let services = run ws [] in
        let seen = run_view ws (λ k. none) sid in
        (get_service services sid ≡ ok_or seen (unknown_service sid))
        × (exists services sid ≡ viewed_exists seen)
        × (is_active services sid ≡ viewed_active seen)
  unfolding get_service exists is_active get try_get get_cloned
  services-refine ws sid =
      let v = run-IsView ws [] (λ k. none) (record { distinct = tt; reads = λ k. refl }) in
      (
        ap (λ o. ok_or o (unknown_service sid)) (v.reads sid),
        contains_key-get (run ws []) sid ∙ ground (arith, v.reads sid),
        ground (arith, v.reads sid),
      )
