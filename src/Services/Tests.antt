-- ===== src/Services/Tests.antt =====
-- Examples of the services table.
use wavs.Prelude.{◌≡◌, refl, some, none, [], ◌∷◌, map, bytes_eq, if◌then◌else◌}
use wavs.Prelude.Map.{get}
use wavs.Prelude.Result.{ok_or}
use wavs.Prelude.Sorted.{IsSorted}
use wavs.Types.Service.{ServiceId, Service, hypercore_append, id}
use wavs.Services.Store.{
  Services, list, unbounded, in_bounds, get_service, exists, is_active, unknown_service,
  range_panics,
}
use wavs.Services.Listing.{list_lem}
use wavs.Services.Refinement.{
  run, run_view, saved, removed, run-IsDistinct, services-refine, viewed_exists, viewed_active,
}
use wavs.Samples.{crates, service_of}

abbrev echo : Service
echo = service_of (hypercore_append (7 ∷ []))

abbrev table : Services
table = run crates.hash (saved echo ∷ []) []

bounds_fine : range_panics unbounded unbounded ≡ wavs.Prelude.false
unfolding range_panics
bounds_fine = refl

list_lem_example :
    (listed : Services) × (list table unbounded unbounded ≡ some (map (λ e. e.1) listed))
    × IsSorted listed
    × ((sid : ServiceId)
        → get listed sid ≡ (if in_bounds unbounded unbounded sid then get table sid else none))
list_lem_example =
    list_lem table unbounded unbounded (run-IsDistinct crates.hash (saved echo ∷ [])) bounds_fine

services-refine_example :
    let services = run crates.hash (saved echo ∷ removed (9 ∷ []) ∷ []) [] in
    let seen =
      run_view crates.hash (saved echo ∷ removed (9 ∷ []) ∷ []) (λ k. none) (id crates.hash echo) in
    (get_service services (id crates.hash echo)
      ≡ ok_or seen (unknown_service (id crates.hash echo)))
    × (exists services (id crates.hash echo) ≡ viewed_exists seen)
    × (is_active services (id crates.hash echo) ≡ viewed_active seen)
services-refine_example =
    services-refine crates.hash (saved echo ∷ removed (9 ∷ []) ∷ []) (id crates.hash echo)
