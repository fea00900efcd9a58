-- ===== src/Services/Store.antt =====
-- services.rs: `Services` and its operations. `hash` is the SHA-256 of `ServiceId::hash`.
use wavs.Prelude.{
  Bool, true, false, ◌&&◌, not, Option, none, some, List, [], ◌∷◌, map, Bytes, bytes_eq, bytes_lt,
  ◌==◌, if◌then◌else◌, retain,
}
use wavs.Prelude.Map.{Map, insert, insert_by, remove, contains_key, get}
use wavs.Prelude.Result.{Result, ok, err, ok_or, ◌>>=◌}
use wavs.Types.Service.{ServiceId, WorkflowId, Service, Workflow, ServiceStatus, active, paused, id}
use wavs.Services.Table.{get_cloned}

pub data ServicesError : Type 0 where
  unknown_service : ServiceId → ServicesError
  unknown_workflow : Bytes → ServiceId → WorkflowId → ServicesError

abbrev pub Services : Type 0
Services = Map ServiceId Service

unfoldable pub try_get : Services → ServiceId → Option Service
unfolding get_cloned
try_get services sid = get_cloned services sid

unfoldable pub get_service : Services → ServiceId → Result ServicesError Service
unfolding try_get
get_service services sid = ok_or (try_get services sid) (unknown_service sid)

unfoldable pub get_workflow : Services → ServiceId → WorkflowId → Result ServicesError Workflow
unfolding get_service
get_workflow services sid wid = do
  service ← get_service services sid
  ok_or (get service.workflows wid) (unknown_workflow service.name sid wid)

unfoldable pub exists : Services → ServiceId → Bool
exists services sid = contains_key services sid

abbrev pub status_is_active : ServiceStatus → Bool
status_is_active active = true
status_is_active paused = false

unfoldable pub is_active : Services → ServiceId → Bool
unfolding get_service
is_active services sid = elim (get_service services sid) [
  | ok service ↦ status_is_active service.status
  | err _ ↦ false
]

unfoldable pub remove_service : Services → ServiceId → Services
remove_service services sid = remove sid services

unfoldable pub save : (Bytes → ServiceId) → Services → Service → Services
unfolding id
save hash services service = insert (id hash service) service services

pub data Bound : Type 0 where
  unbounded : Bound
  included excluded : ServiceId → Bound

-- `BTreeMap::range` panics on a start above the end, and on equal bounds that are both excluded.
unfoldable pub range_panics : Bound → Bound → Bool
range_panics (included a) (included b) = bytes_lt b a
range_panics (included a) (excluded b) = bytes_lt b a
range_panics (excluded a) (included b) = bytes_lt b a
range_panics (excluded a) (excluded b) = if bytes_lt b a then true else a == b
range_panics _ _ = false

abbrev pub above : Bound → ServiceId → Bool
above unbounded k = true
above (included a) k = not (bytes_lt k a)
above (excluded a) k = bytes_lt a k

abbrev pub below : Bound → ServiceId → Bool
below unbounded k = true
below (included b) k = not (bytes_lt b k)
below (excluded b) k = bytes_lt k b

unfoldable pub in_bounds : Bound → Bound → ServiceId → Bool
in_bounds start end k = above start k && below end k

-- The first loop of `list`, into the `BTreeMap`.
unfoldable pub collect : Services → Services → Services
collect [] tree = tree
collect ((sid, service) ∷ table) tree = collect table (insert_by bytes_lt sid service tree)

-- None where `range` panics.
unfoldable pub list : Services → Bound → Bound → Option (List Service)
unfolding range_panics in_bounds collect
list services start end =
    if range_panics start end
    then none
    else some (map (λ e. e.1) (retain (λ e. in_bounds start end e.0) (collect services [])))
