-- ===== src/Services/Listing.antt =====
-- What `list` of services.rs returns.
use wavs.Prelude.{
  ◌≡◌, refl, ◌∙◌, ap, false, Option, none, some, [], ◌∷◌, map, bytes_eq, bytes_lt, if◌then◌else◌,
  retain, arith, eq_iff,
}
use wavs.Prelude.Map.{get, insert_by, get-insert_by, contains_key, contains_key-get}
use wavs.Prelude.Sorted.{IsSorted, insert_by-IsSorted, retain-IsSorted, get-retain_keys}
use wavs.Prelude.Distinct.{IsDistinct}
use wavs.Types.Service.{ServiceId, Service}
use wavs.Services.Store.{Services, Bound, list, collect, range_panics, in_bounds}

collect-IsSorted : (table tree : Services) → IsSorted tree → IsSorted (collect table tree)
unfolding collect
collect-IsSorted [] tree h = h
collect-IsSorted ((k, s) ∷ table) tree h =
    collect-IsSorted table (insert_by bytes_lt k s tree) (insert_by-IsSorted k s tree h)

abbrev or_else : Option Service → Option Service → Option Service
or_else none o = o
or_else (some s) o = some s

get-absent : (m : Services) (k : ServiceId) → contains_key m k ≡ false → get m k ≡ none
get-absent m k h = ground (arith, contains_key-get m k)

subst_get : (m : Services) (j k : ServiceId) → j ≡ k → get m j ≡ get m k
subst_get m j k e = ap (get m) e

nothing_else : (o : Option Service) → or_else o none ≡ o
nothing_else none = refl
nothing_else (some s) = refl

collect-get :
    (table tree : Services) (k : ServiceId)
    → IsDistinct table
    → get (collect table tree) k ≡ or_else (get table k) (get tree k)
unfolding collect get
collect-get [] tree k h = refl
collect-get ((j, s) ∷ table) tree k h = ground (
  arith,
  collect-get table (insert_by bytes_lt j s tree) k h.1,
  get-insert_by bytes_lt j k s tree,
  get-absent table j h.0,
  eq_iff j k,
  subst_get table j k,
)

-- From a table with distinct keys, `list` within bounds on which `range` does not panic returns the
-- services of a map whose ids strictly increase, and which has exactly the entries of the table whose
-- ids are within the bounds.
pub list_lem :
    (services : Services) (start end : Bound)
    → IsDistinct services
    → range_panics start end ≡ false
    → (listed : Services) × (list services start end ≡ some (map (λ e. e.1) listed))
      × IsSorted listed
      × ((sid : ServiceId)
          → get listed sid ≡ (if in_bounds start end sid then get services sid else none))
unfolding list get
list_lem services start end d fine = (
  retain (λ e. in_bounds start end e.0) (collect services []),
  rw fine refl,
  retain-IsSorted (in_bounds start end) _ (collect-IsSorted services [] tt),
  λ sid.
      get-retain_keys (in_bounds start end) (collect services []) sid
      ∙ ap (λ o. if in_bounds start end sid then o else none)
          (collect-get services [] sid d ∙ nothing_else (get services sid)),
)
