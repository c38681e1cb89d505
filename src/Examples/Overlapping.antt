-- ===== src/Examples/Overlapping.antt =====
-- Two requests for pages that overlap.
use rowake.Prelude.{lit, ◌≡◌, refl, false, none, some, List, [], ◌∷◌, find}
use rowake.Browse.Load.{PageRequest}
use rowake.Browse.Overlap.{
  Flight, Overlap, start, has_id, send, settle, choose, sort_by, refused, Event, ask, end_of, run,
}
use rowake.Browse.Overlap.Shown.{IsAnswer, run-IsAnswer, settle-loading}
use rowake.Examples.{host, settings}
use rowake.Examples.Pages.{browse, customers, orders_page}

abbrev events : List Event
events =
    ask settings (choose customers) ∷ ask settings (sort_by (lit "name")) ∷ end_of 1 refused ∷ []

newest_example : IsAnswer 2 orders_page (run host events (start browse))
newest_example = run-IsAnswer host events browse 2 orders_page

abbrev request : PageRequest
request = record {
  connection_id = lit "c1";
  schema = lit "main";
  table = lit "customers";
  limit = 100;
  timeout_seconds = 15;
  cursor = [];
  filters = [];
  sort = none;
}

abbrev flight : Flight
flight = record { id = 1; request = request; is_aborted = false }

abbrev asked_once : Overlap
asked_once = record { browse = browse; flights = flight ∷ []; controller = 1; skipped = false }

loading_example :
    let asked = send asked_once (browse, some request) in
    let after = settle 1 refused asked in
    (after.browse.table_loading ≡ false)
    × (after.browse.snapshot ≡ browse.snapshot)
    × (find (has_id after.controller) after.flights
        ≡ some (record { id = 2; request = request; is_aborted = false }))
loading_example = settle-loading asked_once browse request flight refused refl
