-- ===== src/Browse/Overlap.antt =====
-- Requests for pages that overlap (webembed/src/app.js): `tableRequestController` of `loadTable`, and
-- any order in which actions on the table and the ends of requests follow one another. A request
-- that was aborted ends with the `AbortError`, whatever the server does.
pub mod Asking
pub mod Shown
use rowake.Prelude.{
  ℕ, suc, Text, Bool, true, false, Option, none, some, List, [], ◌∷◌, map, if◌then◌else◌, is_empty,
  ◌||◌, ◌==◌, nat_eq, filter, find, not,
}
use rowake.Workspace.{Settings}
use rowake.Values.{Host}
use rowake.Data.{Snapshot, Catalog, Topology}
use rowake.Browse.{Browse, Selected}
use rowake.Browse.Load.{PageRequest, PageResponse, page, failed, aborted, finish_load}
use rowake.Browse.Handlers.{
  select_table, open_topology_table, reload_table, add_filter, remove_filter, clear_filters,
  sort_column, clear_sort, apply_sort, previous_page, next_page, show_catalog,
}
use rowake.Browse.Related.{Side, open_related, back_related}

-- What makes a request for a page, or changes what one is asked for.
pub data Action : Type 0 where
  choose open_mapped : Selected → Action
  reload forget_filters forget_sort go_previous go_next back : Action
  filter_by : Text → Text → Text → Action
  drop_filter sort_by : Text → Action
  sort_in : Text → Text → Action
  show : Bool → Catalog → Action
  relate : Side → Option Topology → Text → Action
  -- What the handlers of connections do to the browser's part of the page: `changeConnection` up to
  -- its catalog (which `show` then brings, at once if it is cached), the first line of `loadCatalog`
  -- for a submission or a refresh, the `catch` of `changeConnection`, and a connection that is
  -- disconnected or removed.
  open_connection take_connection close_connection : Text → Action
  restore_connection : Text → Option Catalog → Action

unfoldable pub switch : Text → Browse → Browse
unfolding ◌==◌
switch id b =
    if is_empty id || id == b.connection_id
    then b
    else record b { connection_id = id; snapshot = none }

unfoldable pub disconnect : Text → Browse → Browse
unfolding ◌==◌
disconnect id b =
    if b.connection_id == id
    then record b { connection_id = []; catalog = none; snapshot = none }
    else b

unfoldable pub act : Host → Settings → Action → Browse → Browse × Option PageRequest
unfolding switch disconnect
act h settings (choose chosen) b = select_table settings chosen b
act h settings (open_mapped chosen) b = open_topology_table settings chosen b
act h settings reload b = reload_table settings b
act h settings forget_filters b = clear_filters settings b
act h settings forget_sort b = clear_sort settings b
act h settings go_previous b = previous_page settings b
act h settings go_next b = next_page settings b
act h settings back b = back_related h settings b.related_navigation b
act h settings (filter_by column operator value) b = add_filter settings column operator value b
act h settings (drop_filter id) b = remove_filter settings id b
act h settings (sort_by column) b = sort_column settings column b
act h settings (sort_in column direction) b = apply_sort settings column direction b
act h settings (show select_default catalog) b = show_catalog settings select_default catalog b
act h settings (relate side topology id) b = open_related h settings side topology id b
act h settings (open_connection id) b = (switch id b, none)
act h settings (take_connection id) b = (record b { connection_id = id }, none)
act h settings (close_connection id) b = (disconnect id b, none)
act h settings (restore_connection id catalog) b =
    (record b { connection_id = id; catalog = catalog }, none)

-- A request that has not ended.
pub record Flight : Type 0 where
  pub id : ℕ
  pub request : PageRequest
  pub is_aborted : Bool

-- `controller` is the id of the request that `tableRequestController` belongs to. `skipped` is not in
-- the program: it says whether, since the last request, an action left nothing that could be asked
-- for, since no table was selected or no connection was open.
pub record Overlap : Type 0 where
  pub browse : Browse
  pub flights : List Flight
  pub controller : ℕ
  pub skipped : Bool

abbrev pub start : Browse → Overlap
start b = record { browse = b; flights = []; controller = 0; skipped = false }

abbrev pub has_id : ℕ → Flight → Bool
has_id i f = nat_eq f.id i

-- `tableRequestController?.abort()`
abbrev pub abort : ℕ → Flight → Flight
abort i f = if has_id i f then record f { is_aborted = true } else f

-- A new controller takes the place of the one before, where a request is made.
unfoldable pub send : Overlap → Browse × Option PageRequest → Overlap
send s (b, none) = record s {
  browse = b;
  skipped = s.skipped || (is_empty b.connection_id || is_empty b.selected.table);
}
send s (b, some request) = record {
  browse = b;
  flights =
      record { id = suc s.controller; request = request; is_aborted = false }
      ∷ map (abort s.controller) s.flights;
  controller = suc s.controller;
  skipped = false;
}

-- How the server ends a request.
pub data Ending : Type 0 where
  answered : Snapshot → Ending
  refused : Ending

abbrev response : Bool → Ending → PageResponse
response true ending = aborted
response false (answered s) = page s
response false refused = failed

unfoldable pub settle : ℕ → Ending → Overlap → Overlap
unfolding finish_load
settle i ending s = elim (find (has_id i) s.flights) [
  | none ↦ s
  | some f ↦ record s {
    browse = finish_load f.request.cursor (response f.is_aborted ending) s.browse;
    flights = filter (λ g. not (has_id i g)) s.flights;
  }
]

pub data Event : Type 0 where
  ask : Settings → Action → Event
  end_of : ℕ → Ending → Event

unfoldable pub run : Host → List Event → Overlap → Overlap
unfolding send settle
run h [] s = s
run h (ask settings a ∷ events) s = run h events (send s (act h settings a s.browse))
run h (end_of i ending ∷ events) s = run h events (settle i ending s)
