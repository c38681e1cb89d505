-- ===== src/Browse/Load.antt =====
-- `loadTable`, in two steps: what it sends, and what it does with the answer.
use rowake.Prelude.{
  ℕ, Text, ◌≡◌, refl, true, false, ◌||◌, Option, none, some, List, [], map, if◌then◌else◌, is_empty,
}
use rowake.Workspace.{Settings}
use rowake.Data.{Snapshot}
use rowake.Browse.{Browse, Filter, Sort}

-- The body of the request for a page. A filter is sent without its id.
pub record PageRequest : Type 0 where
  pub connection_id : Text
  pub schema : Text
  pub table : Text
  pub limit : ℕ
  pub timeout_seconds : ℕ
  pub cursor : Text
  pub filters : List (Text × Text × Text)
  pub sort : Option Sort

-- `aborted` is the `AbortError` of a request that another one has replaced.
pub data PageResponse : Type 0 where
  page : Snapshot → PageResponse
  failed : PageResponse
  aborted : PageResponse

abbrev pub sent_filter : Filter → Text × Text × Text
sent_filter f = (f.column, f.operator, f.value)

abbrev pub page_request : Settings → Text → Browse → PageRequest
page_request settings cursor b = record {
  connection_id = b.connection_id;
  schema = b.selected.schema;
  table = b.selected.table;
  limit = settings.row_limit;
  timeout_seconds = settings.statement_timeout;
  cursor = cursor;
  filters = map sent_filter b.table_filters;
  sort = b.table_sort;
}

-- up to the request; without a connection or a table nothing is sent
unfoldable pub load_table : Settings → Text → Browse → Browse × Option PageRequest
load_table settings cursor b =
    if is_empty b.connection_id || is_empty b.selected.table
    then (b, none)
    else (record b { table_loading = true }, some (page_request settings cursor b))

-- from the answer to the request with this cursor; a page also enters the table into the recent
-- objects, which is `remember_object` of Objects
unfoldable pub finish_load : Text → PageResponse → Browse → Browse
finish_load cursor (page s) b = record b {
  snapshot = some s;
  table_cursor = cursor;
  selected_row = 0;
  selected_column = 0;
  inspector_open = false;
  table_search = [];
  data_control = [];
  table_loading = false;
}
finish_load cursor failed b = record b { snapshot = none; table_loading = false }
finish_load cursor aborted b = record b { table_loading = false }

-- Whatever the answer, a load leaves the connection, the selection, the filters, the sort and the
-- places to go back to as they were, and nothing is marked as loading afterwards.
pub finish_load_frame :
    (cursor : Text) (r : PageResponse) (b : Browse)
    → let b' = finish_load cursor r b in
      (b'.connection_id ≡ b.connection_id)
      × (b'.selected ≡ b.selected)
      × (b'.table_filters ≡ b.table_filters)
      × (b'.table_sort ≡ b.table_sort)
      × (b'.related_navigation ≡ b.related_navigation)
      × (b'.table_loading ≡ false)
unfolding finish_load
finish_load_frame cursor (page s) b = (refl, refl, refl, refl, refl, refl)
finish_load_frame cursor failed b = (refl, refl, refl, refl, refl, refl)
finish_load_frame cursor aborted b = (refl, refl, refl, refl, refl, refl)
