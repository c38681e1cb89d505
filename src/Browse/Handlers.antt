-- ===== src/Browse/Handlers.antt =====
-- The actions on the table browser, each with the request that it makes.
pub mod Laws
use rowake.Prelude.{
  ℕ, ◌+◌, Text, lit, Bool, true, false, not, ◌&&◌, ◌||◌, Option, none, some, List, [], ◌∷◌, ◌++◌,
  if◌then◌else◌, ◌==◌, filter, any, find, or_else, elem, decimal,
}
use rowake.Workspace.{Settings}
use rowake.Data.{Snapshot, Catalog, Schema, TableEntry}
use rowake.Browse.{Browse, Selected, Filter, Sort, Direction, asc, desc}
use rowake.Browse.Load.{PageRequest, load_table}

abbrev pub data_tab : Text
data_tab = lit "data"

-- the assignments that go with a new table, without its name
unfoldable pub forget_table : Browse → Browse
forget_table b = record b {
  snapshot = none;
  inspector_open = false;
  table_filters = [];
  table_sort = none;
  table_cursor = [];
}

unfoldable pub needs_no_value : Text → Bool
unfolding elem
needs_no_value operator = elem operator (lit "is-null" ∷ lit "is-not-null" ∷ [])

-- the sort after a click on a column's head
unfoldable pub next_sort : Text → Option Sort → Option Sort
next_sort column none = some (record { column = column; direction = asc })
next_sort column (some sort) =
    if sort.column == column
    then (elim sort.direction [
      | asc ↦ some (record { column = column; direction = desc })
      | desc ↦ none
    ])
    else some (record { column = column; direction = asc })

abbrev pub cursor_of : (Snapshot → Text) → Option Snapshot → Text
cursor_of f none = []
cursor_of f (some s) = f s

unfoldable pub has_selected : Selected → Schema → Bool
has_selected chosen schema =
    schema.name == chosen.schema && any (λ t. t.name == chosen.table) schema.tables

unfoldable pub first_table : List Schema → Selected
first_table [] = record { schema = []; table = [] }
first_table (schema ∷ rest) = elim schema.tables [
  | [] ↦ record { schema = schema.name; table = [] }
  | t ∷ ts ↦ record { schema = or_else t.schema schema.name; table = t.name }
]

module _ (settings : Settings) where
  -- `select-table`, and the choice in `mobile-object-picker`
  unfoldable pub select_table : Selected → Browse → Browse × Option PageRequest
  unfolding forget_table load_table
  select_table chosen b =
      load_table settings [] (forget_table (record b { selected = chosen; table_tab = data_tab }))

  -- `open-topology-table`
  unfoldable pub open_topology_table : Selected → Browse → Browse × Option PageRequest
  unfolding load_table
  open_topology_table chosen b =
      let b' = record b { selected = chosen; table_tab = data_tab; snapshot = none } in
      load_table settings b'.table_cursor b'

  -- `reload-table`
  unfoldable pub reload_table : Browse → Browse × Option PageRequest
  unfolding load_table
  reload_table b = load_table settings b.table_cursor b

  -- a new query of the same table starts on its first page
  unfoldable pub load_first_page : Browse → Browse × Option PageRequest
  unfolding load_table
  load_first_page b = load_table settings [] (record b { table_cursor = [] })

  -- the submission of `table-filter-form`
  unfoldable pub add_filter : Text → Text → Text → Browse → Browse × Option PageRequest
  unfolding needs_no_value load_first_page
  add_filter column operator value b =
      let serial = b.filter_serial + 1 in
      let op = or_else operator (lit "contains") in
      let new : Filter = record {
        id = serial;
        column = column;
        operator = op;
        value = if needs_no_value op then [] else value;
      } in
      load_first_page
        (record b { filter_serial = serial; table_filters = b.table_filters ++ new ∷ [] })

  -- `remove-table-filter`
  unfoldable pub remove_filter : Text → Browse → Browse × Option PageRequest
  unfolding load_first_page decimal
  remove_filter id b =
      let kept = filter (λ f. not (decimal f.id == id)) b.table_filters in
      load_first_page (record b { table_filters = kept })

  -- `clear-table-filters`
  unfoldable pub clear_filters : Browse → Browse × Option PageRequest
  unfolding load_first_page
  clear_filters b = load_first_page (record b { table_filters = [] })

  -- `sort-column`
  unfoldable pub sort_column : Text → Browse → Browse × Option PageRequest
  unfolding next_sort load_first_page
  sort_column column b = load_first_page (record b { table_sort = next_sort column b.table_sort })

  -- `clear-table-sort`
  unfoldable pub clear_sort : Browse → Browse × Option PageRequest
  unfolding load_first_page
  clear_sort b = load_first_page (record b { table_sort = none })

  -- the submission of `table-sort-form`
  unfoldable pub apply_sort : Text → Text → Browse → Browse × Option PageRequest
  unfolding load_first_page
  apply_sort column direction b =
      let chosen : Sort = record {
        column = column;
        direction = if or_else direction (lit "asc") == lit "desc" then desc else asc;
      } in
      load_first_page (record b { table_sort = some chosen })

  -- `previous-table-page`
  unfoldable pub previous_page : Browse → Browse × Option PageRequest
  unfolding load_table
  previous_page b = load_table settings (cursor_of (λ s. s.previous_cursor) b.snapshot) b

  -- `next-table-page`
  unfoldable pub next_page : Browse → Browse × Option PageRequest
  unfolding load_table
  next_page b = load_table settings (cursor_of (λ s. s.next_cursor) b.snapshot) b

  -- the part of `loadCatalog` behind the request for the catalog
  unfoldable pub show_catalog : Bool → Catalog → Browse → Browse × Option PageRequest
  unfolding has_selected first_table load_table
  show_catalog select_default catalog b =
      let shown = record b { catalog = some catalog } in
      let kept = any (has_selected b.selected) catalog.schemas in
      let chosen : Browse =
        if select_default || not kept
        then record shown {
          selected = first_table catalog.schemas;
          table_filters = [];
          table_sort = none;
          table_cursor = [];
        }
        else shown in
      load_table settings chosen.table_cursor chosen
