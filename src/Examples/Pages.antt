-- ===== src/Examples/Pages.antt =====
-- The table browser on a small page.
use rowake.Prelude.{Text, lit, ◌≡◌, refl, false, none, some, [], ◌∷◌, arith, ◌==◌}
use rowake.Values.{null, string}
use rowake.Data.{Column, Relationship, Topology, Snapshot}
use rowake.Browse.{Browse, Selected, Sort, asc, desc}
use rowake.Browse.Load.{finish_load, page}
use rowake.Browse.Related.{outgoing, place, open_related, back_related, back_related-open_related}
use rowake.Browse.Grid.{
  right, down, search, press, handle_inputs, render_rows, IsOnGrid, handle_inputs-IsOnGrid,
}
use rowake.Examples.{host, settings}

abbrev column : Text → Column
column name = record {
  name = name;
  data_type = lit "text";
  nullable = false;
  default = [];
  primary_key = false;
}

abbrev pub customers : Selected
customers = record { schema = lit "main"; table = lit "customers" }

abbrev pub orders_page : Snapshot
orders_page = record {
  schema = lit "main";
  name = lit "orders";
  columns = column (lit "id") ∷ column (lit "customer") ∷ [];
  rows = (string (lit "1") ∷ string (lit "ada") ∷ []) ∷ (string (lit "2") ∷ null ∷ []) ∷ [];
  primary_key = lit "id" ∷ [];
  previous_cursor = [];
  next_cursor = lit "p2";
}

abbrev pub browse : Browse
browse = record {
  connection_id = lit "c1";
  catalog = none;
  selected = record { schema = lit "main"; table = lit "orders" };
  snapshot = some orders_page;
  selected_row = 0;
  selected_column = 0;
  inspector_open = false;
  table_tab = lit "rows";
  table_search = [];
  table_filters =
      record { id = 1; column = lit "customer"; operator = lit "equals"; value = lit "ada" } ∷ [];
  table_sort = some (record { column = lit "id"; direction = desc });
  table_cursor = lit "p1";
  data_control = [];
  filter_serial = 1;
  table_loading = false;
  related_navigation = [];
}

abbrev to_customers : Relationship
to_customers = record {
  id = lit "fk";
  constraint_id = [];
  from_schema = lit "main";
  from_table = lit "orders";
  from_column = lit "customer";
  to_schema = lit "main";
  to_table = lit "customers";
  to_column = lit "name";
  on_update = [];
  on_delete = [];
}

abbrev pub topology : Topology
topology = record { connection_id = lit "c1"; tables = []; relationships = to_customers ∷ [] }

abbrev by_id : Sort
by_id = record { column = lit "id"; direction = asc }

related_example :
    let there =
      finish_load []
        (page orders_page)
        (open_related host settings outgoing (some topology) (lit "fk") browse).0 in
    let back = (back_related host settings there.related_navigation there).0 in
    (place back ≡ place browse) × (back.related_navigation ≡ [])
unfolding open_related ◌==◌
related_example =
    back_related-open_related host settings outgoing (some topology) (lit "fk") []
      (page orders_page) browse _ refl

grid_example : IsOnGrid host orders_page (
    handle_inputs host orders_page
      (press right 0 0 ∷ press down 0 1 ∷ search (lit "ada") ∷ [])
      (render_rows host orders_page browse))
grid_example =
    handle_inputs-IsOnGrid host orders_page
      (press right 0 0 ∷ press down 0 1 ∷ search (lit "ada") ∷ []) browse (omega arith)
