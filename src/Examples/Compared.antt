-- ===== src/Examples/Compared.antt =====
-- Two captures of a small schema.
use rowake.Prelude.{Text, lit, ◌≡◌, refl, true, false, some, List, [], ◌∷◌, is_some, ◌==◌}
use rowake.Data.{Column, Index, Table, Relationship, Topology}
use rowake.Topology.{topology_groups}
use rowake.Topology.Laws.{groups_of, topology_groups-degrees}
use rowake.Schema.{SchemaSnapshot, diff_schema}
use rowake.Schema.Laws.{table_at, column_at, diff_schema-nil_sound}
use rowake.Schema.Same.{diff_schema-same}

abbrev id_column : Column
id_column = record {
  name = lit "id";
  data_type = lit "integer";
  nullable = false;
  default = [];
  primary_key = true;
}

abbrev note_column : Column
note_column = record {
  name = lit "note";
  data_type = lit "text";
  nullable = true;
  default = lit "''";
  primary_key = false;
}

abbrev by_note : Index
by_note = record {
  name = lit "by_note";
  columns = lit "note" ∷ [];
  unique = false;
  definition = [];
}

abbrev by_id : Index
by_id = record { name = lit "by_id"; columns = lit "id" ∷ []; unique = true; definition = [] }

abbrev orders : List Column → List Index → Table
orders columns indexes = record {
  id = lit "main.orders";
  schema = lit "main";
  name = lit "orders";
  kind = lit "table";
  columns = columns;
  indexes = indexes;
}

abbrev captured : Text → Table → SchemaSnapshot
captured now table = record {
  database = lit "shop";
  captured_at = now;
  topology = some (record { connection_id = lit "c1"; tables = table ∷ []; relationships = [] });
}

abbrev before : SchemaSnapshot
before = captured (lit "t0") (orders (id_column ∷ note_column ∷ []) (by_note ∷ by_id ∷ []))

-- The same columns and indexes in another order.
abbrev after : SchemaSnapshot
after = captured (lit "t1") (orders (note_column ∷ id_column ∷ []) (by_id ∷ by_note ∷ []))

sound_example :
    (is_some (table_at before (lit "main.orders")) ≡ is_some (table_at after (lit "main.orders")))
    × (column_at (table_at before (lit "main.orders")) (lit "note")
        ≡ column_at (table_at after (lit "main.orders")) (lit "note"))
unfolding diff_schema ◌==◌
sound_example = diff_schema-nil_sound before after (lit "main.orders") (lit "note") refl

abbrev twice : SchemaSnapshot
twice = captured (lit "t2") (orders (id_column ∷ note_column ∷ id_column ∷ []) (by_id ∷ []))

same_example : diff_schema twice (record twice { captured_at = lit "t3" }) ≡ []
same_example = diff_schema-same twice (record twice { captured_at = lit "t3" }) refl refl

-- Two of these tables with a relationship from the first to the second.
abbrev notes : Table
notes = record (orders (note_column ∷ []) []) { id = lit "main.notes"; name = lit "notes" }

abbrev reference : Relationship
reference = record {
  id = lit "fk";
  constraint_id = [];
  from_schema = [];
  from_table = lit "orders";
  from_column = lit "note";
  to_schema = lit "main";
  to_table = lit "notes";
  to_column = lit "note";
  on_update = [];
  on_delete = [];
}

abbrev both : Topology
both = record {
  connection_id = lit "c1";
  tables = orders (note_column ∷ []) [] ∷ notes ∷ [];
  relationships = reference ∷ [];
}

groups_example : topology_groups (λ t. t) both ≡ groups_of (λ t. t) both
groups_example = topology_groups-degrees (λ t. t) both
