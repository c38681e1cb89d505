-- ===== src/Completion.antt =====
-- The suggestions of the query editor (webembed/src/app.js): `querySchema`, `completionOption`,
-- `availableQueryColumns`. What CodeMirror does with them is its own. The names of schemas and
-- tables are taken not to be those of properties that every JavaScript object has.
pub mod Columns
pub mod Statement
pub mod Inserted
pub mod Context
use rowake.Prelude.{
  ℕ, Text, lit, ◌==◌, Bool, true, false, not, ◌&&◌, ◌||◌, Option, none, some, List, [], ◌∷◌, ◌++◌,
  map, if◌then◌else◌, leb, nat_eq, all, filter, elem, or_else, is_empty, or_default,
}
use rowake.Data.{Column, Table, Topology, Snapshot, Schema, TableEntry, Catalog}
use rowake.Browse.{Selected}
use rowake.Schema.{Dictionary, lookup, set}
use rowake.Quote.{quote_identifier}

-- `columnCompletionSection`, `tableCompletionSection`
pub data Section : Type 0 where
  column_section table_section : Section

-- A suggestion; `apply` is the text that is inserted in place of the label.
pub record Completion : Type 0 where
  pub label : Text
  pub type : Text
  pub detail : Text
  pub boost : ℕ
  pub section : Section
  pub apply : Option Text

abbrev pub is_letter : ℕ → Bool
is_letter c = (leb b'A' c && leb c b'Z') || (leb b'a' c && leb c b'z')

-- `[A-Za-z_]`, and `[A-Za-z0-9_$]`
unfoldable pub starts_name : ℕ → Bool
starts_name c = is_letter c || nat_eq c b'_'

unfoldable pub in_name : ℕ → Bool
in_name c = is_letter c || (leb b'0' c && leb c b'9') || nat_eq c b'_' || nat_eq c b'$'

-- `/^[A-Za-z_][A-Za-z0-9_$]*$/`
unfoldable pub is_plain : Text → Bool
unfolding starts_name in_name
is_plain [] = false
is_plain (c ∷ s) = starts_name c && all in_name s

-- `completionOption`
unfoldable pub completion_option : Text → Text → Text → ℕ → Section → Completion
unfolding is_plain quote_identifier
completion_option label type detail boost section = record {
  label = label;
  type = type;
  detail = detail;
  boost = boost;
  section = section;
  apply = if is_plain label then none else some (quote_identifier label);
}

-- the text that CodeMirror inserts: `apply`, or the label
abbrev pub inserted : Completion → Text
inserted option = or_default option.apply option.label

-- An entry of a schema: the table itself, and its columns.
pub record Node : Type 0 where
  pub self : Completion
  pub children : List Completion

abbrev table_boost : Selected → Text → Text → ℕ
table_boost chosen schema name = if schema == chosen.schema && name == chosen.table then 99 else 60

table_node : Selected → Text → Text → Text → List Completion → Node
unfolding ◌==◌
table_node chosen schema name kind children = record {
  self = record {
    label = name;
    type = lit "type";
    detail = or_else kind (lit "table");
    boost = table_boost chosen schema name;
    section = table_section;
    apply = none;
  };
  children = children;
}

column_child : Column → Completion
column_child c = record {
  label = c.name;
  type = lit "property";
  detail = or_else c.data_type (lit "column");
  boost = 70;
  section = column_section;
  apply = none;
}

-- `schema[namespace][name] = node`, after `schema[namespace] ||= {}`
unfoldable pub put_node :
    Text → Text → Node → Dictionary (Dictionary Node) → Dictionary (Dictionary Node)
unfolding set lookup
put_node namespace name node schema =
    set namespace (set name node (or_default (lookup namespace schema) [])) schema

module _ (chosen : Selected) where
  namespace_nodes : List TableEntry → Dictionary Node → Dictionary Node
  unfolding table_node set
  namespace_nodes [] nodes = nodes
  namespace_nodes (t ∷ ts) nodes =
      namespace_nodes ts (set t.name (table_node chosen t.schema t.name t.kind []) nodes)

  catalog_nodes : List Schema → Dictionary (Dictionary Node) → Dictionary (Dictionary Node)
  unfolding namespace_nodes set
  catalog_nodes [] schema = schema
  catalog_nodes (s ∷ ss) schema = catalog_nodes ss (set s.name (namespace_nodes s.tables []) schema)

  unfoldable pub topology_nodes :
      List Table → Dictionary (Dictionary Node) → Dictionary (Dictionary Node)
  unfolding table_node put_node column_child
  topology_nodes [] schema = schema
  topology_nodes (t ∷ ts) schema = topology_nodes ts (
      put_node t.schema t.name
        (table_node chosen t.schema t.name t.kind (map column_child t.columns)) schema)

  unfoldable pub snapshot_node : Snapshot → Node
  unfolding table_node column_child
  snapshot_node s = table_node chosen s.schema s.name (lit "table") (map column_child s.columns)

abbrev pub catalog_schemas : Option Catalog → List Schema
catalog_schemas none = []
catalog_schemas (some c) = c.schemas

-- `state.topology?.connection_id === state.connectionID`: the topology if it is the connection's
unfoldable pub own_topology : Text → Option Topology → Option Topology
unfolding ◌==◌
own_topology id none = none
own_topology id (some t) = if t.connection_id == id then some t else none

with_snapshot :
    Selected → Option Snapshot → Dictionary (Dictionary Node) → Dictionary (Dictionary Node)
unfolding snapshot_node put_node
with_snapshot chosen none schema = schema
with_snapshot chosen (some s) schema = put_node s.schema s.name (snapshot_node chosen s) schema

-- `querySchema`
unfoldable pub query_schema :
    Text
    → Selected
    → Option Catalog
    → Option Topology
    → Option Snapshot
    → Dictionary (Dictionary Node)
unfolding catalog_nodes topology_nodes own_topology with_snapshot
query_schema id chosen catalog topology snapshot =
    let base = catalog_nodes chosen (catalog_schemas catalog) [] in
    elim (own_topology id topology) [
      | some t ↦ topology_nodes chosen t.tables base
      | none ↦ with_snapshot chosen snapshot base
    ]

-- A table with columns, as `availableQueryColumns` reads it from the topology or the page.
pub record Source : Type 0 where
  pub name : Text
  pub columns : List Column

pub record Available : Type 0 where
  pub name : Text
  pub data_type : Text
  pub tables : List Text

abbrev table_source : Table → Source
table_source t = record { name = t.name; columns = t.columns }

abbrev snapshot_source : Option Snapshot → List Source
snapshot_source none = []
snapshot_source (some s) = record { name = s.name; columns = s.columns } ∷ []

-- The topology's tables, or the page where there are none.
unfoldable pub sources : Text → Option Topology → Option Snapshot → List Source
unfolding own_topology
sources id topology snapshot = elim (own_topology id topology) [
  | none ↦ snapshot_source snapshot
  | some t ↦ elim t.tables [ [] ↦ snapshot_source snapshot | u ∷ us ↦ map table_source (u ∷ us) ]
]

unfoldable pub with_table : Text → Available → Available
unfolding elem
with_table table a = record a {
  tables = if elem table a.tables then a.tables else a.tables ++ table ∷ [];
}

module _ (lower : Text → Text) where
  -- The branches for one column. The key of an entry of the `Map` is the lower case of its name.
  unfoldable pub put_column : Text → Column → List Available → List Available
  unfolding with_table ◌==◌
  put_column table c [] =
      record { name = c.name; data_type = or_else c.data_type (lit "column"); tables = table ∷ [] }
      ∷ []
  put_column table c (a ∷ as') =
      if lower a.name == lower c.name then with_table table a ∷ as' else a ∷ put_column table c as'

  unfoldable pub put_columns : Text → List Column → List Available → List Available
  unfolding put_column
  put_columns table [] found = found
  put_columns table (c ∷ cs) found = put_columns table cs (put_column table c found)

  unfoldable pub put_sources : List Source → List Available → List Available
  unfolding put_columns
  put_sources [] found = found
  put_sources (s ∷ ss) found = put_sources ss (put_columns s.name s.columns found)

  -- `normalizedTables.has(table.name.toLowerCase())`, or there are none
  unfoldable pub is_referenced : List Text → Source → Bool
  unfolding elem
  is_referenced [] s = true
  is_referenced (n ∷ ns) s = elem (lower s.name) (map lower (n ∷ ns))

  -- `availableQueryColumns`, over the tables that it finds
  unfoldable pub available_query_columns : List Text → List Source → List Available
  unfolding put_sources is_referenced
  available_query_columns names tables = put_sources (filter (is_referenced names) tables) []
