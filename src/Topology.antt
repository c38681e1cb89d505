-- ===== src/Topology.antt =====
-- The groups of the topology page: `topologyGroups` of webembed/src/app.js, which counts the
-- relationships at each table in two maps. `encodeURIComponent` is a parameter.
pub mod Laws
use rowake.Prelude.{
  ℕ, suc, ◌+◌, Text, lit, Bool, true, false, not, ◌&&◌, Option, none, some, List, [], ◌∷◌, ◌++◌,
  map, if◌then◌else◌, nat_eq, or_default, or_else,
}
use rowake.Data.{Relationship, Table, Topology}
use rowake.Schema.{Dictionary, lookup, set}

pub record Groups : Type 0 where
  pub source : List Table
  pub bridge : List Table
  pub target : List Table

-- `map.get(key) || 0`
unfoldable pub degree : Text → Dictionary ℕ → ℕ
unfolding lookup
degree k m = or_default (lookup k m) 0

-- `new Map(tables.map(table => [key, 0]))`
unfoldable pub zeroes : List Text → Dictionary ℕ → Dictionary ℕ
unfolding set
zeroes [] m = m
zeroes (k ∷ ks) m = zeroes ks (set k 0 m)

-- one more relationship at each of the keys, in turn
unfoldable pub count_all : List Text → Dictionary ℕ → Dictionary ℕ
unfolding set degree
count_all [] m = m
count_all (k ∷ ks) m = count_all ks (set k (degree k m + 1) m)

-- the branches on the two numbers of a table
unfoldable pub push_table : ℕ → ℕ → Table → Groups → Groups
push_table incoming outgoing t g =
    if not (nat_eq outgoing 0) && nat_eq incoming 0
    then record g { source = g.source ++ t ∷ [] }
    else if not (nat_eq incoming 0) && nat_eq outgoing 0
    then record g { target = g.target ++ t ∷ [] }
    else record g { bridge = g.bridge ++ t ∷ [] }

module _ (encode : Text → Text) where
  abbrev encoded : Text → Text → Text
  encoded schema table = encode (or_else schema (lit "main")) ++ lit "/" ++ encode table

  -- `topologyTableKey`
  unfoldable pub topology_table_key : Table → Text
  topology_table_key t = encoded t.schema t.name

  -- `topologyRelationshipKey`, for the two sides
  unfoldable pub from_key : Relationship → Text
  from_key r = encoded r.from_schema r.from_table

  unfoldable pub to_key : Relationship → Text
  to_key r = encoded r.to_schema r.to_table

  unfoldable pub push_tables : Dictionary ℕ → Dictionary ℕ → List Table → Groups → Groups
  unfolding push_table topology_table_key degree
  push_tables incoming outgoing [] g = g
  push_tables incoming outgoing (t ∷ ts) g =
      let k = topology_table_key t in
      push_tables incoming outgoing ts (push_table (degree k incoming) (degree k outgoing) t g)

  -- `incoming` and `outgoing`, from the keys of one side of the relationships
  unfoldable pub degrees : List Text → List Table → Dictionary ℕ
  unfolding topology_table_key zeroes count_all
  degrees keys tables = count_all keys (zeroes (map topology_table_key tables) [])

  -- `topologyGroups`
  unfoldable pub topology_groups : Topology → Groups
  unfolding degrees push_tables from_key to_key
  topology_groups topology =
      push_tables (degrees (map to_key topology.relationships) topology.tables)
        (degrees (map from_key topology.relationships) topology.tables) topology.tables
        (record { source = []; bridge = []; target = [] })
