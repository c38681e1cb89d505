-- ===== src/Browse/Related.antt =====
-- Related records: `selectedRelationshipGroups`, `openRelatedRelationship` and
-- `backRelatedNavigation`.
use rowake.Prelude.{
  ℕ, ◌+◌, Text, lit, ◌≡◌, false, ◌&&◌, Option, none, some, List, [], ◌∷◌, ◌++◌, arith,
  if◌then◌else◌, ◌==◌, filter, find_index, get_elem?, or_else, length, subst, sym, ◌∙◌,
}
use rowake.Workspace.{Settings}
use rowake.Values.{Host, Value, undefined, null, object, raw_value}
use rowake.Data.{Relationship, Topology, Snapshot, Column}
use rowake.Browse.{Browse, Selected, Filter, Place}
use rowake.Browse.Load.{PageRequest, PageResponse, load_table, finish_load, finish_load_frame}

abbrev pub main_schema : Text
main_schema = lit "main"

-- `relationship.constraint_id || relationship.id`
unfoldable pub group_key : Relationship → Text
group_key r = or_else r.constraint_id r.id

pub record Group : Type 0 where
  pub id : Text
  pub relationships : List Relationship

-- one step of `group`: to the group with this key, or to a new group behind the others
unfoldable pub add_to_group : Relationship → List Group → List Group
unfolding group_key
add_to_group r [] = record { id = group_key r; relationships = r ∷ [] } ∷ []
add_to_group r (g ∷ gs) =
    if g.id == group_key r
    then record g { relationships = g.relationships ++ r ∷ [] } ∷ gs
    else g ∷ add_to_group r gs

group_into : List Group → List Relationship → List Group
unfolding add_to_group
group_into gs [] = gs
group_into gs (r ∷ rs) = group_into (add_to_group r gs) rs

unfoldable pub group : List Relationship → List Group
unfolding group_into
group rs = group_into [] rs

pub data Side : Type 0 where
  outgoing incoming : Side

-- the schema, table and column at the selected table's side
abbrev pub near : Side → Relationship → Text × Text × Text
near outgoing r = (or_else r.from_schema main_schema, r.from_table, r.from_column)
near incoming r = (or_else r.to_schema main_schema, r.to_table, r.to_column)

-- and at the other table's side
abbrev pub far : Side → Relationship → Text × Text × Text
far outgoing r = near incoming r
far incoming r = near outgoing r

-- `selectedRelationshipGroups`, for one side
unfoldable pub selected_groups : Side → Topology → Selected → List Group
unfolding group
selected_groups side topology chosen = group (
    filter (λ r. (near side r).0 == chosen.schema && (near side r).1 == chosen.table)
      topology.relationships)

-- `String(value)`
string_of : Host → Value → Text
unfolding raw_value
string_of h undefined = lit "undefined"
string_of h null = lit "null"
string_of h (object j) = h.object_text j
string_of h v = raw_value h v

-- `String(row[index] ?? "")` at the column of this name; there is no value at index -1
value_at : Host → Snapshot → List Value → Text → Text
unfolding string_of
value_at h s row column = elim (find_index (λ (c : Column). c.name == column) s.columns) [
  | none ↦ []
  | some i ↦ elim (get_elem? row i) [
    | none ↦ []
    | some undefined ↦ []
    | some null ↦ []
    | some v ↦ string_of h v
  ]
]

-- the filters on the other table, with the serial numbers that are used up
related_filters : Host → Side → Snapshot → List Value → ℕ → List Relationship → List Filter
unfolding value_at
related_filters h side s row serial [] = []
related_filters h side s row serial (r ∷ rs) =
    record {
      id = serial + 1;
      column = (far side r).2;
      operator = lit "equals";
      value = value_at h s row (near side r).2;
    }
    ∷ related_filters h side s row (serial + 1) rs

abbrev pub place : Browse → Place
place b = record {
  selected = b.selected;
  filters = b.table_filters;
  sort = b.table_sort;
  cursor = b.table_cursor;
}

module _ (h : Host) (settings : Settings) where
  -- the state in which the related records are asked for
  unfoldable pub go_related :
      Side → Snapshot → List Value → Relationship → List Relationship → Browse → Browse
  unfolding related_filters
  go_related side s row r rs b = record b {
    filter_serial = b.filter_serial + length (r ∷ rs);
    related_navigation = place b ∷ b.related_navigation;
    selected = record { schema = (far side r).0; table = (far side r).1 };
    table_filters = related_filters h side s row b.filter_serial (r ∷ rs);
    table_sort = none;
    table_cursor = [];
    snapshot = none;
    inspector_open = false;
  }

  unfoldable pub go_found :
      Side
      → Option Snapshot
      → Option (List Value)
      → List Relationship
      → Browse
      → Browse × Option PageRequest
  unfolding go_related load_table
  go_found side (some s) (some row) (r ∷ rs) b =
      load_table settings [] (go_related side s row r rs b)
  go_found side s row rs b = (b, none)

  abbrev pub row_of : Option Snapshot → ℕ → Option (List Value)
  row_of none i = none
  row_of (some s) i = get_elem? s.rows i

  -- `openRelatedRelationship`
  unfoldable pub open_related : Side → Option Topology → Text → Browse → Browse × Option PageRequest
  unfolding go_found group_key
  open_related side none id b = (b, none)
  open_related side (some topology) id b =
      go_found side b.snapshot (row_of b.snapshot b.selected_row)
        (filter (λ r. group_key r == id) topology.relationships) b

  unfoldable pub restore : Place → List Place → Browse → Browse
  restore p places b = record b {
    related_navigation = places;
    selected = p.selected;
    table_filters = p.filters;
    table_sort = p.sort;
    table_cursor = p.cursor;
    snapshot = none;
    inspector_open = false;
  }

  -- `backRelatedNavigation`
  unfoldable pub back_related : List Place → Browse → Browse × Option PageRequest
  unfolding load_table restore
  back_related [] b = (b, none)
  back_related (p ∷ places) b = load_table settings p.cursor (restore p places b)

  go_found-place :
      (side : Side) (s : Option Snapshot) (row : Option (List Value)) (rs : List Relationship)
      (b : Browse) (q : PageRequest)
      → (go_found side s row rs b).1 ≡ some q
      → (go_found side s row rs b).0.related_navigation ≡ place b ∷ b.related_navigation
  unfolding go_found
  go_found-place side (some s) (some row) (r ∷ rs) b q e = ground arith
  go_found-place side none row rs b q e = cc
  go_found-place side (some s) none rs b q e = cc
  go_found-place side (some s) (some row) [] b q e = cc

  load_table-place : (cursor : Text) (b : Browse) → place (load_table settings cursor b).0 ≡ place b
  unfolding load_table
  load_table-place cursor b = ground arith

  load_table-places :
      (cursor : Text) (b : Browse)
      → (load_table settings cursor b).0.related_navigation ≡ b.related_navigation
  unfolding load_table
  load_table-places cursor b = ground arith

  back_related-place :
      (p : Place) (places : List Place) (x : Browse)
      → let back = (back_related (p ∷ places) x).0 in
        (place back ≡ p) × (back.related_navigation ≡ places)
  unfolding back_related restore
  back_related-place p places x = (
    load_table-place p.cursor (restore p places x),
    load_table-places p.cursor (restore p places x),
  )

  -- After related records were asked for, and whatever the answer was, "Back" returns to the table,
  -- the filters, the sort and the page that were left, and the places before that stay.
  pub back_related-open_related :
      (side : Side) (topology : Option Topology) (id cursor : Text) (answer : PageResponse)
      (b : Browse) (q : PageRequest)
      → (open_related side topology id b).1 ≡ some q
      → let there = finish_load cursor answer (open_related side topology id b).0 in
        let back = (back_related there.related_navigation there).0 in
        (place back ≡ place b) × (back.related_navigation ≡ b.related_navigation)
  unfolding open_related
  back_related-open_related side none id cursor answer b q e = cc
  back_related-open_related side (some topology) id cursor answer b q e =
      let there = finish_load cursor answer (open_related side (some topology) id b).0 in
      subst
        (λ places.
          let back = (back_related places there).0 in
          (place back ≡ place b) × (back.related_navigation ≡ b.related_navigation))
        (sym ((finish_load_frame cursor answer _).4 ∙ go_found-place side _ _ _ b q e))
        (back_related-place (place b) b.related_navigation there)
