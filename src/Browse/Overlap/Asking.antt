-- ===== src/Browse/Overlap/Asking.antt =====
-- What the actions on the table of webembed/src/app.js ask for.
use rowake.Prelude.{
  Text, ◌≡◌, refl, Bool, true, ◌||◌, ◌==◌, ◌+◌, ◌++◌, lit, or_else, any, decimal, ◌⊎◌, inl, inr,
  Option, none, some, List, [], ◌∷◌, map, if◌then◌else◌, filter, not, is_empty, Bool-cases,
  either_branch,
}
use rowake.Workspace.{Settings}
use rowake.Values.{Host, Value}
use rowake.Data.{Snapshot, Topology, Relationship, Catalog}
use rowake.Browse.{Browse, Place, asc, desc}
use rowake.Browse.Load.{PageRequest, sent_filter, load_table}
use rowake.Browse.Handlers.{
  select_table, open_topology_table, reload_table, add_filter, remove_filter, clear_filters,
  sort_column, clear_sort, apply_sort, previous_page, next_page, show_catalog, load_first_page,
  forget_table, next_sort, has_selected, first_table, data_tab, cursor_of, needs_no_value,
}
use rowake.Browse.Related.{
  Side, open_related, back_related, go_found, go_related, restore, row_of, group_key,
}
use rowake.Browse.Overlap.{
  Action, choose, open_mapped, reload, forget_filters, forget_sort, go_previous, go_next, back,
  filter_by, drop_filter, sort_by, sort_in, show, relate, act, open_connection, take_connection,
  close_connection, restore_connection, switch, disconnect,
}

-- The table, the filters and the sort are those of the page.
abbrev pub MatchesTable : PageRequest → Browse → Type 0
MatchesTable q b =
    (q.schema ≡ b.selected.schema)
    × (q.table ≡ b.selected.table)
    × (q.filters ≡ map sent_filter b.table_filters)
    × (q.sort ≡ b.table_sort)

-- The request is for the connection of the page too.
abbrev pub Matches : PageRequest → Browse → Type 0
Matches q b = (q.connection_id ≡ b.connection_id) × MatchesTable q b

-- Nothing can be asked for: there is no connection, or no table is selected.
abbrev pub HasNone : Browse → Type 0
HasNone b = is_empty b.connection_id || is_empty b.selected.table ≡ true

-- Both pages have the same table, filters and sort.
abbrev pub SameTable : Browse → Browse → Type 0
SameTable a b =
    (a.selected.schema ≡ b.selected.schema)
    × (a.selected.table ≡ b.selected.table)
    × (a.table_filters ≡ b.table_filters)
    × (a.table_sort ≡ b.table_sort)

-- What an action leaves: its request is for what is selected then; without a request the table is
-- as before, or there is nothing to ask for.
unfoldable pub Outcome : Browse → Browse × Option PageRequest → Type 0
Outcome b (b', none) = SameTable b' b ⊎ HasNone b'
Outcome b (b', some q) = Matches q b'

load_table-Outcome :
    (b : Browse) (settings : Settings) (cursor : Text) (x : Browse)
    → Outcome b (load_table settings cursor x)
unfolding load_table Outcome
load_table-Outcome b settings cursor x =
    elim (Bool-cases (is_empty x.connection_id || is_empty x.selected.table)) [
      | inl e ↦ rw (e, if◌then◌else◌) (inr e)
      | inr e ↦ rw (e, if◌then◌else◌) (refl, (refl, refl, refl, refl))
    ]

unchanged-Outcome : (b : Browse) → Outcome b (b, none)
unfolding Outcome
unchanged-Outcome b = inl (refl, refl, refl, refl)

module _ (h : Host) (settings : Settings) (b : Browse) where
  go_found-Outcome :
      (side : Side) (s : Option Snapshot) (row : Option (List Value)) (rs : List Relationship)
      → Outcome b (go_found h settings side s row rs b)
  unfolding go_found
  go_found-Outcome side none row rs = unchanged-Outcome b
  go_found-Outcome side (some s) none rs = unchanged-Outcome b
  go_found-Outcome side (some s) (some row) [] = unchanged-Outcome b
  go_found-Outcome side (some s) (some row) (r ∷ rs) =
      load_table-Outcome b settings [] (go_related h settings side s row r rs b)

  back_related-Outcome : (places : List Place) → Outcome b (back_related h settings places b)
  unfolding back_related
  back_related-Outcome [] = unchanged-Outcome b
  back_related-Outcome (p ∷ places) =
      load_table-Outcome b settings p.cursor (restore h settings p places b)

  open_related-Outcome :
      (side : Side) (topology : Option Topology) (id : Text)
      → Outcome b (open_related h settings side topology id b)
  unfolding open_related
  open_related-Outcome side none id = unchanged-Outcome b
  open_related-Outcome side (some t) id =
      go_found-Outcome side b.snapshot (row_of h settings b.snapshot b.selected_row)
        (filter (λ r. group_key r == id) t.relationships)

  first_page-Outcome : (x : Browse) → Outcome b (load_first_page settings x)
  unfolding load_first_page
  first_page-Outcome x = load_table-Outcome b settings [] (record x { table_cursor = [] })

  show_catalog-Outcome :
      (select_default : Bool) (catalog : Catalog)
      → Outcome b (show_catalog settings select_default catalog b)
  unfolding show_catalog
  show_catalog-Outcome select_default catalog =
      let shown : Browse = record b { catalog = some catalog } in
      let x : Browse =
        if select_default || not (any (has_selected b.selected) catalog.schemas)
        then record shown {
          selected = first_table catalog.schemas;
          table_filters = [];
          table_sort = none;
          table_cursor = [];
        }
        else shown in
      load_table-Outcome b settings x.table_cursor x

  add_filter-Outcome :
      (column operator value : Text) → Outcome b (add_filter settings column operator value b)
  unfolding add_filter
  add_filter-Outcome column operator value =
      let op = or_else operator (lit "contains") in
      first_page-Outcome (record b {
        filter_serial = b.filter_serial + 1;
        table_filters =
            b.table_filters
            ++ record {
              id = b.filter_serial + 1;
              column = column;
              operator = op;
              value = if needs_no_value op then [] else value;
            }
              ∷ [];
      })

  switch-SameTable : (id : Text) → SameTable (switch id b) b
  unfolding switch
  switch-SameTable id =
      either_branch (λ (x : Browse). SameTable x b) (is_empty id || id == b.connection_id) b
        (record b { connection_id = id; snapshot = none }) (refl, refl, refl, refl)
        (refl, refl, refl, refl)

  disconnect-SameTable : (id : Text) → SameTable (disconnect id b) b
  unfolding disconnect
  disconnect-SameTable id =
      either_branch (λ (x : Browse). SameTable x b) (b.connection_id == id)
        (record b { connection_id = []; catalog = none; snapshot = none }) b
        (refl, refl, refl, refl) (refl, refl, refl, refl)

  pub act-Outcome : (a : Action) → Outcome b (act h settings a b)
  unfolding act select_table open_topology_table reload_table clear_filters clear_sort previous_page
      next_page remove_filter sort_column apply_sort Outcome
  act-Outcome (choose chosen) =
      load_table-Outcome b settings []
        (forget_table (record b { selected = chosen; table_tab = data_tab }))
  act-Outcome (open_mapped chosen) =
      load_table-Outcome b settings b.table_cursor
        (record b { selected = chosen; table_tab = data_tab; snapshot = none })
  act-Outcome reload = load_table-Outcome b settings b.table_cursor b
  act-Outcome forget_filters = first_page-Outcome (record b { table_filters = [] })
  act-Outcome forget_sort = first_page-Outcome (record b { table_sort = none })
  act-Outcome go_previous =
      load_table-Outcome b settings (cursor_of (λ s. s.previous_cursor) b.snapshot) b
  act-Outcome go_next = load_table-Outcome b settings (cursor_of (λ s. s.next_cursor) b.snapshot) b
  act-Outcome back = back_related-Outcome b.related_navigation
  act-Outcome (filter_by column operator value) = add_filter-Outcome column operator value
  act-Outcome (drop_filter id) =
      first_page-Outcome
        (record b { table_filters = filter (λ f. not (decimal f.id == id)) b.table_filters })
  act-Outcome (sort_by column) =
      first_page-Outcome (record b { table_sort = next_sort column b.table_sort })
  act-Outcome (sort_in column direction) = first_page-Outcome (record b {
    table_sort = some (record {
      column = column;
      direction = if or_else direction (lit "asc") == lit "desc" then desc else asc;
    });
  })
  act-Outcome (show select_default catalog) = show_catalog-Outcome select_default catalog
  act-Outcome (relate side topology id) = open_related-Outcome side topology id
  act-Outcome (open_connection id) = inl (switch-SameTable id)
  act-Outcome (take_connection id) = inl (refl, refl, refl, refl)
  act-Outcome (close_connection id) = inl (disconnect-SameTable id)
  act-Outcome (restore_connection id catalog) = inl (refl, refl, refl, refl)
