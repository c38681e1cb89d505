-- ===== src/Session/Actions.antt =====
-- The handlers of the query page that finish at once.
use rowake.Prelude.{
  ℕ, ◌+◌, ◌-◌, Text, lit, ◌==◌, not, Option, none, some, List, [], ◌∷◌, ◌++◌, if◌then◌else◌, take,
  find, filter, any, find_index, erase_idx, get_elem?, length, or_else, is_empty, decimal, trim,
}
use rowake.Json.{Json, obj, str, field, end, get, is_text, text_or, assign}
use rowake.Workspace.{QueryTab, name_limit, sql_limit}
use rowake.Session.{
  Session, Env, ResultMode, results, Panel, closed, history, saved, has_tab, scratch_name,
  with_tabs, active_query_tab, edit_active, sync_active_query, sync_editor, render_query,
}

abbrev pub clear_results : Session → Session
clear_results s = record s { query_result = none; explain_result = none }

-- The panel after its button was pressed.
abbrev pub toggled : Panel → Panel → Panel
toggled history history = closed
toggled saved saved = closed
toggled p shown = p

-- `tabs[i].id`
abbrev pub id_at : List QueryTab → ℕ → Text → Text
id_at tabs i fallback = elim (get_elem? tabs i) [ none ↦ fallback | some tab ↦ tab.id ]

-- the assignments to the only tab
abbrev pub empty_tab : QueryTab → QueryTab
empty_tab tab = record tab { sql = []; name = scratch_name }

module _ (e : Env) where
  unfoldable pub new_query_tab : Text → Text → Session → Session
  unfolding sync_editor
  new_query_tab sql name s =
      let s' = sync_editor e s in
      let tab : QueryTab = record {
        id = e.fresh_id;
        name = take name_limit (or_else name (lit "Query " ++ decimal (length s'.query_tabs + 1)));
        sql = take sql_limit sql;
        connection_scope = e.scope;
      } in
      record (clear_results (with_tabs (s'.query_tabs ++ tab ∷ []) e.fresh_id s')) {
        query_sql = tab.sql;
        result_mode = results;
      }

  -- the action `new-query-tab`
  unfoldable pub open_new_tab : Session → Session
  unfolding new_query_tab render_query
  open_new_tab s = render_query e (new_query_tab [] [] s)

  unfoldable pub activate_query_tab : Text → Session → Session
  unfolding sync_editor active_query_tab render_query
  activate_query_tab id s =
      let s' = sync_editor e s in
      if any (has_tab id) s'.query_tabs
      then (let (tab, s'') = active_query_tab e (with_tabs s'.query_tabs id s') in
          render_query e
            (record (clear_results s'') { query_sql = tab.sql; result_mode = results }))
      else s'

  -- the branch of `closeQueryTab` that removes the tab at `index`
  unfoldable pub remove_tab : Text → ℕ → Session → Session
  unfolding active_query_tab
  remove_tab id index s =
      let tabs = erase_idx s.query_tabs index in
      if s.active_query_tab_id == id
      then (let (tab, s') =
            active_query_tab e (with_tabs tabs (id_at tabs (index - 1) s.active_query_tab_id) s) in
          record s' { query_sql = tab.sql })
      else with_tabs tabs s.active_query_tab_id s

  -- `closeQueryTab` up to its call of `renderQuery`; `none` is the early return
  unfoldable pub close_tab : Text → List QueryTab → Session → Option Session
  unfolding remove_tab
  close_tab id (tab ∷ []) s =
      some (record (with_tabs (empty_tab tab ∷ []) s.active_query_tab_id s) { query_sql = [] })
  close_tab id tabs s = elim (find_index (has_tab id) tabs) [
    | none ↦ none
    | some index ↦ some (remove_tab id index s)
  ]

  unfoldable pub close_query_tab : Text → Session → Session
  unfolding close_tab render_query
  close_query_tab id s = elim (close_tab id s.query_tabs s) [
    | none ↦ s
    | some s' ↦ render_query e (clear_results s')
  ]

  -- the input of `data-query-name`
  unfoldable pub rename_query : Text → Session → Session
  unfolding active_query_tab edit_active
  rename_query value s =
      let (tab, s') = active_query_tab e s in
      edit_active (λ t. record t { name = take name_limit (or_else value (lit "Untitled query")) })
        s'

  -- the editor's update listener, for a change that leaves the document `doc`
  unfoldable pub edit_document : Text → Session → Session
  unfolding sync_active_query
  edit_document doc s = elim s.editor [
    | none ↦ s
    | some old ↦ sync_active_query e doc (record s { editor = some doc; query_sql = doc })
  ]

  -- what the timer of `persistWorkspace` does to the state before it stores it
  unfoldable pub persist_timer : Session → Session
  unfolding sync_active_query
  persist_timer s = sync_active_query e s.query_sql s

  unfoldable pub toggle_panel : Panel → Session → Session
  unfolding render_query
  toggle_panel p s = render_query e (record s { panel = toggled p s.panel })

  unfoldable pub show_mode : ResultMode → Session → Session
  unfolding render_query
  show_mode mode s = render_query e (record s { result_mode = mode })

  unfoldable pub open_item : Option Json → Session → Session
  unfolding new_query_tab render_query get text_or
  open_item none s = s
  open_item (some item) s =
      let s' =
        new_query_tab (text_or (get (lit "sql") item) []) (text_or (get (lit "name") item) []) s in
      render_query e (record s' { panel = closed })

  -- `open-saved-query` and `open-history-query`, over the list that they search
  unfoldable pub open_query : List Json → Text → Session → Session
  unfolding open_item is_text get
  open_query source id s = open_item (find (λ item. is_text id (get (lit "id") item)) source) s

  unfoldable pub remove_saved_query : Text → Session → Session
  unfolding render_query is_text get
  remove_saved_query id s =
      let kept = filter (λ item. not (is_text id (get (lit "id") item))) s.saved_queries in
      render_query e (record s { workspace = record s.workspace { saved_queries = kept } })

  abbrev pub saved_id : QueryTab → Text
  saved_id tab = lit "saved-" ++ tab.id

  unfoldable pub saved_query : QueryTab → Json
  saved_query tab = obj (
      field (lit "id") (str (saved_id tab)) (
        field (lit "name") (str (or_else tab.name (lit "Untitled query"))) (
          field (lit "sql") (str tab.sql) (
            field (lit "connection_scope") (str e.scope)
              (field (lit "created_at") (str e.now) end)))))

  -- `Object.assign` to the first saved query with this id
  unfoldable pub assign_saved : Text → Json → List Json → Option (List Json)
  unfolding is_text get assign
  assign_saved id item [] = none
  assign_saved id item (old ∷ items) =
      if is_text id (get (lit "id") old)
      then some (assign old item ∷ items)
      else elim (assign_saved id item items) [ none ↦ none | some rest ↦ some (old ∷ rest) ]

  unfoldable pub put_saved : QueryTab → List Json → List Json
  unfolding saved_query assign_saved
  put_saved tab items = elim (assign_saved (saved_id tab) (saved_query tab) items) [
    | none ↦ saved_query tab ∷ items
    | some items' ↦ items'
  ]

  unfoldable pub save_active_query : Session → Session
  unfolding sync_editor active_query_tab trim put_saved
  save_active_query s =
      let (tab, s') = active_query_tab e (sync_editor e s) in
      if is_empty (trim tab.sql) then s' else record s' {
        workspace = record s'.workspace { saved_queries = put_saved tab s'.saved_queries };
      }
