-- ===== src/Session.antt =====
-- The query page of webembed/src/app.js: the tabs, the one live editor, and the lists that are kept
-- with the workspace.
pub mod Actions
pub mod Requests
pub mod Pages
pub mod Valid
pub mod Events
pub mod Switching
pub mod Stored
pub mod Format
use rowake.Prelude.{
  ℕ, zero, suc, ◌+◌, ◌-◌, Text, lit, ◌==◌, Bool, true, false, Option, none, some, List, [], ◌∷◌,
  ◌++◌, if◌then◌else◌, take, find, any, or_else, length,
}
use rowake.Json.{Json}
use rowake.Workspace.{QueryTab, Workspace, Platform, sql_limit, normalize_workspace}

pub data ResultMode : Type 0 where
  results plan : ResultMode

-- `state.workspacePanel`; `closed` is the empty string.
pub data Panel : Type 0 where
  closed history saved : Panel

pub record Session : Type 0 where
  pub workspace : Workspace
  pub open workspace use *
  pub query_sql : Text
  -- the document of `queryEditorView`, if there is one
  pub editor : Option Text
  pub query_result : Option Json
  pub query_error : Text
  pub query_running : Bool
  pub explain_result : Option Json
  pub explain_running : Bool
  pub result_mode : ResultMode
  pub panel : Panel

-- What the handlers read from elsewhere: the current connection, its scope, the clock, the names of
-- new things, and the document that the editor makes of the text that it is created with.
pub record Env : Type 0 where
  pub connected : Bool
  pub connection_id : Text
  pub scope : Text
  pub now : Text
  pub stamp : Text
  pub fresh_id : Text
  pub document : Text → Text

abbrev pub has_tab : Text → QueryTab → Bool
has_tab id tab = tab.id == id

abbrev pub scratch_name : Text
scratch_name = lit "scratch.sql"

abbrev pub with_tabs : List QueryTab → Text → Session → Session
with_tabs tabs active s = record s {
  workspace = record s.workspace { query_tabs = tabs; active_query_tab_id = active };
}

module _ (e : Env) where
  -- `activeQueryTab` where no tab has the active id
  unfoldable pub first_tab : List QueryTab → Session → QueryTab × Session
  first_tab (tab ∷ tabs) s = (tab, with_tabs (tab ∷ tabs) tab.id s)
  first_tab [] s =
      let tab : QueryTab = record {
        id = lit "query-" ++ e.stamp;
        name = scratch_name;
        sql = [];
        connection_scope = [];
      } in
      (tab, with_tabs (tab ∷ []) tab.id s)

  -- `activeQueryTab`: the tab, and the state that the call leaves
  unfoldable pub active_query_tab : Session → QueryTab × Session
  unfolding first_tab
  active_query_tab s = elim (find (has_tab s.active_query_tab_id) s.query_tabs) [
    | some tab ↦ (tab, s)
    | none ↦ first_tab s.query_tabs s
  ]

  -- the two assignments of `syncActiveQuery` to the tab
  unfoldable pub write_sql : Text → QueryTab → QueryTab
  write_sql sql tab = record tab {
    sql = sql;
    connection_scope = or_else tab.connection_scope e.scope;
  }

-- An assignment to a field of the first tab with this id.
unfoldable pub update_tab : Text → (QueryTab → QueryTab) → List QueryTab → List QueryTab
update_tab id f [] = []
update_tab id f (tab ∷ tabs) = if has_tab id tab then f tab ∷ tabs else tab ∷ update_tab id f tabs

unfoldable pub edit_active : (QueryTab → QueryTab) → Session → Session
unfolding update_tab
edit_active f s =
    with_tabs (update_tab s.active_query_tab_id f s.query_tabs) s.active_query_tab_id s

module _ (e : Env) where
  unfoldable pub sync_active_query : Text → Session → Session
  unfolding active_query_tab write_sql edit_active
  sync_active_query value s =
      let (tab, s') = active_query_tab e s in
      let sql = take sql_limit value in
      record (edit_active (write_sql e sql) s') { query_sql = sql }

  -- `if (queryEditorView) syncActiveQuery(queryEditorView.state.doc.toString())`
  unfoldable pub sync_editor : Session → Session
  unfolding sync_active_query
  sync_editor s = elim s.editor [ none ↦ s | some doc ↦ sync_active_query doc s ]

  -- what `shell` does to the state: the live editor is read into the active tab, and destroyed
  unfoldable pub shell : Session → Session
  unfolding sync_editor
  shell s = record (sync_editor s) { editor = none }

  -- `renderQuery`: the text of the new editor is taken before `shell` runs
  unfoldable pub render_query : Session → Session
  unfolding active_query_tab shell
  render_query s =
      if e.connected
      then (let (tab, s') = active_query_tab e s in
          let value = or_else tab.sql (lit "SELECT 1 AS result;") in
          record (shell (record s' { query_sql = tab.sql })) { editor = some (e.document value) })
      else shell s

abbrev pub tabs_or : List QueryTab → List QueryTab → List QueryTab
tabs_or [] kept = kept
tabs_or (t ∷ ts) kept = t ∷ ts

abbrev first_id : List QueryTab → Text
first_id [] = []
first_id (t ∷ ts) = t.id

-- the body of `loadWorkspace` behind the call of `normalizeWorkspace`
unfoldable pub load_from : Env → Option Workspace → Session → Session
unfolding active_query_tab
load_from e none s = s
load_from e (some w) s =
    let tabs = tabs_or w.query_tabs s.query_tabs in
    let active =
      if any (has_tab w.active_query_tab_id) w.query_tabs
      then w.active_query_tab_id
      else first_id tabs in
    let (tab, s') =
      active_query_tab e
        (record s { workspace = record w { query_tabs = tabs; active_query_tab_id = active } }) in
    record s' { query_sql = tab.sql }

-- `loadWorkspace`, over the text in storage
unfoldable pub load_workspace : Env → Platform → Option Text → Session → Session
unfolding load_from
load_workspace e p raw s = load_from e (normalize_workspace p raw) s
