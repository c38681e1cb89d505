-- ===== src/Session/Stored.antt =====
-- A session that is stored and loaded again.
use rowake.Prelude.{
  Text, ◌≡◌, refl, sym, ap, ◌∙◌, Bool, true, Option, some, List, [], ◌∷◌, if◌then◌else◌,
  find_of_any, any, length, ◌≤◌,
}
use rowake.Workspace.{
  QueryTab, Workspace, Platform, tab_limit, row_limits, statement_timeouts, elem_nat,
  workspace_json,
}
use rowake.Workspace.Bounds.{IsBounded, HasActive}
use rowake.Workspace.RoundTrip.{normalize_workspace-workspace_json}
use rowake.Session.{Session, Env, has_tab, active_query_tab, tabs_or, load_from, load_workspace}
use rowake.Session.Switching.{active-found}
use rowake.Session.Valid.{IsValid, active_query_tab-valid, IsValid-of_workspace}

-- Within the limits that only the stored form has.
pub record IsSmall (w : Workspace) : Type 0 where
  pub tab_count : length w.query_tabs ≤ tab_limit
  pub history : length w.query_history ≤ 100
  pub saved : length w.saved_queries ≤ 100
  pub recent : length w.recent_objects ≤ 50
  pub pinned : length w.pinned_objects ≤ 50
  pub snapshots : length w.schema_snapshots ≤ 10
  pub row_limit : elem_nat w.settings.row_limit row_limits ≡ true
  pub timeout : elem_nat w.settings.statement_timeout statement_timeouts ≡ true

HasActive-of_any : (ts : List QueryTab) (id : Text) → any (has_tab id) ts ≡ true → HasActive ts id
HasActive-of_any [] id h = cc
HasActive-of_any (t ∷ ts) id h = h

bounded : (s : Session) → IsValid s → IsSmall s.workspace → IsBounded s.workspace
bounded s v small = record {
  tab_count = small.tab_count;
  tabs = v.fits;
  active = HasActive-of_any s.query_tabs s.active_query_tab_id v.active;
  history = small.history;
  saved = small.saved;
  recent = small.recent;
  pinned = small.pinned;
  snapshots = small.snapshots;
  row_limit = small.row_limit;
  timeout = small.timeout;
}

tabs_or-found :
    (p : QueryTab → Bool) (ts kept : List QueryTab) → any p ts ≡ true → tabs_or ts kept ≡ ts
tabs_or-found p [] kept h = cc
tabs_or-found p (t ∷ ts) kept h = refl

module _ (e : Env) (s start : Session) (v : IsValid s) where
  loaded : Session
  loaded = record start { workspace = s.workspace }

  loaded-IsValid : IsValid loaded
  unfolding loaded
  loaded-IsValid = IsValid-of_workspace loaded v refl

  load_from-valid :
      load_from e (some s.workspace) start
      ≡ record loaded { query_sql = (active_query_tab e loaded).0.sql }
  unfolding load_from loaded
  load_from-valid =
      let (t, found) = active_query_tab-valid e loaded loaded-IsValid in
      rw
        (
          v.active,
          if◌then◌else◌,
          tabs_or-found (has_tab s.active_query_tab_id) s.query_tabs start.query_tabs v.active,
        )
        (ap (λ (r : Session). record r { query_sql = (active_query_tab e loaded).0.sql })
          (ap (λ (r : QueryTab × Session). r.1) found))

  sql-loaded : (active_query_tab e loaded).0.sql ≡ (active_query_tab e s).0.sql
  unfolding loaded
  sql-loaded =
      let (t, found) = find_of_any (has_tab s.active_query_tab_id) s.query_tabs v.active in
      ap (λ (r : QueryTab × Session). r.0.sql) (active-found e loaded t found)
      ∙ sym (ap (λ (r : QueryTab × Session). r.0.sql) (active-found e s t found))

-- What is loaded into a page from the stored form of a valid session within the limits is that
-- session's workspace, and the text of its active tab, if `JSON.parse` reads the text in storage as
-- the value that was written.
pub load_workspace-stored :
    (e : Env) (p : Platform) (s start : Session) (raw : Text)
    → IsValid s
    → IsSmall s.workspace
    → p.parse_json raw ≡ some (workspace_json s.workspace)
    → ((load_workspace e p (some raw) start).workspace ≡ s.workspace)
      × ((load_workspace e p (some raw) start).query_sql ≡ (active_query_tab e s).0.sql)
unfolding load_workspace loaded
load_workspace-stored e p s start raw v small parsed =
    let read =
      normalize_workspace-workspace_json p s.workspace (bounded s v small) v.named raw parsed in
    let same =
      ap (λ (o : Option Workspace). load_from e o start) read ∙ load_from-valid e s start v in
    (
      ap (λ (r : Session). r.workspace) same,
      ap (λ (r : Session). r.query_sql) same ∙ sql-loaded e s start v,
    )
