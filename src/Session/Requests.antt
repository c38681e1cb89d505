-- ===== src/Session/Requests.antt =====
-- The handlers that wait for the server: `runQuery` and `explainQuery`, in two steps each, since
-- other handlers may run while the request is under way.
use rowake.Prelude.{
  ℕ, Text, lit, Bool, true, false, ◌||◌, Option, none, some, [], ◌∷◌, ◌++◌, if◌then◌else◌, take,
  is_empty, trim,
}
use rowake.Json.{Json, obj, str, field, end, get, text_or}
use rowake.Session.{Session, Env, results, plan, active_query_tab, sync_active_query, render_query}

pub data Response : Type 0 where
  ok : Json → Response
  error : Text → Response

-- The body of a request.
pub record Query : Type 0 where
  pub connection_id : Text
  pub sql : Text
  pub limit : ℕ
  pub timeout_seconds : ℕ

module _ (e : Env) where
  -- `if (queryEditorView) state.querySQL = …; syncActiveQuery(state.querySQL)`
  unfoldable pub sync_query : Session → Session
  unfolding sync_active_query
  sync_query s = elim s.editor [
    | none ↦ sync_active_query e s.query_sql s
    | some doc ↦ sync_active_query e doc (record s { query_sql = doc })
  ]

  abbrev pub request : Session → Query
  request s = record {
    connection_id = e.connection_id;
    sql = s.query_sql;
    limit = s.settings.row_limit;
    timeout_seconds = s.settings.statement_timeout;
  }

  abbrev pub cannot_run : Session → Bool
  cannot_run s = is_empty e.connection_id || is_empty (trim s.query_sql)

  -- `runQuery` up to the request
  unfoldable pub run_query : Session → Session × Option Query
  unfolding sync_query trim render_query
  run_query s =
      let s' = sync_query s in
      if cannot_run s'
      then (s', none)
      else (let s'' = render_query e (record s' {
        query_running = true;
        query_result = none;
        query_error = [];
        result_mode = results;
      }) in
          (s'', some (request s'')))

  history_entry : Text → Text → Json → Json
  unfolding get text_or
  history_entry name sql result = obj (
      field (lit "id") (str (lit "history-" ++ e.stamp)) (
        field (lit "name") (str name) (
          field (lit "sql") (str sql) (
            field (lit "connection_scope") (str e.scope) (
              field (lit "created_at") (str (text_or (get (lit "captured_at") result) e.now))
                end)))))

  -- the rest of `runQuery`, in the state that it finds when the response is there
  unfoldable pub finish_query : Response → Session → Session
  unfolding active_query_tab history_entry render_query
  finish_query (ok result) s =
      let (tab, s') = active_query_tab e (record s { query_result = some result }) in
      let entry = history_entry tab.name s'.query_sql result in
      let w = record s'.workspace { query_history = take 100 (entry ∷ s'.query_history) } in
      render_query e (record s' { workspace = w; query_running = false })
  finish_query (error message) s =
      render_query e (record s { query_error = message; query_running = false })

  unfoldable pub explain_query : Session → Session × Option Query
  unfolding sync_query trim render_query
  explain_query s =
      let s' = sync_query s in
      if cannot_run s'
      then (s', none)
      else (let s'' =
            render_query e
              (record s' { explain_running = true; query_error = []; result_mode = plan }) in
          (s'', some (request s'')))

  unfoldable pub finish_explain : Response → Session → Session
  unfolding render_query
  finish_explain (ok result) s =
      render_query e (record s { explain_result = some result; explain_running = false })
  finish_explain (error message) s =
      render_query e
        (record s { query_error = message; explain_result = none; explain_running = false })
