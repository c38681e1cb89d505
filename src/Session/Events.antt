-- ===== src/Session/Events.antt =====
-- Any sequence of what may happen on the query page.
use rowake.Prelude.{ℕ, Text, Bool, List, [], ◌∷◌, All}
use rowake.Session.{Session, Env, ResultMode, Panel}
use rowake.Session.Actions.{
  open_new_tab, activate_query_tab, close_query_tab, rename_query, edit_document, persist_timer,
  toggle_panel, show_mode, open_query, remove_saved_query, save_active_query,
}
use rowake.Session.Format.{format_query}
use rowake.Session.Pages.{query_table, set_row_limit, set_statement_timeout, render_route}
use rowake.Session.Requests.{Response, run_query, finish_query, explain_query, finish_explain}
use rowake.Session.Valid.{IsValid, IsUsable}
use rowake.Session.Valid.Tabs.{
  open_new_tab-IsValid, activate_query_tab-IsValid, close_query_tab-IsValid, rename_query-IsValid,
}
use rowake.Session.Valid.Handlers.{
  edit_document-IsValid, persist_timer-IsValid, toggle_panel-IsValid, show_mode-IsValid,
  open_query-IsValid, remove_saved_query-IsValid, save_active_query-IsValid, run_query-IsValid,
  explain_query-IsValid, finish_query-IsValid, finish_explain-IsValid,
}
use rowake.Session.Valid.Pages.{
  query_table-IsValid, set_row_limit-IsValid, set_statement_timeout-IsValid, render_route-IsValid,
  format_query-IsValid,
}

-- What may happen on the query page, in any order.
pub data Event : Type 0 where
  new_tab persist save format : Event
  activate close remove_saved open_saved open_history rename edit : Text → Event
  toggle : Panel → Event
  show : ResultMode → Event
  -- "Query" for a table, the choice of a setting, and the drawing of the query page or another
  query_from : Text → Text → Event
  choose_limit choose_timeout : ℕ → Event
  draw : Bool → Event
  run_it explain_it : Event
  query_response explain_response : Response → Event

unfoldable pub handle : Env → Event → Session → Session
unfolding open_new_tab persist_timer save_active_query activate_query_tab close_query_tab
    remove_saved_query open_query rename_query edit_document toggle_panel show_mode run_query
    explain_query finish_query finish_explain format_query query_table set_row_limit
    set_statement_timeout render_route
handle e new_tab s = open_new_tab e s
handle e persist s = persist_timer e s
handle e save s = save_active_query e s
handle e (activate id) s = activate_query_tab e id s
handle e (close id) s = close_query_tab e id s
handle e (remove_saved id) s = remove_saved_query e id s
handle e (open_saved id) s = open_query e s.saved_queries id s
handle e (open_history id) s = open_query e s.query_history id s
handle e (rename value) s = rename_query e value s
handle e (edit doc) s = edit_document e doc s
handle e (toggle p) s = toggle_panel e p s
handle e (show m) s = show_mode e m s
handle e format s = format_query e s
handle e (query_from schema table) s = query_table e schema table s
handle e (choose_limit limit) s = set_row_limit limit s
handle e (choose_timeout timeout) s = set_statement_timeout timeout s
handle e (draw query) s = render_route e query s
handle e run_it s = (run_query e s).0
handle e explain_it s = (explain_query e s).0
handle e (query_response r) s = finish_query e r s
handle e (explain_response r) s = finish_explain e r s

-- Each event comes with what its handler reads from elsewhere.
unfoldable pub handle_all : List (Env × Event) → Session → Session
unfolding handle
handle_all [] s = s
handle_all ((e, event) ∷ events) s = handle_all events (handle e event s)

handle-IsValid :
    (e : Env) (event : Event) (s : Session) → IsUsable e → IsValid s → IsValid (handle e event s)
unfolding handle
handle-IsValid e new_tab s u v = open_new_tab-IsValid e u s v
handle-IsValid e persist s u v = persist_timer-IsValid e u s v
handle-IsValid e save s u v = save_active_query-IsValid e u s v
handle-IsValid e (activate id) s u v = activate_query_tab-IsValid e u id s v
handle-IsValid e (close id) s u v = close_query_tab-IsValid e u id s v
handle-IsValid e (remove_saved id) s u v = remove_saved_query-IsValid e u id s v
handle-IsValid e (open_saved id) s u v = open_query-IsValid e u s.saved_queries id s v
handle-IsValid e (open_history id) s u v = open_query-IsValid e u s.query_history id s v
handle-IsValid e (rename value) s u v = rename_query-IsValid e u value s v
handle-IsValid e (edit doc) s u v = edit_document-IsValid e u doc s v
handle-IsValid e (toggle p) s u v = toggle_panel-IsValid e u p s v
handle-IsValid e (show m) s u v = show_mode-IsValid e u m s v
handle-IsValid e format s u v = format_query-IsValid e u s v
handle-IsValid e (query_from schema table) s u v = query_table-IsValid e u schema table s v
handle-IsValid e (choose_limit limit) s u v = set_row_limit-IsValid limit s v
handle-IsValid e (choose_timeout timeout) s u v = set_statement_timeout-IsValid timeout s v
handle-IsValid e (draw query) s u v = render_route-IsValid e u query s v
handle-IsValid e run_it s u v = run_query-IsValid e u s v
handle-IsValid e explain_it s u v = explain_query-IsValid e u s v
handle-IsValid e (query_response r) s u v = finish_query-IsValid e u r s v
handle-IsValid e (explain_response r) s u v = finish_explain-IsValid e u r s v

-- After any sequence of events on the query page there is a tab with the active id, and every tab
-- has an id and a name and keeps its name, SQL and scope within the limits, if this was so before
-- and new ids are not empty and connection scopes are within the limit.
pub handle_all-IsValid :
    (events : List (Env × Event)) (s : Session)
    → All (λ (p : Env × Event). IsUsable p.0) events
    → IsValid s
    → IsValid (handle_all events s)
unfolding handle_all
handle_all-IsValid [] s us v = v
handle_all-IsValid ((e, event) ∷ events) s us v =
    handle_all-IsValid events (handle e event s) us.1 (handle-IsValid e event s us.0 v)
