-- ===== src/Session/Pages.antt =====
-- What the other pages and controls of webembed/src/app.js do to the query page: the action
-- `query-table`, the change of the two settings, and the drawing of pages by `renderRoute`.
use rowake.Prelude.{ℕ, Text, lit, Bool, ◌++◌, if◌then◌else◌}
use rowake.Quote.{table_statement}
use rowake.Workspace.{Settings, row_limits, statement_timeouts, elem_nat}
use rowake.Session.{Session, Env, render_query, shell}
use rowake.Session.Actions.{new_query_tab}

-- The action `query-table` up to `navigate`, for the selected table. The page is drawn later, when
-- the hash of the location has changed.
unfoldable pub query_table : Env → Text → Text → Session → Session
unfolding new_query_tab table_statement
query_table e schema table s =
    new_query_tab e (table_statement schema table s.settings.row_limit) (table ++ lit ".sql") s

abbrev with_settings : Settings → Session → Session
with_settings settings s = record s { workspace = record s.workspace { settings = settings } }

-- the change of `data-setting="row-limit"` to a number
unfoldable pub set_row_limit : ℕ → Session → Session
set_row_limit limit s =
    if elem_nat limit row_limits
    then with_settings (record s.settings { row_limit = limit }) s
    else s

-- the change of `data-setting="statement-timeout"` to a number
unfoldable pub set_statement_timeout : ℕ → Session → Session
set_statement_timeout timeout s =
    if elem_nat timeout statement_timeouts
    then with_settings (record s.settings { statement_timeout = timeout }) s
    else s

-- `renderRoute`, while nothing is loading: whether the route is that of the query page
unfoldable pub render_route : Env → Bool → Session → Session
unfolding render_query shell
render_route e query s = if query then render_query e s else shell e s
