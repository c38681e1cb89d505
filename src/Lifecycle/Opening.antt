-- ===== src/Lifecycle/Opening.antt =====
-- The opening of a connection: `loadCatalog`, `changeConnection`, and the handlers of the connection
-- list (webembed/src/app.js).
pub mod Changing
pub mod Removal
use rowake.Prelude.{
  ℕ, Text, lit, ◌==◌, Bool, true, false, not, ◌||◌, ◌&&◌, or_default, Option, none, some, List, [],
  ◌∷◌, ◌++◌, if◌then◌else◌, find, filter, is_empty,
}
use rowake.Workspace.{Settings}
use rowake.Data.{Connection, Catalog}
use rowake.Connect.Entry.{Engine, sqlite, postgres}
use rowake.Schema.{Dictionary, lookup, set}
use rowake.Browse.{Browse}
use rowake.Browse.Load.{PageRequest, PageResponse, finish_load}
use rowake.Browse.Handlers.{show_catalog}
use rowake.Lifecycle.{
  Page, Answer, failed, ok, toast, render_connections, has_connection_id, replace_connection,
  navigate, Change, Submission, After, changed, submitted, refreshed, Await, done, for_catalog,
  for_table, finish, connections_route,
}

-- `cache.delete(key)`
unfoldable pub delete {ℓ} : {A : Type ℓ} → Text → Dictionary A → Dictionary A
delete k [] = []
delete k ((j, v) ∷ m) = if j == k then delete k m else (j, v) ∷ delete k m

unfoldable pub advice : Engine → Text
advice postgres = lit ". Check the endpoint, credentials, database, and SSL mode."
advice sqlite = lit ". Check the file path and try again."

abbrev pub change_of : Text → Page → Change
change_of destination s = record {
  destination = destination;
  previous_id = s.browse.connection_id;
  previous_catalog = s.browse.catalog;
}

-- What a change sets before its first request.
abbrev pub starting : Text → Text → Page → Page
starting id destination s = record s {
  connecting_id = id;
  form_error = if destination == connections_route then none else s.form_error;
  browse = record s.browse { snapshot = none };
  topology = none;
  topology_error = [];
  topology_zoom = 10;
  query_result = none;
  query_error = [];
}

abbrev pub uncached : Text → Page → Page
unfolding delete
uncached id s = record s {
  catalog_cache = delete id s.catalog_cache;
  topology_cache = delete id s.topology_cache;
}

abbrev pub relisted : Connection → Page → Page
unfolding replace_connection
relisted c s = record s { connections = replace_connection c s.connections }

module _ (settings : Settings) (persistence : Bool) where
  -- the end of `loadCatalog`: without a table to load, the caller goes on
  unfoldable pub table_or_finish : After → Option PageRequest → Page → Page × Await
  unfolding finish
  table_or_finish after none s = (finish persistence after s, done)
  table_or_finish after (some r) s = (s, for_table r after)

  -- `loadCatalog` from where the catalog is there
  unfoldable pub catalog_here : Bool → After → Catalog → Page → Page × Await
  unfolding show_catalog table_or_finish
  catalog_here select_default after catalog s =
      let (b, request) = show_catalog settings select_default catalog s.browse in
      table_or_finish after request (record s { browse = b })

  unfoldable pub cached_or_ask : Text → Bool → After → Option Catalog → Page → Page × Await
  unfolding catalog_here
  cached_or_ask id select_default after none s = (s, for_catalog id select_default after)
  cached_or_ask id select_default after (some catalog) s =
      catalog_here select_default after catalog s

  -- `loadCatalog`
  unfoldable pub load_catalog : Text → Bool → After → Page → Page × Await
  unfolding cached_or_ask lookup
  load_catalog id select_default after s =
      let s' = record s { browse = record s.browse { connection_id = id } } in
      cached_or_ask id select_default after (lookup id s.catalog_cache) s'

  -- the `catch` around `loadCatalog`; in `refresh-catalog` there is none
  unfoldable pub catalog_failed : Text → After → Page → Page
  unfolding advice
  catalog_failed message (changed c) s = toast message (record s {
    browse = record s.browse { connection_id = c.previous_id; catalog = c.previous_catalog };
    connecting_id = [];
    form_error = if c.destination == connections_route then none else s.form_error;
  })
  catalog_failed message (submitted u) s = record s {
    form_error = some (message ++ advice s.flow.engine);
  }
  catalog_failed message refreshed s = s

  unfoldable pub answer_catalog : Answer Catalog → Text → Bool → After → Page → Page × Await
  unfolding catalog_here catalog_failed set
  answer_catalog (failed message) id select_default after s = (catalog_failed message after s, done)
  answer_catalog (ok catalog) id select_default after s =
      catalog_here select_default after catalog
        (record s { catalog_cache = set id catalog s.catalog_cache })

  -- the answer of the server to what a handler waits for
  pub data Reply : Type 0 where
    catalog_reply : Answer Catalog → Reply
    table_reply : PageResponse → Reply

  -- a reply of the other kind does not come
  unfoldable pub resume : Await → Reply → Page → Page × Await
  unfolding answer_catalog finish_load finish
  resume (for_catalog id select_default after) (catalog_reply a) s =
      answer_catalog a id select_default after s
  resume (for_table r after) (table_reply p) s =
      (finish persistence after (record s { browse = finish_load r.cursor p s.browse }), done)
  resume w r s = (s, w)

  -- `changeConnection`
  unfoldable pub change_connection : Text → Text → Page → Page × Await
  unfolding load_catalog navigate
  change_connection id destination s =
      if is_empty id || id == s.browse.connection_id
      then (if destination == connections_route then navigate (lit "browse") s else s, done)
      else load_catalog id true (changed (change_of destination s)) (starting id destination s)

  -- `refresh-catalog`
  unfoldable pub refresh_catalog : Page → Page × Await
  unfolding load_catalog delete
  refresh_catalog s =
      let id = s.browse.connection_id in load_catalog id false refreshed (uncached id s)

  -- `reconnectConnection`, from the answer to the request to connect again
  unfoldable pub answer_reconnect : Text → Answer Connection → Page → Page × Await
  unfolding change_connection replace_connection
  answer_reconnect id (failed message) s =
      (render_connections (toast message (record s { connecting_id = [] })), done)
  answer_reconnect id (ok connection) s =
      change_connection id connections_route (relisted connection s)

-- What the server tells of a connection that it keeps. A missing text is the empty one, and a
-- missing port, or 0, is `none`.
pub record Profile : Type 0 where
  pub name : Text
  pub engine : Text
  pub data_source_name : Text
  pub host : Text
  pub port : Option Text
  pub username : Text
  pub password_env : Text
  pub secret_service : Text
  pub secret_account : Text
  pub database : Text
  pub ssl_mode : Text

-- The password that `reconnectConnection` sends. The profile is asked for only for PostgreSQL;
-- `asked` is what `window.prompt` returns.
password_of : Option Text → Answer (Option Profile) → Text
password_of asked (failed message) = []
password_of asked (ok none) = or_default asked []
password_of asked (ok (some p)) =
    if is_empty p.password_env && is_empty p.secret_service then or_default asked [] else []

sent_password : Option Text → Answer (Option Profile) → Option Connection → Text
unfolding password_of
sent_password asked profile none = []
sent_password asked profile (some c) =
    if c.engine == lit "postgres" then password_of asked profile else []

-- The connection is looked up before the profile is asked for.
unfoldable pub reconnect :
    Option Connection → Text → Option Text → Answer (Option Profile) → Page → Page × Text
unfolding sent_password
reconnect found id asked profile s =
    (render_connections (record s { connecting_id = id }), sent_password asked profile found)

unfoldable pub forget : Text → Page → Page
forget id s =
    if s.browse.connection_id == id
    then record s {
      browse = record s.browse { connection_id = []; catalog = none; snapshot = none };
    }
    else s

-- `disconnectConnection`, from its answer
unfoldable pub answer_disconnect : Text → Answer Connection → Page → Page
unfolding replace_connection forget
answer_disconnect id (failed message) s = toast message s
answer_disconnect id (ok connection) s =
    render_connections
      (toast (lit "Disconnected " ++ connection.name) (forget id (relisted connection s)))

-- `removeConnection`: the connection whose removal is confirmed and asked for
unfoldable pub remove_connection : Text → Bool → Page → Option Connection
remove_connection id confirmed s = elim (find (has_connection_id id) s.connections) [
  | none ↦ none
  | some c ↦ if confirmed then some c else none
]

unfoldable pub without : Text → List Connection → List Connection
without id cs = filter (λ d. not (has_connection_id id d)) cs

unfoldable pub removed : Text → Page → Page
unfolding delete without
removed id s = record (uncached id s) { connections = without id s.connections }

-- from the answer to the request to remove it
unfoldable pub answer_remove : Connection → Text → Answer Text → Page → Page
unfolding removed forget
answer_remove c id (failed message) s = toast message s
answer_remove c id (ok body) s =
    render_connections (toast (lit "Removed " ++ c.name) (forget id (removed id s)))
