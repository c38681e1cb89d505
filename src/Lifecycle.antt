-- ===== src/Lifecycle.antt =====
-- The connections of webembed/src/app.js: which are listed, which one is open, and the requests that
-- open, close and remove them. A handler that waits for the server is two functions: up to the
-- request, with what its closure holds, and from the answer.
pub mod Opening
pub mod Form
pub mod Listed
pub mod Mapping
use rowake.Prelude.{
  ℕ, Text, lit, ◌==◌, Bool, true, false, not, ◌||◌, ◌&&◌, Option, none, some, List, [], ◌∷◌, ◌++◌,
  if◌then◌else◌, starts_with, find, filter, is_empty, elem, nat_eq,
}
use rowake.Json.{Json}
use rowake.Workspace.{Settings}
use rowake.Data.{Connection, Catalog, Topology}
use rowake.Schema.{Dictionary, lookup, set}
use rowake.Connect.Entry.{AddFlow}
use rowake.Browse.{Browse}
use rowake.Browse.Load.{PageRequest, PageResponse, finish_load}
use rowake.Browse.Handlers.{show_catalog}

-- `topology_zoom` is in tenths.
pub record Page : Type 0 where
  pub browse : Browse
  pub connections : List Connection
  pub catalog_cache : Dictionary Catalog
  pub topology : Option Topology
  pub topology_cache : Dictionary Topology
  pub topology_loading : Bool
  pub topology_error : Text
  pub topology_zoom : ℕ
  pub topology_expanded : List Text
  pub query_result : Option Json
  pub query_error : Text
  pub route : Text
  pub hash : Text
  pub flow : AddFlow
  pub form_open : Bool
  pub connecting_id : Text
  pub testing_connection : Bool
  -- the text of the `.connection-form-error` on the page, where it is not hidden
  pub form_error : Option Text
  -- the last one first
  pub toasts : List Text

-- What comes of a request; `failed` has the message of the exception.
pub data Answer (A : Type 0) : Type 0 where
  failed : Text → Answer A
  ok : A → Answer A

abbrev pub toast : Text → Page → Page
toast message s = record s { toasts = message ∷ s.toasts }

abbrev pub has_connection_id : Text → Connection → Bool
has_connection_id id c = c.id == id

-- `currentConnection`
unfoldable pub current_connection : Page → Option Connection
current_connection s = find (has_connection_id s.browse.connection_id) s.connections

-- `connectionScope`
unfoldable pub connection_scope : Option Connection → Text
connection_scope none = []
connection_scope (some c) = c.engine ++ lit ":" ++ c.address ++ lit ":" ++ c.database

-- `replaceConnection`
unfoldable pub replace_connection : Connection → List Connection → List Connection
replace_connection c [] = c ∷ []
replace_connection c (d ∷ ds) =
    if has_connection_id c.id d then c ∷ ds else d ∷ replace_connection c ds

without_slash : Text → Text
without_slash [] = []
without_slash (c ∷ s) = if nat_eq c b'/' then s else c ∷ s

up_to_question : Text → Text
up_to_question [] = []
up_to_question (c ∷ s) = if nat_eq c b'?' then [] else c ∷ up_to_question s

abbrev pub routes : List Text
routes = lit "browse" ∷ lit "topology" ∷ lit "query" ∷ lit "connections" ∷ []

-- `/^#\/?/`; without a `#` nothing is taken off
route_part : Text → Text
unfolding without_slash
route_part [] = []
route_part (c ∷ s) = if nat_eq c b'#' then without_slash s else c ∷ s

-- `routeFromHash`
unfoldable pub route_from_hash : Text → Text
unfolding route_part up_to_question elem
route_from_hash hash =
    let route = up_to_question (route_part hash) in
    if elem route routes then route else lit "browse"

-- `renderConnections`, of which only this is kept: the form is drawn anew, with its error hidden
abbrev pub render_connections : Page → Page
render_connections s = record s { form_error = none }

-- `renderRoute`, without the pages that it draws
unfoldable pub render_route : Page → Page
unfolding route_from_hash
render_route s = record s { route = route_from_hash s.hash; form_error = none }

abbrev pub path_of : Text → Text
path_of route = if starts_with (lit "/") route then route else b'/' ∷ route

-- `navigate`; where the hash changes, the browser runs `render_route` later
unfoldable pub navigate : Text → Page → Page
unfolding render_route ◌==◌ starts_with
navigate route s =
    let path = b'#' ∷ path_of route in
    if s.hash == path then render_route s else record s { hash = path }

-- What follows a catalog that is shown: the ends of `changeConnection`, of the submission of the
-- form, and of `refresh-catalog`.
pub record Change : Type 0 where
  pub destination : Text
  pub previous_id : Text
  pub previous_catalog : Option Catalog

pub record Submission : Type 0 where
  pub editing_id : Text
  pub connection : Connection

pub data After : Type 0 where
  changed : Change → After
  submitted : Submission → After
  refreshed : After

-- What a handler waits for: nothing, the catalog of a connection, or a page of its first table.
pub data Await : Type 0 where
  done : Await
  for_catalog : Text → Bool → After → Await
  for_table : PageRequest → After → Await

abbrev pub connections_route : Text
connections_route = lit "connections"

current_name : Option Connection → Text
current_name none = lit "connection"
current_name (some c) = if is_empty c.name then lit "connection" else c.name

abbrev pub opened_text : Page → Text
unfolding current_connection current_name
opened_text s = lit "Opened " ++ current_name (current_connection s)

-- where `changeConnection` goes at last
unfoldable pub arrive : Text → Page → Page
unfolding navigate render_route
arrive destination s =
    if destination == connections_route then navigate (lit "browse") s else render_route s

-- What is known of the server (`state.meta`): whether connections are kept.
module _ (persistence : Bool) where
  pub submitted_word : Submission → Text
  submitted_word u =
      if not (is_empty u.editing_id)
      then lit "Updated"
      else if u.connection.engine == lit "sqlite" && persistence
      then lit "Saved"
      else lit "Opened"

  unfoldable pub finish : After → Page → Page
  unfolding navigate current_connection arrive submitted_word current_name
  finish (changed c) s = record (arrive c.destination (toast (opened_text s) s)) {
    connecting_id = [];
  }
  finish (submitted u) s =
      navigate (lit "browse") (toast (submitted_word u ++ lit " " ++ u.connection.name) s)
  finish refreshed s = toast (lit "Catalog refreshed") s
