-- ===== src/Lifecycle/Form.antt =====
-- The connection form of webembed/src/app.js: `connectionDraftFromForm`, the checks and requests of
-- the form, its submission, and the actions around it.
pub mod Actions
pub mod Requests
use rowake.Prelude.{
  ℕ, Text, lit, ◌==◌, Bool, true, false, not, ◌||◌, ◌&&◌, Option, none, some, List, [], ◌∷◌, ◌++◌,
  if◌then◌else◌, find, is_empty, is_some, trim, or_else, or_default, elem,
}
use rowake.Workspace.{Settings}
use rowake.Data.{Connection, Catalog}
use rowake.Schema.{Dictionary, lookup}
use rowake.Connect.{
  Draft, UrlHost, Parsed, server, refused, fresh_draft, parse_postgres_url, postgres_url,
  with_server, with_url, normalized_draft,
}
use rowake.Connect.Entry.{
  Engine, sqlite, postgres, Step, choose, configure, AddFlow, reset_flow, looks_complete,
}
use rowake.Lifecycle.{
  Page, Answer, failed, ok, toast, render_connections, replace_connection, Submission, submitted,
  Await, done,
}
use rowake.Lifecycle.Opening.{Profile, load_catalog, advice}

-- The fields of the form, if it is on the page; `FormData` has each that is filled in.
abbrev pub Fields : Type 0
Fields = Option (Dictionary Text)

-- `value` of `connectionDraftFromForm`
field_or : Text → Text → Dictionary Text → Text
unfolding lookup
field_or name fallback fields = or_default (lookup name fields) fallback

abbrev trimmed : Text → Text → Dictionary Text → Text
unfolding field_or trim
trimmed name fallback fields = trim (field_or name fallback fields)

-- `connectionDraftFromForm`
unfoldable pub draft_from_form : Fields → Draft → Draft
unfolding trimmed field_or
draft_from_form none d = d
draft_from_form (some fields) d = record {
  name = trimmed (lit "name") d.name fields;
  data_source_name = trimmed (lit "data_source_name") d.data_source_name fields;
  connection_url = trimmed (lit "connection_url") d.connection_url fields;
  host = trimmed (lit "host") (or_else d.host (lit "127.0.0.1")) fields;
  port = trimmed (lit "port") (or_else d.port (lit "5432")) fields;
  username = trimmed (lit "username") d.username fields;
  password = field_or (lit "password") d.password fields;
  password_env = trimmed (lit "password_env") d.password_env fields;
  secret_service = trimmed (lit "secret_service") d.secret_service fields;
  secret_account = trimmed (lit "secret_account") d.secret_account fields;
  database = trimmed (lit "database") d.database fields;
  ssl_mode = field_or (lit "ssl_mode") (or_else d.ssl_mode (lit "disable")) fields;
}

-- The body of a request; `port` is what `JSON.stringify` makes of `Number(port)`.
pub record PostgresRequest : Type 0 where
  pub name : Text
  pub host : Text
  pub port : Text
  pub username : Text
  pub password : Text
  pub password_env : Text
  pub secret_service : Text
  pub secret_account : Text
  pub database : Text
  pub ssl_mode : Text

pub data Request : Type 0 where
  postgres_request : PostgresRequest → Request
  sqlite_request : Text → Text → Request

abbrev pub with_draft : Draft → Page → Page
with_draft d s = record s { flow = record s.flow { draft = d } }

abbrev pub general_tab : Text
general_tab = lit "general"

-- The fields without which a PostgreSQL connection is not asked for, with their values.
required : Draft → List (Text × Text)
required d =
    (lit "host", d.host)
    ∷ (lit "port", d.port)
    ∷ (lit "username", d.username)
    ∷ (lit "database", d.database)
    ∷ []

first_missing : List (Text × Text) → Option Text
unfolding trim
first_missing [] = none
first_missing ((name, value) ∷ rest) =
    if is_empty (trim value) then some name else first_missing rest

-- What a submission or a test of the form comes to, before its request.
pub data Sending : Type 0 where
  stopped : Page → Sending
  sends : Page → Request → Sending

module _ (h : UrlHost) (number : Text → Text) where
  -- `postgresRequest`
  unfoldable pub request_of : Draft → PostgresRequest
  request_of d = record {
    name = d.name;
    host = d.host;
    port = number d.port;
    username = d.username;
    password = d.password;
    password_env = d.password_env;
    secret_service = d.secret_service;
    secret_account = d.secret_account;
    database = d.database;
    ssl_mode = d.ssl_mode;
  }

  unfoldable pub draft_request : Engine → Draft → Request
  unfolding request_of
  draft_request postgres d = postgres_request (request_of d)
  draft_request sqlite d = sqlite_request d.name d.data_source_name

  -- the message of the exception of `normalizedPostgresDraft`
  draft_error : Draft → Text
  unfolding parse_postgres_url
  draft_error d = elim (parse_postgres_url h d.connection_url) [
    | refused message ↦ message
    | server s ↦ []
  ]

  abbrev with_error : Fields → Text → Page → Page
  with_error fields message s = if is_some fields then record s { form_error = some message } else s

  correct_url : Text
  correct_url = lit ". Correct the connection URL or edit the fields below."

  -- `discoverPostgresDatabases`, once the draft is normalized
  discover_for : Fields → Draft → Page → Sending
  unfolding request_of
  discover_for fields d s =
      if is_empty d.host || is_empty d.username
      then stopped (
          with_error fields (lit "Enter the PostgreSQL host and username before loading databases.")
            (with_draft d s))
      else sends
          (record s {
            flow = record s.flow { draft = d; discovery_loading = true; discovery_error = [] };
            form_error = none;
          })
          (postgres_request (request_of d))

  -- `discoverPostgresDatabases`
  unfoldable pub discover : Fields → Page → Sending
  unfolding normalized_draft draft_from_form draft_error correct_url discover_for
  discover fields s =
      let d = draft_from_form fields s.flow.draft in
      elim (normalized_draft h d) [
        | none ↦ stopped (with_error fields (draft_error d ++ correct_url) s)
        | some d' ↦ discover_for fields d' s
      ]

  -- the submission of the form, with the draft of a request
  send : Draft → Page → Sending
  unfolding draft_request
  send d s = sends (record (with_draft d s) { form_error = none }) (draft_request s.flow.engine d)

  require : Option Text → Draft → Page → Sending
  unfolding send
  require none d s = send d s
  require (some name) d s = stopped (record s {
    flow = record s.flow { draft = d; form_tab = general_tab };
    form_error = some (lit "Enter the PostgreSQL " ++ name ++ lit " before connecting.");
  })

  submit_postgres : Draft → Option Draft → Page → Sending
  unfolding require first_missing required draft_error correct_url
  submit_postgres d none s = stopped (record s { form_error = some (draft_error d ++ correct_url) })
  submit_postgres d (some d') s = require (first_missing (required d')) d' s

  -- the submission of `connection-form`
  unfoldable pub submit : Fields → Page → Sending
  unfolding submit_postgres send normalized_draft draft_from_form
  submit fields s =
      let d = draft_from_form fields s.flow.draft in
      elim s.flow.engine [
        | sqlite ↦ send d s
        | postgres ↦ submit_postgres d (normalized_draft h d) s
      ]

  test_with : Draft → Option Draft → Page → Sending
  unfolding draft_request draft_error
  test_with d none s = stopped (render_connections (toast (draft_error d) s))
  test_with d (some d') s =
      sends (render_connections (record (with_draft d' s) { testing_connection = true }))
        (draft_request s.flow.engine d')

  -- `testConnectionForm`
  unfoldable pub test_connection : Fields → Page → Sending
  unfolding test_with normalized_draft draft_from_form
  test_connection fields s =
      let d = draft_from_form fields s.flow.draft in
      if not (is_some fields) || s.testing_connection
      then stopped s
      else test_with d (elim s.flow.engine [ sqlite ↦ some d | postgres ↦ normalized_draft h d ]) s

-- the end of `testConnectionForm`; the node that it writes an error to has been replaced by then
unfoldable pub answer_test : Answer Text → Page → Page
answer_test (failed message) s =
    render_connections (toast message (record s { testing_connection = false }))
answer_test (ok body) s =
    render_connections
      (toast (lit "Connection test succeeded") (record s { testing_connection = false }))

-- the draft's database, where a list of databases came
kept_database : List Text → Text → Text
unfolding elem
kept_database [] name = name
kept_database (x ∷ xs) name = if elem name (x ∷ xs) then name else []

discovery_note : List Text → Text
discovery_note [] = lit "No connectable databases were returned. Enter a database name manually."
discovery_note (x ∷ xs) = []

-- the end of `discoverPostgresDatabases`
unfoldable pub answer_discover : Answer (List Text) → Page → Page
unfolding kept_database discovery_note
answer_discover (failed message) s = render_connections (record s {
  flow = record s.flow {
    databases = [];
    discovery_error = message ++ lit ". Check the host, credentials, and SSL mode, then try again.";
    discovery_loading = false;
  };
})
answer_discover (ok names) s = render_connections (record s {
  flow = record s.flow {
    databases = names;
    discovery_error = or_else (discovery_note names) s.flow.discovery_error;
    draft = record s.flow.draft { database = kept_database names s.flow.draft.database };
    discovery_loading = false;
  };
})

-- the page once the server has the connection that is submitted
unfoldable pub registered : Connection → Page → Page
unfolding replace_connection
registered c s = record s {
  connections = replace_connection c s.connections;
  browse = record s.browse { connection_id = c.id; snapshot = none };
  form_open = false;
  query_result = none;
  query_error = [];
  flow = record s.flow {
    step = choose;
    draft = record s.flow.draft { password = [] };
    editing_connection_id = [];
    databases = [];
  };
}

-- the submission from its answer; `editing_id` is what its closure holds
unfoldable pub answer_submit : Settings → Bool → Text → Answer Connection → Page → Page × Await
unfolding registered load_catalog advice
answer_submit settings persistence editing_id (failed message) s =
    (record s { form_error = some (message ++ advice s.flow.engine) }, done)
answer_submit settings persistence editing_id (ok c) s =
    load_catalog settings persistence c.id true
      (submitted (record { editing_id = editing_id; connection = c })) (registered c s)
