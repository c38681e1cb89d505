-- ===== src/Lifecycle/Form/Actions.antt =====
-- The actions around the connection form (webembed/src/app.js): `editConnection`,
-- `applyPostgresURLToForm`, `syncPostgresURLFromForm`, and the branches of the click handler from
-- `show-connection-form` to `cancel-connection-form`.
use rowake.Prelude.{
  Text, lit, ◌==◌, Bool, true, false, Option, none, some, [], if◌then◌else◌, is_empty, is_some,
  trim, or_else, or_default,
}
use rowake.Schema.{Dictionary, lookup, set}
use rowake.Connect.{
  Draft, UrlHost, Parsed, server, refused, fresh_draft, parse_postgres_url, postgres_url,
  with_server, with_url,
}
use rowake.Connect.Entry.{Engine, sqlite, postgres, choose, configure, AddFlow, reset_flow}
use rowake.Lifecycle.{Page, Answer, failed, ok, toast, render_connections}
use rowake.Lifecycle.Opening.{Profile}
use rowake.Lifecycle.Form.{Fields, draft_from_form, with_draft, general_tab}

abbrev with_flow : AddFlow → Page → Page
with_flow flow s = render_connections (record s { flow = flow })

engine_of : Text → Engine
unfolding ◌==◌
engine_of name = if name == lit "postgres" then postgres else sqlite

-- `response.profile || {}`
abbrev no_profile : Profile
no_profile = record {
  name = [];
  engine = [];
  data_source_name = [];
  host = [];
  port = none;
  username = [];
  password_env = [];
  secret_service = [];
  secret_account = [];
  database = [];
  ssl_mode = [];
}

draft_of_profile : Profile → Draft
draft_of_profile p = record fresh_draft {
  name = p.name;
  data_source_name = p.data_source_name;
  host = or_else p.host (lit "127.0.0.1");
  port = or_default p.port (lit "5432");
  username = p.username;
  password_env = p.password_env;
  secret_service = p.secret_service;
  secret_account = p.secret_account;
  database = p.database;
  ssl_mode = or_else p.ssl_mode (lit "prefer");
}

-- A control of the form is given a value; one that the form does not have is left out.
put : Text → Text → Dictionary Text → Dictionary Text
unfolding lookup set
put name value fields = if is_some (lookup name fields) then set name value fields else fields

-- What `applyPostgresURLToForm` and `syncPostgresURLFromForm` write into the form.
written : Draft → Dictionary Text → Dictionary Text
unfolding put
written d fields = put (lit "connection_url") d.connection_url (
    put (lit "database") d.database (
      put (lit "ssl_mode") d.ssl_mode (
        put (lit "password") d.password (
          put (lit "username") d.username
            (put (lit "port") d.port (put (lit "host") d.host fields))))))

module _ (h : UrlHost) where
  edited_draft : Engine → Draft → Draft
  unfolding postgres_url
  edited_draft postgres d = with_url h d
  edited_draft sqlite d = record d { connection_url = [] }

  edited : Text → Profile → Page → Page
  unfolding engine_of draft_of_profile edited_draft
  edited id p s =
      let engine = engine_of p.engine in
      with_flow
        (record s.flow {
          draft = edited_draft engine (draft_of_profile p);
          engine = engine;
          editing_connection_id = id;
          step = configure;
          form_tab = general_tab;
        })
        (record s { form_open = true })

  -- `editConnection`, from the answer to the request for the profile
  unfoldable pub answer_edit : Text → Answer (Option Profile) → Page → Page
  unfolding edited
  answer_edit id (failed message) s = toast message s
  answer_edit id (ok p) s = edited id (or_default p no_profile) s

  apply_parsed : Dictionary Text → Parsed → Page → Page × Dictionary Text × Bool
  unfolding written postgres_url draft_from_form
  apply_parsed fields (refused message) s = (s, fields, false)
  apply_parsed fields (server v) s =
      let d = with_url h (with_server v (draft_from_form (some fields) s.flow.draft)) in
      (
        record s { flow = record s.flow { draft = d; discovery_error = [] }; form_error = none },
        written d fields,
        true,
      )

  -- `applyPostgresURLToForm`: the page, the form, and whether the URL was taken; where there is no
  -- form, the caller does nothing
  unfoldable pub apply_url_to_form : Text → Dictionary Text → Page → Page × Dictionary Text × Bool
  unfolding apply_parsed parse_postgres_url trim
  apply_url_to_form value fields s =
      if is_empty (trim value)
      then (s, fields, false)
      else apply_parsed fields (parse_postgres_url h value) s

  -- `syncPostgresURLFromForm`
  unfoldable pub sync_url_from_form : Dictionary Text → Page → Page × Dictionary Text
  unfolding put postgres_url draft_from_form
  sync_url_from_form fields s =
      let d = with_url h (draft_from_form (some fields) s.flow.draft) in
      (with_draft d s, put (lit "connection_url") d.connection_url fields)

  -- `choose-connection-engine`
  unfoldable pub choose_engine : Text → Page → Page
  unfolding engine_of postgres_url
  choose_engine name s = elim (engine_of name) [
    | postgres ↦
        with_flow
          (record s.flow {
            engine = postgres;
            step = configure;
            form_tab = general_tab;
            draft = with_url h s.flow.draft;
            entry_error = [];
            discovery_error = [];
          })
          s
    | sqlite ↦
        with_flow
          (record s.flow {
            engine = sqlite;
            step = configure;
            entry_error = [];
            discovery_error = [];
          })
          s
  ]

  -- `back-to-connection-types`
  unfoldable pub back_to_types : Fields → Page → Page
  unfolding postgres_url draft_from_form
  back_to_types fields s =
      let d = draft_from_form fields s.flow.draft in
      elim s.flow.engine [
        | postgres ↦
            with_flow
              (record s.flow {
                draft = with_url h d;
                entry_url = postgres_url h d;
                entry_error = [];
                step = choose;
              })
              s
        | sqlite ↦ with_flow (record s.flow { draft = d; entry_error = []; step = choose }) s
      ]

  -- `select-postgres-form-tab`
  unfoldable pub select_form_tab : Text → Fields → Page → Page
  unfolding ◌==◌ postgres_url draft_from_form
  select_form_tab tab fields s =
      with_flow
        (record s.flow {
          draft = with_url h (draft_from_form fields s.flow.draft);
          form_tab = if tab == lit "security" then lit "security" else general_tab;
        })
        s

-- `show-connection-form`
unfoldable pub show_form : Page → Page
show_form s = with_flow reset_flow (record s { form_open = true })

-- `cancel-connection-form`
unfoldable pub cancel_form : Page → Page
cancel_form s = with_flow reset_flow (record s { form_open = false })
