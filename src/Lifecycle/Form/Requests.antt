-- ===== src/Lifecycle/Form/Requests.antt =====
-- What the form sends, and how its submission ends.
use rowake.Prelude.{
  Text, lit, ◌≡◌, refl, sym, subst, ◌∙◌, ◌==◌, ==_refl, Bool, true, false, Option, none, some, List,
  [], ◌∷◌, ◌++◌, if◌then◌else◌, is_empty, Bool-cases, inl, inr, find, trim,
}
use rowake.Workspace.{Settings}
use rowake.Data.{Connection}
use rowake.Schema.{lookup}
use rowake.Connect.{Draft, UrlHost, normalized_draft}
use rowake.Connect.Entry.{postgres}
use rowake.Lifecycle.{Page, failed, ok, has_connection_id, replace_connection, done}
use rowake.Lifecycle.Opening.{
  resume, catalog_reply, load_catalog, cached_or_ask, answer_catalog, catalog_failed, advice,
}
use rowake.Lifecycle.Form.{
  Fields, Request, postgres_request, request_of, draft_request, Sending, stopped, sends,
  first_missing, required, send, require, submit_postgres, submit, draft_from_form, registered,
  answer_submit,
}

-- A text that is not only spaces.
abbrev pub Filled : Text → Type 0
Filled t = is_empty (trim t) ≡ false

first_missing-none :
    (name value : Text) (rest : List (Text × Text))
    → first_missing ((name, value) ∷ rest) ≡ none
    → Filled value × (first_missing rest ≡ none)
unfolding first_missing
first_missing-none name value rest e = elim (Bool-cases (is_empty (trim value))) [
  | inl t ↦
      let k : some name ≡ none =
        subst (λ b. (if b then some name else first_missing rest) ≡ none) t e in
      cc
  | inr f ↦ (f, subst (λ b. (if b then some name else first_missing rest) ≡ none) f e)
]

module _ (h : UrlHost) (number : Text → Text) where
  pub IsComplete : Page → Request → Type 0
  unfolding request_of
  IsComplete t r =
      (r ≡ postgres_request (request_of h number t.flow.draft))
      × Filled t.flow.draft.host
      × Filled t.flow.draft.port
      × Filled t.flow.draft.username
      × Filled t.flow.draft.database

  abbrev OnSends : Sending → Type 0
  OnSends (stopped t) = true ≡ true
  OnSends (sends t r) = IsComplete t r

  send-IsComplete :
      (d : Draft) (s : Page)
      → s.flow.engine ≡ postgres
      → first_missing (required d) ≡ none
      → OnSends (send h number d s)
  unfolding send IsComplete required draft_request
  send-IsComplete d s engine missing =
      let (host, rest) = first_missing-none (lit "host") d.host _ missing in
      let (port, rest') = first_missing-none (lit "port") d.port _ rest in
      let (username, rest'') = first_missing-none (lit "username") d.username _ rest' in
      let (database, end) = first_missing-none (lit "database") d.database _ rest'' in
      rw engine (refl, host, port, username, database)

  require-IsComplete :
      (d : Draft) (o : Option Text) (s : Page)
      → s.flow.engine ≡ postgres
      → first_missing (required d) ≡ o
      → OnSends (require h number o d s)
  unfolding require
  require-IsComplete d none s engine missing = send-IsComplete d s engine missing
  require-IsComplete d (some name) s engine missing = refl

  submit_postgres-IsComplete :
      (d : Draft) (o : Option Draft) (s : Page)
      → s.flow.engine ≡ postgres
      → OnSends (submit_postgres h number d o s)
  unfolding submit_postgres
  submit_postgres-IsComplete d none s engine = refl
  submit_postgres-IsComplete d (some d') s engine = require-IsComplete d' _ s engine refl

  -- A submission for PostgreSQL that sends a request has a host, a port, a username and a database
  -- that are not only spaces, and the request is that of the draft that the page keeps.
  pub submit-IsComplete :
      (fields : Fields) (s t : Page) (r : Request)
      → s.flow.engine ≡ postgres
      → submit h number fields s ≡ sends t r
      → IsComplete t r
  unfolding submit
  submit-IsComplete fields s t r engine e =
      let d = draft_from_form fields s.flow.draft in
      let k : submit h number fields s ≡ submit_postgres h number d (normalized_draft h d) s =
        rw engine refl in
      subst OnSends (sym k ∙ e) (submit_postgres-IsComplete d (normalized_draft h d) s engine)

-- The other fields of the page that `loadCatalog` leaves, before its catalog has come.
find-replace_connection :
    (c : Connection) (cs : List Connection)
    → find (has_connection_id c.id) (replace_connection c cs) ≡ some c
unfolding replace_connection
find-replace_connection c [] = rw (==_refl c.id, if◌then◌else◌) refl
find-replace_connection c (d ∷ cs) = elim (Bool-cases (d.id == c.id)) [
  | inl t ↦ rw (t, ==_refl c.id, if◌then◌else◌) refl
  | inr f ↦ rw (f, if◌then◌else◌) (rw (f, if◌then◌else◌) (find-replace_connection c cs))
]

-- When the server accepts a connection whose catalog is not cached, and the request for its catalog
-- then fails, the connection is listed and open, while the catalog on the page is still that of the
-- connection before; the password is gone from the draft, and the form, which shows the message, no
-- longer knows which connection it was editing.
pub answer_submit_fails :
    (settings : Settings) (persistence : Bool) (editing_id message : Text) (c : Connection)
    (s : Page)
    → lookup c.id s.catalog_cache ≡ none
    → let (s', w) = answer_submit settings persistence editing_id (ok c) s in
      let (t, w') = resume settings persistence w (catalog_reply (failed message)) s' in
      (find (has_connection_id c.id) t.connections ≡ some c)
      × (t.browse.connection_id ≡ c.id)
      × (t.browse.catalog ≡ s.browse.catalog)
      × (t.flow.draft.password ≡ [])
      × (t.flow.editing_connection_id ≡ [])
      × (t.form_error ≡ some (message ++ advice s.flow.engine))
      × (w' ≡ done)
unfolding answer_submit registered load_catalog cached_or_ask resume answer_catalog catalog_failed
answer_submit_fails settings persistence editing_id message c s uncached =
    rw uncached (find-replace_connection c s.connections, refl, refl, refl, refl, refl, refl)
