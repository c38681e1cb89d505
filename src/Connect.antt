-- ===== src/Connect.antt =====
-- The connection form of webembed/src/app.js: drafts, and the URL of a PostgreSQL server that a
-- draft is read from and written as. `URL` and the two URI codings are the record `UrlHost`.
pub mod Laws
pub mod Entry
use rowake.Prelude.{
  ℕ, Text, lit, Bool, true, false, not, ◌&&◌, ◌||◌, Option, none, some, List, [], ◌∷◌, ◌++◌,
  if◌then◌else◌, leb, nat_eq, or_default, or_else, is_empty, is_some, is_space, starts_with,
  includes, trim, elem, ◌==◌,
}

pub record Draft : Type 0 where
  pub name : Text
  pub data_source_name : Text
  pub connection_url : Text
  pub host : Text
  pub port : Text
  pub username : Text
  pub password : Text
  pub password_env : Text
  pub secret_service : Text
  pub secret_account : Text
  pub database : Text
  pub ssl_mode : Text

-- What `new URL` makes of a text; `param` is `searchParams.get`.
pub record Url : Type 0 where
  pub protocol : Text
  pub hostname : Text
  pub port : Text
  pub username : Text
  pub password : Text
  pub pathname : Text
  pub param : Text → Option Text

-- `none` stands for an exception.
pub record UrlHost : Type 0 where
  pub parse_url : Text → Option Url
  pub decode : Text → Option Text
  pub encode : Text → Text

abbrev default_host : Text
default_host = lit "127.0.0.1"

abbrev default_port : Text
default_port = lit "5432"

-- `freshConnectionDraft`
abbrev pub fresh_draft : Draft
fresh_draft = record {
  name = [];
  data_source_name = [];
  connection_url = [];
  host = default_host;
  port = default_port;
  username = [];
  password = [];
  password_env = [];
  secret_service = [];
  secret_account = [];
  database = [];
  ssl_mode = lit "disable";
}

-- What a URL tells of a server.
pub record Server : Type 0 where
  pub host : Text
  pub port : Text
  pub username : Text
  pub password : Text
  pub database : Text
  pub ssl_mode : Text

-- The message is that of the exception.
pub data Parsed : Type 0 where
  server : Server → Parsed
  refused : Text → Parsed

-- all but a last `]`
inner : Text → Option Text
inner [] = none
inner (c ∷ []) = if nat_eq c b']' then some [] else none
inner (c ∷ d ∷ s) = elim (inner (d ∷ s)) [ none ↦ none | some t ↦ some (c ∷ t) ]

-- `hostname.replace(/^\[(.*)\]$/, "$1")`; a host has no line break
without_brackets : Text → Text
unfolding inner
without_brackets [] = []
without_brackets (c ∷ s) = if nat_eq c b'[' then or_default (inner s) (c ∷ s) else c ∷ s

-- `pathname.replace(/^\/+/, "")`
without_slashes : Text → Text
without_slashes [] = []
without_slashes (c ∷ s) = if nat_eq c b'/' then without_slashes s else c ∷ s

abbrev ssl_modes : List Text
ssl_modes = lit "disable" ∷ lit "prefer" ∷ lit "require" ∷ lit "verify-ca" ∷ lit "verify-full" ∷ []

abbrev pub bad_encoding : Parsed
bad_encoding = refused (lit "The connection URL contains invalid percent-encoding")

-- `sslMode` of `parsePostgresURL`
unfoldable pub ssl_mode_of : Url → Text
ssl_mode_of url =
    or_else (or_default (url.param (lit "sslmode")) [])
      (or_else (or_default (url.param (lit "ssl_mode")) []) (lit "disable"))

unfoldable pub host_part : Text → Text
unfolding includes starts_with
host_part host =
    if includes (lit ":") host && not (starts_with (lit "[") host)
    then lit "[" ++ host ++ lit "]"
    else host

abbrev pub with_server : Server → Draft → Draft
with_server s d = record d {
  host = s.host;
  port = s.port;
  username = s.username;
  password = s.password;
  database = s.database;
  ssl_mode = s.ssl_mode;
}

module _ (h : UrlHost) where
  decoded_server : Url → Option Text → Option Text → Option Text → Parsed
  unfolding without_brackets ssl_mode_of
  decoded_server url (some username) (some password) (some database) = server (record {
    host = without_brackets url.hostname;
    port = or_else url.port default_port;
    username = username;
    password = password;
    database = database;
    ssl_mode = ssl_mode_of url;
  })
  decoded_server url username password database = bad_encoding

  -- the checks of `parsePostgresURL` on a URL
  unfoldable pub read_url : Url → Parsed
  unfolding decoded_server without_slashes ssl_mode_of elem
  read_url url =
      if not (elem url.protocol (lit "postgres:" ∷ lit "postgresql:" ∷ []))
      then refused (lit "The URL must start with postgres:// or postgresql://")
      else if is_empty url.hostname
      then refused (lit "The PostgreSQL URL needs a host")
      else if not (elem (ssl_mode_of url) ssl_modes)
      then refused (lit "Unsupported sslmode \"" ++ ssl_mode_of url ++ lit "\"")
      else decoded_server url (h.decode url.username) (h.decode url.password)
          (h.decode (without_slashes url.pathname))

  -- `parsePostgresURL`
  unfoldable pub parse_postgres_url : Text → Parsed
  unfolding read_url trim
  parse_postgres_url value =
      if is_empty (trim value)
      then refused (lit "Enter a PostgreSQL connection URL")
      else elim (h.parse_url (trim value)) [
        | none ↦ refused (lit "Enter a complete PostgreSQL URL")
        | some url ↦ read_url url
      ]

  -- `postgresURLFromDraft`
  unfoldable pub postgres_url : Draft → Text
  unfolding host_part trim ◌==◌
  postgres_url d =
      let port = trim (or_else d.port default_port) in
      let database = trim d.database in
      let mode = or_else d.ssl_mode (lit "disable") in
      lit "postgresql://"
      ++ (if is_empty d.username then [] else h.encode d.username ++ lit "@")
      ++ host_part (trim (or_else d.host default_host))
      ++ (if is_empty port then [] else lit ":" ++ port)
      ++ lit "/"
      ++ (if is_empty database then [] else h.encode database)
      ++ (if mode == lit "disable" then [] else lit "?sslmode=" ++ h.encode mode)

  abbrev pub with_url : Draft → Draft
  with_url d = record d { connection_url = postgres_url d }

  -- `normalizedPostgresDraft`; `none` is the exception of `parsePostgresURL`
  unfoldable pub normalized_draft : Draft → Option Draft
  unfolding parse_postgres_url postgres_url trim
  normalized_draft d =
      if is_empty (trim d.connection_url)
      then some (with_url d)
      else elim (parse_postgres_url d.connection_url) [
        | refused message ↦ none
        | server s ↦
            some (with_url (with_server (record s { password = or_else s.password d.password }) d))
      ]
