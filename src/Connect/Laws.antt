-- ===== src/Connect/Laws.antt =====
-- A draft that is written as a URL and read again.
use rowake.Prelude.{
  Text, lit, ◌≡◌, refl, ap, sym, ◌∙◌, Bool, true, false, Option, none, some, [], ◌∷◌, ◌++◌, arith,
  if◌then◌else◌, or_else, is_empty, starts_with, includes, trim, elem, ◌==◌, ==-eq, Bool-cases, inl,
  inr,
}
use rowake.Connect.{
  Draft, Url, UrlHost, Server, server, default_host, default_port, inner, without_brackets,
  without_slashes, ssl_modes, ssl_mode_of, decoded_server, read_url, parse_postgres_url, host_part,
  postgres_url,
}

inner-close : (s : Text) → inner (s ++ b']' ∷ []) ≡ some s
unfolding inner
inner-close [] = refl
inner-close (c ∷ []) = refl
inner-close (c ∷ d ∷ s) = rw (inner-close (d ∷ s)) refl

without_brackets-plain : (s : Text) → starts_with (lit "[") s ≡ false → without_brackets s ≡ s
unfolding without_brackets starts_with
without_brackets-plain [] h = refl
without_brackets-plain (c ∷ s) h = ground arith

-- Brackets are put around a host that needs them, and are taken off again.
without_brackets-host_part :
    (host : Text) → starts_with (lit "[") host ≡ false → without_brackets (host_part host) ≡ host
unfolding host_part without_brackets
without_brackets-host_part host h = elim (Bool-cases (includes (lit ":") host)) [
  | inl colon ↦ rw (colon, h) (rw (inner-close host) refl)
  | inr plain ↦ rw plain (without_brackets-plain host h)
]

is_empty-host_part : (host : Text) → is_empty host ≡ false → is_empty (host_part host) ≡ false
unfolding host_part
is_empty-host_part host h = ground arith

nil-of_empty : (t : Text) → is_empty t ≡ true → t ≡ []
nil-of_empty [] e = refl
nil-of_empty (c ∷ t) e = cc

-- The parts of a URL of a PostgreSQL server: the coded username, which may be missing, the host, the
-- port, the coded database and the coded SSL mode.
pub record UrlParts : Type 0 where
  pub username : Text
  pub host : Text
  pub port : Text
  pub path : Text
  pub mode : Option Text

abbrev mode_text : Option Text → Text
mode_text none = []
mode_text (some m) = lit "?sslmode=" ++ m

-- `postgresql://user@host:port/database?sslmode=mode`
abbrev pub spelled : UrlParts → Text
spelled u =
    lit "postgresql://"
    ++ (if is_empty u.username then [] else u.username ++ lit "@")
    ++ u.host
    ++ (lit ":" ++ u.port)
    ++ lit "/"
    ++ u.path
    ++ mode_text u.mode

module _ (h : UrlHost) where
  abbrev decoded : Option Text → Option Text
  decoded none = none
  decoded (some m) = h.decode m

  abbrev mode_of : Draft → Text
  mode_of d = or_else d.ssl_mode (lit "disable")

  abbrev host_of : Draft → Text
  host_of d = trim (or_else d.host default_host)

  -- How `URL` splits the text that is put together of these parts, whether or not spaces around it
  -- are taken off first. It has to know the host and the port as they are written.
  pub record Splits (url : Url) (u : UrlParts) : Type 0 where
    pub parsed : h.parse_url (trim (spelled u)) ≡ some url
    pub nothing : h.parse_url [] ≡ none
    pub protocol : url.protocol ≡ lit "postgresql:"
    pub hostname : url.hostname ≡ u.host
    pub port : url.port ≡ u.port
    pub username : url.username ≡ u.username
    pub password : url.password ≡ []
    pub pathname : url.pathname ≡ b'/' ∷ u.path
    pub sslmode : url.param (lit "sslmode") ≡ decoded u.mode
    pub ssl_mode : url.param (lit "ssl_mode") ≡ none

  -- The codings undo each other on this text, and leave no slash in it.
  pub record Codes (t : Text) : Type 0 where
    pub back : h.decode (h.encode t) ≡ some t
    pub empty : is_empty (h.encode t) ≡ is_empty t
    pub no_slash : starts_with (lit "/") (h.encode t) ≡ false

  -- The parts that the URL of a draft should have.
  abbrev pub parts_of : Draft → UrlParts
  parts_of d = record {
    username = h.encode d.username;
    host = host_part (host_of d);
    port = trim (or_else d.port default_port);
    path = h.encode (trim d.database);
    mode = if mode_of d == lit "disable" then none else some (h.encode (mode_of d));
  }

  empty-encode : (t : Text) → Codes t → (if is_empty t then [] else h.encode t) ≡ h.encode t
  empty-encode t c = elim (Bool-cases (is_empty t)) [
    | inl e ↦ rw (e, if◌then◌else◌) (sym (nil-of_empty (h.encode t) (c.empty ∙ e)))
    | inr e ↦ rw (e, if◌then◌else◌) refl
  ]

  mode_part :
      (b : Bool) (m : Text)
      → (if b then [] else lit "?sslmode=" ++ h.encode m)
        ≡ mode_text (if b then none else some (h.encode m))
  mode_part true m = refl
  mode_part false m = refl

  -- The URL that is written has these parts.
  postgres_url-spelled :
      (d : Draft)
      → Codes d.username
      → Codes (trim d.database)
      → is_empty (trim (or_else d.port default_port)) ≡ false
      → postgres_url h d ≡ spelled (parts_of d)
  unfolding postgres_url
  postgres_url-spelled d user database port =
      rw
        (
          user.empty,
          port,
          empty-encode (trim d.database) database,
          mode_part (mode_of d == lit "disable") (mode_of d),
          if◌then◌else◌,
        )
        refl

  -- The same for the text that is written.
  record Reads (url : Url) (d : Draft) : Type 0 where
    parsed : h.parse_url (trim (postgres_url h d)) ≡ some url
    nothing : h.parse_url [] ≡ none
    protocol : url.protocol ≡ lit "postgresql:"
    hostname : url.hostname ≡ host_part (host_of d)
    port : url.port ≡ trim (or_else d.port default_port)
    username : url.username ≡ h.encode d.username
    password : url.password ≡ []
    pathname : url.pathname ≡ b'/' ∷ h.encode (trim d.database)
    sslmode :
        url.param (lit "sslmode") ≡ (if mode_of d == lit "disable" then none else some (mode_of d))
    ssl_mode : url.param (lit "ssl_mode") ≡ none
    decode_username : h.decode (h.encode d.username) ≡ some d.username
    decode_database : h.decode (h.encode (trim d.database)) ≡ some (trim d.database)
    decode_nothing : h.decode [] ≡ some []
    no_slash : starts_with (lit "/") (h.encode (trim d.database)) ≡ false

  without_slashes-plain :
      (s : Text) → starts_with (lit "/") s ≡ false → without_slashes (b'/' ∷ s) ≡ s
  unfolding without_slashes starts_with
  without_slashes-plain [] e = refl
  without_slashes-plain (c ∷ s) e = ground arith

  -- The server that a draft names, without the password.
  abbrev pub named_server : Draft → Server
  named_server d = record {
    host = host_of d;
    port = trim (or_else d.port default_port);
    username = d.username;
    password = [];
    database = trim d.database;
    ssl_mode = mode_of d;
  }

  or_else-some : (s t : Text) → is_empty s ≡ false → or_else s t ≡ s
  or_else-some [] t e = cc
  or_else-some (c ∷ s) t e = refl

  ssl_mode_of-read :
      (url : Url) (d : Draft)
      → Reads url d
      → is_empty (mode_of d) ≡ false
      → ssl_mode_of url ≡ mode_of d
  unfolding ssl_mode_of
  ssl_mode_of-read url d r e = elim (Bool-cases (mode_of d == lit "disable")) [
    | inl t ↦ rw (r.sslmode, r.ssl_mode, t) (sym (==-eq (mode_of d) (lit "disable") t))
    | inr f ↦ rw (r.sslmode, f) (or_else-some (mode_of d) _ e)
  ]

  elem-some : (s : Text) → elem s ssl_modes ≡ true → is_empty s ≡ false
  unfolding elem ◌==◌
  elem-some [] e = cc
  elem-some (c ∷ s) e = refl

  parsed-some :
      (t : Text) (url : Url) → h.parse_url [] ≡ none → h.parse_url t ≡ some url → is_empty t ≡ false
  parsed-some [] url e k = cc
  parsed-some (c ∷ t) url e k = refl

  protocol-known :
      (t : Text) → t ≡ lit "postgresql:" → elem t (lit "postgres:" ∷ lit "postgresql:" ∷ []) ≡ true
  unfolding elem ◌==◌
  protocol-known t e = rw e refl

  decoded_server-read :
      (url : Url) (d : Draft)
      → Reads url d
      → starts_with (lit "[") (host_of d) ≡ false
      → is_empty (trim (or_else d.port default_port)) ≡ false
      → ssl_mode_of url ≡ mode_of d
      → decoded_server h url (some d.username) (some []) (some (trim d.database))
        ≡ server (named_server d)
  unfolding decoded_server
  decoded_server-read url d r bare port mode = rw mode (
      rw
        (
          r.hostname,
          without_brackets-host_part (host_of d) bare,
          r.port,
          or_else-some (trim (or_else d.port default_port)) default_port port,
        )
        refl)

  read_url-read :
      (url : Url) (d : Draft)
      → Reads url d
      → starts_with (lit "[") (host_of d) ≡ false
      → is_empty (host_of d) ≡ false
      → is_empty (trim (or_else d.port default_port)) ≡ false
      → elem (mode_of d) ssl_modes ≡ true
      → read_url h url ≡ server (named_server d)
  unfolding read_url
  read_url-read url d r bare host port known =
      let mode = ssl_mode_of-read url d r (elem-some (mode_of d) known) in
      let database =
        ap without_slashes r.pathname
        ∙ without_slashes-plain (h.encode (trim d.database)) r.no_slash in
      rw
        (
          protocol-known url.protocol r.protocol,
          ap is_empty r.hostname ∙ is_empty-host_part (host_of d) host,
          mode,
          known,
          ap h.decode r.username ∙ r.decode_username,
          ap h.decode r.password ∙ r.decode_nothing,
          ap h.decode database ∙ r.decode_database,
        )
        (decoded_server-read url d r bare port mode)

  decoded-mode :
      (b : Bool) (m : Text)
      → Codes m
      → decoded (if b then none else some (h.encode m)) ≡ (if b then none else some m)
  decoded-mode true m c = refl
  decoded-mode false m c = c.back

  Reads-postgres_url :
      (url : Url) (d : Draft)
      → Splits url (parts_of d)
      → Codes d.username
      → Codes (trim d.database)
      → Codes (mode_of d)
      → h.decode [] ≡ some []
      → is_empty (trim (or_else d.port default_port)) ≡ false
      → Reads url d
  Reads-postgres_url url d r user database mode nothing port = record {
    parsed = rw (postgres_url-spelled d user database port) r.parsed;
    nothing = r.nothing;
    protocol = r.protocol;
    hostname = r.hostname;
    port = r.port;
    username = r.username;
    password = r.password;
    pathname = r.pathname;
    sslmode = r.sslmode ∙ decoded-mode (mode_of d == lit "disable") (mode_of d) mode;
    ssl_mode = r.ssl_mode;
    decode_username = user.back;
    decode_database = database.back;
    decode_nothing = nothing;
    no_slash = database.no_slash;
  }

  -- The URL that a draft is written as is read back as the server that the draft names, without the
  -- password, if the draft has a host without brackets, a port and a known SSL mode, `URL` splits a
  -- text `postgresql://user@host:port/database?sslmode=mode` of these parts, without what is
  -- missing, into the parts, and the two URI codings undo each other on them.
  pub parse_postgres_url-postgres_url :
      (url : Url) (d : Draft)
      → Splits url (parts_of d)
      → Codes d.username
      → Codes (trim d.database)
      → Codes (mode_of d)
      → h.decode [] ≡ some []
      → starts_with (lit "[") (host_of d) ≡ false
      → is_empty (host_of d) ≡ false
      → is_empty (trim (or_else d.port default_port)) ≡ false
      → elem (mode_of d) ssl_modes ≡ true
      → parse_postgres_url h (postgres_url h d) ≡ server (named_server d)
  unfolding parse_postgres_url
  parse_postgres_url-postgres_url url d splits user database mode nothing bare host port known =
      let r = Reads-postgres_url url d splits user database mode nothing port in
      rw (parsed-some (trim (postgres_url h d)) url r.nothing r.parsed, r.parsed)
        (read_url-read url d r bare host port known)
