-- ===== src/Examples/Connecting.antt =====
-- The connection form with one URL.
use rowake.Prelude.{
  Text, lit, ◌≡◌, refl, true, false, Option, none, some, [], ◌==◌, trim, starts_with, includes,
  elem, if◌then◌else◌,
}
use rowake.Connect.{
  Draft, Url, UrlHost, server, fresh_draft, parse_postgres_url, host_part, postgres_url,
}
use rowake.Connect.Laws.{Splits, Codes, parts_of, named_server, parse_postgres_url-postgres_url}
use rowake.Connect.Entry.{reset_flow, apply_entry_url, Outcome, apply_entry_url-Outcome}

abbrev pub draft : Draft
draft = record fresh_draft {
  host = lit "::1";
  port = lit "5433";
  username = lit "ada";
  password = lit "secret";
  database = lit "shop";
  ssl_mode = lit "require";
}

pub param : Text → Option Text
unfolding ◌==◌
param k = if k == lit "sslmode" then some (lit "require") else none

abbrev pub url : Url
url = record {
  protocol = lit "postgresql:";
  hostname = lit "[::1]";
  port = lit "5433";
  username = lit "ada";
  password = [];
  pathname = lit "/shop";
  param = param;
}

pub parse_url : Text → Option Url
unfolding ◌==◌
parse_url t = if t == lit "postgresql://ada@[::1]:5433/shop?sslmode=require" then some url else none

-- A platform that knows this URL; the names in it need no coding.
abbrev pub url_host : UrlHost
url_host = record { parse_url = parse_url; decode = λ t. some t; encode = λ t. t }

draft-Splits : Splits url_host url (parts_of url_host draft)
unfolding parse_url param host_part trim starts_with includes ◌==◌
draft-Splits = record {
  parsed = refl;
  nothing = refl;
  protocol = refl;
  hostname = refl;
  port = refl;
  username = refl;
  password = refl;
  pathname = refl;
  sslmode = refl;
  ssl_mode = refl;
}

plain-Codes : (t : Text) → starts_with (lit "/") t ≡ false → Codes url_host t
plain-Codes t h = record { back = refl; empty = refl; no_slash = h }

url_example :
    parse_postgres_url url_host (postgres_url url_host draft) ≡ server (named_server url_host draft)
unfolding trim starts_with elem ◌==◌
url_example =
    parse_postgres_url-postgres_url url_host url draft draft-Splits (plain-Codes (lit "ada") refl)
      (plain-Codes (lit "shop") refl) (plain-Codes (lit "require") refl) refl refl refl refl refl

entry_example : Outcome url_host reset_flow (
    apply_entry_url url_host
      (lit "postgresql://ada@[::1]:5433/shop?sslmode=require")
      true
      reset_flow)
entry_example =
    apply_entry_url-Outcome url_host (lit "postgresql://ada@[::1]:5433/shop?sslmode=require") true
      reset_flow
