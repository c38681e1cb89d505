-- ===== src/Examples.antt =====
-- The theorems at concrete inputs, and the data that the inputs share.
pub mod Queries
pub mod Stored
pub mod Quoting
pub mod Shown
pub mod Pages
pub mod Kept
pub mod Connecting
pub mod Compared
pub mod Timing
pub mod Placing
pub mod Opening
pub mod Submitting
pub mod Hovering
pub mod Overlapping
pub mod Suggesting
pub mod Choosing
pub mod Formatting
use rowake.Prelude.{Text, lit, true, false, none, some, List, [], ◌∷◌}
use rowake.Json.{Json, other}
use rowake.Workspace.{QueryTab, Settings, Workspace}
use rowake.Session.{Session, Env, results, closed}
use rowake.Values.{Host, DateStyle}

abbrev pub first_tab : QueryTab
first_tab = record {
  id = lit "a";
  name = lit "orders.sql";
  sql = lit "SELECT 1";
  connection_scope = lit "local";
}

abbrev pub second_tab : QueryTab
second_tab = record {
  id = lit "b";
  name = lit "scratch.sql";
  sql = lit "SELECT 2";
  connection_scope = [];
}

abbrev pub settings : Settings
settings = record { row_limit = 100; statement_timeout = 15 }

abbrev pub workspace : Workspace
workspace = record {
  query_tabs = first_tab ∷ second_tab ∷ [];
  active_query_tab_id = lit "a";
  query_history = [];
  saved_queries = [];
  recent_objects = [];
  pinned_objects = [];
  schema_snapshots = [];
  settings = settings;
}

-- The page with the first tab in the editor, after some typing.
abbrev pub session : Session
session = record {
  workspace = workspace;
  query_sql = lit "SELECT 1 + 1";
  editor = some (lit "SELECT 1 + 1");
  query_result = none;
  query_error = [];
  query_running = false;
  explain_result = none;
  explain_running = false;
  result_mode = results;
  panel = closed;
}

abbrev pub env : Env
env = record {
  connected = true;
  connection_id = lit "c1";
  scope = lit "local";
  now = lit "2024-01-01T00:00:00.000Z";
  stamp = lit "17";
  fresh_id = lit "query-17";
  document = λ t. t;
}

-- A platform that groups no digits and knows no dates.
abbrev pub host : Host
host = record {
  lower = λ t. t;
  upper = λ t. t;
  number_text = λ n. lit "1.5";
  object_text = λ j. lit "[object Object]";
  stringify = λ j. some (lit "{}");
  stringify_pretty = λ j. some (lit "{ }");
  parse = λ t. none;
  is_finite = λ n. true;
  is_date = λ m. false;
  format_date = λ locale style m. none;
  format_number = λ locale n. some (lit "1.5");
  group_digits = λ locale t. some (44 ∷ t);
  decimal_separator = λ locale. some (lit ",");
  byte_length = λ t. 0;
}
