-- ===== src/Workspace.antt =====
-- The stored workspace: `normalizeWorkspace` of webembed/src/workspace-state.mjs, and the object
-- that `persistWorkspace` of webembed/src/app.js writes.
pub mod Bounds
pub mod RoundTrip
use rowake.Prelude.{
  ℕ, zero, suc, ◌+◌, Text, lit, Bool, true, false, ◌||◌, Option, none, some, List, [], ◌∷◌, ◌++◌,
  map, nat_eq, is_some, if◌then◌else◌, take, any, or_else, is_empty, decimal,
}
use rowake.Json.{
  Num, nat, other, Json, null, bool, num, str, arr, obj, Fields, end, field, of_list, get, truthy,
  to_text, array_or_empty, is_text, text_or,
}

-- `WORKSPACE_VERSION`
abbrev workspace_version : ℕ
workspace_version = 2

abbrev pub tab_limit : ℕ
tab_limit = 20

abbrev pub name_limit : ℕ
name_limit = 80

abbrev pub sql_limit : ℕ
sql_limit = 1_000_000

abbrev pub scope_limit : ℕ
scope_limit = 500

abbrev pub row_limits : List ℕ
row_limits = 50 ∷ 100 ∷ 250 ∷ 500 ∷ 1000 ∷ []

abbrev pub statement_timeouts : List ℕ
statement_timeouts = 5 ∷ 10 ∷ 15 ∷ []

pub record QueryTab : Type 0 where
  pub id : Text
  pub name : Text
  pub sql : Text
  pub connection_scope : Text

pub record Settings : Type 0 where
  pub row_limit : ℕ
  pub statement_timeout : ℕ

-- The collections are kept as the data that was stored; only the tabs and settings have a shape.
pub record Workspace : Type 0 where
  pub query_tabs : List QueryTab
  pub active_query_tab_id : Text
  pub query_history : List Json
  pub saved_queries : List Json
  pub recent_objects : List Json
  pub pinned_objects : List Json
  pub schema_snapshots : List Json
  pub settings : Settings

-- `value?.k` where `value` may be `undefined`
get_in : Text → Option Json → Option Json
unfolding get
get_in k none = none
get_in k (some j) = get k j

abbrev pub elem_nat : ℕ → List ℕ → Bool
elem_nat n ms = any (nat_eq n) ms

-- `allowed.includes(n) ? n : fallback`
pub number_in : List ℕ → ℕ → Num → ℕ
number_in allowed fallback (nat n) = if elem_nat n allowed then n else fallback
number_in allowed fallback (other t) = fallback

has_version : Option Json → Bool
has_version (some (num (nat n))) = elem_nat n (1 ∷ workspace_version ∷ [])
has_version j = false

pub has_id : Option Json → QueryTab → Bool
unfolding is_text
has_id id tab = is_text tab.id id

pub normalize_tab : ℕ → Json → QueryTab
unfolding get text_or
normalize_tab index tab = record {
  id = text_or (get (lit "id") tab) (lit "query-" ++ decimal (index + 1));
  name = take name_limit (text_or (get (lit "name") tab) (lit "Query " ++ decimal (index + 1)));
  sql = take sql_limit (text_or (get (lit "sql") tab) []);
  connection_scope = take scope_limit (text_or (get (lit "connection_scope") tab) []);
}

pub normalize_tabs : ℕ → List Json → List QueryTab
unfolding normalize_tab
normalize_tabs index [] = []
normalize_tabs index (tab ∷ tabs) = normalize_tab index tab ∷ normalize_tabs (index + 1) tabs

first_id : List QueryTab → Text
first_id [] = []
first_id (tab ∷ tabs) = tab.id

pub active_id : Option Json → List QueryTab → Text
unfolding has_id first_id text_or
active_id stored tabs = if any (has_id stored) tabs then text_or stored [] else first_id tabs

-- `JSON.parse`, with `none` for an exception, and `Number` on a string are the platform's.
pub record Platform : Type 0 where
  pub parse_json : Text → Option Json
  pub number_of_text : Text → Num

module _ (p : Platform) where
  -- `Number(value)`
  pub number_of : Option Json → Num
  unfolding to_text
  number_of none = other (lit "NaN")
  number_of (some null) = nat 0
  number_of (some (bool b)) = nat (if b then 1 else 0)
  number_of (some (num n)) = n
  number_of (some (str t)) = p.number_of_text t
  number_of (some (arr xs)) = p.number_of_text (to_text (arr xs))
  number_of (some (obj fs)) = other (lit "NaN")

  -- `parsed` is an object of a known version.
  pub normalize_object : Json → Workspace
  unfolding get_in get number_in number_of normalize_tabs active_id array_or_empty
  normalize_object parsed =
      let tabs =
        normalize_tabs 0 (take tab_limit (array_or_empty (get (lit "query_tabs") parsed))) in
      let settings = get (lit "settings") parsed in
      record {
        query_tabs = tabs;
        active_query_tab_id = active_id (get (lit "active_query_tab_id") parsed) tabs;
        query_history = take 100 (array_or_empty (get (lit "query_history") parsed));
        saved_queries = take 100 (array_or_empty (get (lit "saved_queries") parsed));
        recent_objects = take 50 (array_or_empty (get (lit "recent_objects") parsed));
        pinned_objects = take 50 (array_or_empty (get (lit "pinned_objects") parsed));
        schema_snapshots = take 10 (array_or_empty (get (lit "schema_snapshots") parsed));
        settings = record {
          row_limit = number_in row_limits 100 (number_of (get_in (lit "rowLimit") settings));
          statement_timeout =
              number_in statement_timeouts 15
                (number_of (get_in (lit "statementTimeout") settings));
        };
      }

  pub normalize_parsed : Option Json → Option Workspace
  unfolding normalize_object has_version truthy get
  normalize_parsed none = none
  normalize_parsed (some parsed) =
      if truthy (some parsed)
      then (if has_version (get (lit "version") parsed)
          then some (normalize_object parsed)
          else none)
      else none

  -- `normalizeWorkspace` on the text in storage; `null` there is the text's absence.
  pub normalize_workspace : Option Text → Option Workspace
  unfolding normalize_parsed
  normalize_workspace none = none
  normalize_workspace (some raw) = normalize_parsed (p.parse_json raw)

tab_json : QueryTab → Json
tab_json tab = obj (
    field (lit "id") (str tab.id) (
      field (lit "name") (str tab.name) (
        field (lit "sql") (str tab.sql)
          (field (lit "connection_scope") (str tab.connection_scope) end))))

settings_json : Settings → Json
settings_json s = obj (
    field (lit "rowLimit") (num (nat s.row_limit))
      (field (lit "statementTimeout") (num (nat s.statement_timeout)) end))

-- The object that `persistWorkspace` hands to `JSON.stringify`.
pub workspace_json : Workspace → Json
unfolding tab_json settings_json of_list
workspace_json w = obj (
    field (lit "version") (num (nat workspace_version)) (
      field (lit "query_tabs") (arr (of_list (map tab_json w.query_tabs))) (
        field (lit "active_query_tab_id") (str w.active_query_tab_id) (
          field (lit "query_history") (arr (of_list w.query_history)) (
            field (lit "saved_queries") (arr (of_list w.saved_queries)) (
              field (lit "recent_objects") (arr (of_list w.recent_objects)) (
                field (lit "pinned_objects") (arr (of_list w.pinned_objects)) (
                  field (lit "schema_snapshots") (arr (of_list w.schema_snapshots))
                    (field (lit "settings") (settings_json w.settings) end)))))))))
