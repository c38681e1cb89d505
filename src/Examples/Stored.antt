-- ===== src/Examples/Stored.antt =====
-- The stored workspace at concrete texts.
use rowake.Prelude.{
  ℕ, zero, suc, Text, lit, ◌≡◌, refl, Option, none, some, List, [], ◌∷◌, arith, take, All, ◌==◌,
  if◌then◌else◌,
}
use rowake.Json.{Json, other}
use rowake.Workspace.{QueryTab, Workspace, Platform, normalize_workspace, workspace_json, tab_limit}
use rowake.Workspace.Bounds.{TabFits, IsBounded, normalize_workspace-IsBounded}
use rowake.Workspace.RoundTrip.{
  IsNamed, normalize_workspace-workspace_json, normalize_workspace-keeps,
}
use rowake.Session.{active_query_tab, load_workspace}
use rowake.Session.Stored.{IsSmall, load_workspace-stored}
use rowake.Examples.{first_tab, second_tab, workspace, session, env}
use rowake.Examples.Queries.{
  first_tab-Fits, second_tab-Fits, first_tab-Named, second_tab-Named, session-IsValid,
}

abbrev stored : Text
stored = lit "the stored text"

-- What the platform reads back from that text, and from no other.
parse_stored : Json → Text → Option Json
unfolding ◌==◌
parse_stored j t = if t == stored then some j else none

abbrev platform : Workspace → Platform
platform w = record {
  parse_json = parse_stored (workspace_json w);
  number_of_text = λ t. other (lit "NaN");
}

workspace-Fits : All TabFits workspace.query_tabs
workspace-Fits = (first_tab-Fits, (second_tab-Fits, tt))

workspace-Named : All IsNamed workspace.query_tabs
workspace-Named = (first_tab-Named, (second_tab-Named, tt))

workspace-IsBounded : IsBounded workspace
unfolding ◌==◌
workspace-IsBounded = record {
  tab_count = omega arith;
  tabs = workspace-Fits;
  active = refl;
  history = omega arith;
  saved = omega arith;
  recent = omega arith;
  pinned = omega arith;
  snapshots = omega arith;
  row_limit = refl;
  timeout = refl;
}

workspace-IsSmall : IsSmall workspace
workspace-IsSmall = record {
  tab_count = omega arith;
  history = omega arith;
  saved = omega arith;
  recent = omega arith;
  pinned = omega arith;
  snapshots = omega arith;
  row_limit = refl;
  timeout = refl;
}

stored_example :
    ((load_workspace env
        (platform workspace)
        (some stored)
        (record session { query_sql = [] })).workspace
      ≡ workspace)
    × ((load_workspace env
          (platform workspace)
          (some stored)
          (record session { query_sql = [] })).query_sql
        ≡ (active_query_tab env session).0.sql)
unfolding parse_stored
stored_example =
    load_workspace-stored env (platform workspace) session (record session { query_sql = [] })
      stored session-IsValid workspace-IsSmall refl

round_trip_example : normalize_workspace (platform workspace) (some stored) ≡ some workspace
unfolding parse_stored
round_trip_example =
    normalize_workspace-workspace_json (platform workspace) workspace workspace-IsBounded
      workspace-Named stored refl

bounded_example : IsBounded workspace
unfolding parse_stored
bounded_example = normalize_workspace-IsBounded (platform workspace) (some stored) workspace (
    normalize_workspace-workspace_json (platform workspace) workspace workspace-IsBounded
      workspace-Named stored refl)

abbrev copies : ℕ → List QueryTab
copies zero = []
copies (suc n) = second_tab ∷ copies n

-- Twenty-one tabs.
abbrev many_tabs : List QueryTab
many_tabs = first_tab ∷ copies 20

abbrev many : Workspace
many = record workspace { query_tabs = many_tabs }

copies-Fits : (n : ℕ) → All TabFits (copies n)
copies-Fits zero = tt
copies-Fits (suc n) = (second_tab-Fits, copies-Fits n)

copies-Named : (n : ℕ) → All IsNamed (copies n)
copies-Named zero = tt
copies-Named (suc n) = (second_tab-Named, copies-Named n)

keeps_example :
    (w : Workspace) × (normalize_workspace (platform many) (some stored) ≡ some w)
    × (w.query_tabs ≡ take tab_limit many.query_tabs)
    × (w.saved_queries ≡ take 100 many.saved_queries)
unfolding parse_stored
keeps_example =
    normalize_workspace-keeps (platform many) many (first_tab-Fits, copies-Fits 20)
      (first_tab-Named, copies-Named 20) stored refl
