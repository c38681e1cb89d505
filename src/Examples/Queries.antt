-- ===== src/Examples/Queries.antt =====
-- The query page at a concrete session.
use rowake.Prelude.{lit, ◌≡◌, refl, some, List, [], ◌∷◌, arith, take, or_else, ◌==◌}
use rowake.Workspace.{sql_limit}
use rowake.Workspace.Bounds.{TabFits}
use rowake.Workspace.RoundTrip.{IsNamed}
use rowake.Session.{Env, history}
use rowake.Session.Actions.{activate_query_tab, toggle_panel}
use rowake.Session.Valid.{IsValid, IsUsable}
use rowake.Session.Events.{
  Event, new_tab, activate, edit, close, run_it, handle_all, handle_all-IsValid,
}
use rowake.Session.Switching.{
  sql_of, default_sql, activate_query_tab-saves, activate_query_tab-overwrites,
}
use rowake.Examples.{first_tab, second_tab, session, env}

env-IsUsable : IsUsable env
env-IsUsable = record { scope = omega arith; fresh = refl }

pub first_tab-Fits : TabFits first_tab
first_tab-Fits = record { name = omega arith; sql = omega arith; scope = omega arith }

pub second_tab-Fits : TabFits second_tab
second_tab-Fits = record { name = omega arith; sql = omega arith; scope = omega arith }

pub first_tab-Named : IsNamed first_tab
first_tab-Named = record { id = refl; name = refl }

pub second_tab-Named : IsNamed second_tab
second_tab-Named = record { id = refl; name = refl }

pub session-IsValid : IsValid session
unfolding ◌==◌
session-IsValid = record {
  active = refl;
  fits = (first_tab-Fits, (second_tab-Fits, tt));
  named = (first_tab-Named, (second_tab-Named, tt));
}

abbrev events : List (Env × Event)
events =
    (env, activate (lit "b"))
    ∷ (env, edit (lit "SELECT 3"))
    ∷ (env, close (lit "a"))
    ∷ (env, new_tab)
    ∷ (env, run_it)
    ∷ []

handle_all_example : IsValid (handle_all events session)
handle_all_example =
    handle_all-IsValid events session
      (env-IsUsable, (env-IsUsable, (env-IsUsable, (env-IsUsable, (env-IsUsable, tt)))))
      session-IsValid

saves_example :
    (sql_of (lit "a") (activate_query_tab env (lit "b") session)
      ≡ some (take sql_limit (lit "SELECT 1 + 1")))
    × ((activate_query_tab env (lit "b") session).editor
        ≡ some (or_else (lit "SELECT 2") default_sql))
unfolding ◌==◌
saves_example =
    activate_query_tab-saves env session (lit "SELECT 1 + 1") (lit "b") second_tab first_tab refl
      refl refl refl refl

overwrites_example :
    (sql_of (lit "b") (activate_query_tab env (lit "b") session)
      ≡ some (take sql_limit (lit "SELECT 1 + 1")))
    × ((toggle_panel env history (activate_query_tab env (lit "b") session)).editor
        ≡ some (or_else (take sql_limit (lit "SELECT 1 + 1")) default_sql))
unfolding ◌==◌
overwrites_example =
    activate_query_tab-overwrites env session (lit "SELECT 1 + 1") (lit "b") second_tab first_tab
      refl refl refl refl refl history
