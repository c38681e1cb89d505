-- ===== src/Examples/Formatting.antt =====
-- "Format" on the query page at a concrete text.
use rowake.Prelude.{Text, lit, ◌≡◌, refl, some, ◌∷◌, ◌++◌, take}
use rowake.Workspace.{sql_limit}
use rowake.Session.{Session}
use rowake.Session.Format.{formatted, format_query}
use rowake.Session.Format.Letters.{letters, format_query-letters}
use rowake.Examples.{session, env}

abbrev typed : Text
typed = lit "SELECT 1  from t order  By 1"

abbrev typed_session : Session
typed_session = record session { editor = some typed }

lines : formatted typed ≡ lit "SELECT 1" ++ 10 ∷ (lit "FROM t" ++ 10 ∷ lit "ORDER BY 1")
unfolding formatted
lines = refl

-- A string literal is changed too.
literal : formatted (lit "SELECT 'a from b'") ≡ lit "SELECT 'a" ++ 10 ∷ lit "FROM b'"
unfolding formatted
literal = refl

format_example :
    ((format_query env typed_session).editor ≡ some (formatted typed))
    × ((format_query env typed_session).query_sql ≡ take sql_limit (formatted typed))
    × (letters (formatted typed) ≡ letters typed)
format_example = format_query-letters env typed_session typed refl
