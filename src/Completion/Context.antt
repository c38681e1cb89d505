-- ===== src/Completion/Context.antt =====
-- Where suggestions are made (webembed/src/app.js): `referencedQueryTables`,
-- `contextualSQLCompletion` and `shouldStartQueryCompletion`. Their regular expressions are matchers
-- by clauses. Each has one way to match at a place at most, since what may follow a repetition is
-- never in its class; those that end in `\s*$` are read from the end of the text.
use rowake.Prelude.{
  ℕ, zero, suc, ◌-◌, Text, lit, Bool, true, false, not, ◌&&◌, ◌||◌, Option, none, some, List, [],
  ◌∷◌, ◌++◌, if◌then◌else◌, leb, nat_eq, any, drop, length, is_space, join, map,
}
use mathlib.Core.List.{reverse}
use rowake.Completion.{
  Completion, column_section, is_letter, starts_name, in_name, completion_option, Source, Available,
  available_query_columns,
}

-- `\w`
unfoldable pub is_word : ℕ → Bool
is_word c = is_letter c || (leb b'0' c && leb c b'9') || nat_eq c b'_'

-- The flag `i`, for keywords in capital letters.
unfoldable pub capital : ℕ → ℕ
capital c = if leb b'a' c && leb c b'z' then c - 32 else c

-- a keyword at the head of the text, and what stands behind it
unfoldable pub match_word : Text → Text → Option Text
unfolding capital
match_word [] s = some s
match_word (k ∷ ks) [] = none
match_word (k ∷ ks) (c ∷ s) =
    let rest = match_word ks s in if nat_eq (capital c) k then rest else none

unfoldable pub skip_spaces : Text → Text
unfolding is_space
skip_spaces [] = []
skip_spaces (c ∷ s) = let rest = skip_spaces s in if is_space c then rest else c ∷ s

-- `[A-Za-z0-9_$]*`: the name, and what stands behind it
unfoldable pub name_rest : Text → Text × Text
unfolding in_name
name_rest [] = ([], [])
name_rest (c ∷ s) =
    let rest = name_rest s in if in_name c then (c ∷ rest.0, rest.1) else ([], c ∷ s)

-- `[A-Za-z_][A-Za-z0-9_$]*`
unfoldable pub match_name : Text → Option (Text × Text)
unfolding starts_name name_rest
match_name [] = none
match_name (c ∷ s) =
    let (name, rest) = name_rest s in if starts_name c then some (c ∷ name, rest) else none

-- `"`, if it stands there
unfoldable pub skip_quote : Text → Text
skip_quote [] = []
skip_quote (c ∷ s) = if nat_eq c 34 then s else c ∷ s

-- `"?([A-Za-z_][A-Za-z0-9_$]*)"?`
unfoldable pub match_table : Text → Option (Text × Text)
unfolding match_name skip_quote
match_table s = elim (match_name (skip_quote s)) [
  | none ↦ none
  | some (name, rest) ↦ some (name, skip_quote rest)
]

-- `[^"]*"`: what stands behind it
unfoldable pub close_quote : Text → Option Text
close_quote [] = none
close_quote (c ∷ s) = let rest = close_quote s in if nat_eq c 34 then some s else rest

-- `"[^"]+"|[A-Za-z_][A-Za-z0-9_$]*`: what stands behind it
unfoldable pub match_schema : Text → Option Text
unfolding close_quote match_name
match_schema [] = none
match_schema (c ∷ s) =
    if nat_eq c 34
    then elim s [ [] ↦ none | d ∷ t ↦ if nat_eq d 34 then none else close_quote (d ∷ t) ]
    else elim (match_name (c ∷ s)) [ none ↦ none | some (name, rest) ↦ some rest ]

-- `\s*\.\s*`
unfoldable pub match_dot : Text → Option Text
unfolding skip_spaces
match_dot s = elim (skip_spaces s) [
  | [] ↦ none
  | c ∷ rest ↦ if nat_eq c b'.' then some (skip_spaces rest) else none
]

-- the table with a schema in front
unfoldable pub match_qualified : Text → Option (Text × Text)
unfolding match_schema match_dot match_table
match_qualified s = elim (match_schema s) [
  | none ↦ none
  | some rest ↦ elim (match_dot rest) [ none ↦ none | some after ↦ match_table after ]
]

-- the part behind `FROM` or `JOIN`
unfoldable pub match_reference : Text → Option (Text × Text)
unfolding skip_spaces match_qualified match_table is_space
match_reference [] = none
match_reference (c ∷ s) =
    if is_space c
    then (let target = skip_spaces s in
        elim (match_qualified target) [ some found ↦ some found | none ↦ match_table target ])
    else none

-- The expression at the head of the text: the name that it captures, and what stands behind it.
unfoldable pub match_from : Text → Option (Text × Text)
unfolding match_word match_reference
match_from s = elim (match_word (lit "FROM") s) [
  | some rest ↦ match_reference rest
  | none ↦ elim (match_word (lit "JOIN") s) [ some rest ↦ match_reference rest | none ↦ none ]
]

-- `matchAll`: `inside` says that the character before is of `\w`, and `skip` characters belong to a
-- match.
unfoldable pub references : Bool → ℕ → Text → List Text
unfolding match_from is_word
references inside skip [] = []
references inside (suc skip) (c ∷ s) = references (is_word c) skip s
references inside zero (c ∷ s) = elim (if inside then none else match_from (c ∷ s)) [
  | none ↦ references (is_word c) 0 s
  | some (name, rest) ↦ name ∷ references (is_word c) (length s - length rest) s
]

-- `referencedQueryTables`
unfoldable pub referenced_query_tables : Text → List Text
unfolding references
referenced_query_tables sql = references false 0 sql

-- From the end of a text: the keyword, with a boundary in front of it.
abbrev after_boundary : Option Text → Bool
after_boundary none = false
after_boundary (some []) = true
after_boundary (some (c ∷ s)) = not (is_word c)

ends_in_word : Text → Text → Bool
unfolding match_word is_word
ends_in_word backwards keyword = after_boundary (match_word (reverse keyword) backwards)

unfoldable pub ends_in : List Text → Text → Bool
unfolding ends_in_word
ends_in keywords backwards = any (ends_in_word backwards) keywords

abbrev pub starts_with_code : ℕ → Text → Bool
starts_with_code c [] = false
starts_with_code c (d ∷ s) = nat_eq c d

abbrev table_keywords : List Text
table_keywords = lit "FROM" ∷ lit "JOIN" ∷ lit "UPDATE" ∷ lit "INTO" ∷ []

abbrev column_keywords : List Text
column_keywords =
    lit "SELECT" ∷ lit "WHERE" ∷ lit "ON" ∷ lit "HAVING" ∷ lit "BY" ∷ lit "AND" ∷ lit "OR" ∷ []

-- Columns are suggested where this holds of the text before the word at the caret.
unfoldable pub wants_columns : Text → Bool
unfolding skip_spaces ends_in
wants_columns before =
    let backwards = skip_spaces (reverse before) in
    not (starts_with_code b'.' backwards)
    && not (ends_in table_keywords backwards)
    && (ends_in column_keywords backwards || starts_with_code b',' backwards)

unfoldable pub column_option : Available → Completion
unfolding completion_option
column_option a =
    completion_option a.name (lit "property") (a.data_type ++ lit " · " ++ join (lit ", ") a.tables)
      90 column_section

-- `contextualSQLCompletion`, over the text before the word that `matchBefore` finds
unfoldable pub contextual_sql_completion :
    (Text → Text) → List Source → Text → Option (List Completion)
unfolding wants_columns referenced_query_tables column_option
contextual_sql_completion lower tables before =
    if wants_columns before
    then elim (map column_option
        (available_query_columns lower (referenced_query_tables before) tables)) [
          | [] ↦ none
          | option ∷ options ↦ some (option ∷ options)
        ]
    else none

abbrev start_keywords : List Text
start_keywords =
    lit "SELECT"
    ∷ lit "FROM"
    ∷ lit "JOIN"
    ∷ lit "UPDATE"
    ∷ lit "INTO"
    ∷ lit "WHERE"
    ∷ lit "ON"
    ∷ lit "AND"
    ∷ lit "OR"
    ∷ lit "BY"
    ∷ lit "HAVING"
    ∷ []

starts_behind : ℕ → Text → Bool
unfolding is_space skip_spaces ends_in
starts_behind c slice =
    if is_letter c || nat_eq c b'_' || nat_eq c b'$' || nat_eq c b'.' || nat_eq c b','
    then true
    else is_space c && ends_in start_keywords (skip_spaces slice)

-- `shouldStartQueryCompletion`, over the text before the caret; the last 48 characters count
unfoldable pub should_start_query_completion : Text → Bool
unfolding starts_behind
should_start_query_completion before = elim (reverse before) [
  | [] ↦ false
  | c ∷ rest ↦ starts_behind c (reverse (drop (length before - 48) before))
]
