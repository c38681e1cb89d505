-- ===== src/Quote.antt =====
-- Escaping (webembed/src/app.js): `html` for markup, `quoteIdentifier` and the string literals of
-- "Copy WHERE" for SQL, the statement of "Query", and the reference readers of these notations.
pub mod Html
pub mod Sql
use rowake.Prelude.{
  ℕ, zero, suc, Text, lit, Bool, true, false, Option, none, some, List, [], ◌∷◌, ◌++◌, nat_eq,
  if◌then◌else◌, starts_with, decimal,
}

-- `s.replaceAll(c, r)` for a text `c` of one code unit
unfoldable pub replace_all : ℕ → Text → Text → Text
replace_all c r [] = []
replace_all c r (d ∷ s) = let rest = replace_all c r s in if nat_eq d c then r ++ rest else d ∷ rest

abbrev pub amp : Text
amp = lit "&amp;"

abbrev pub quot : Text
quot = lit "&quot;"

-- The chain of five replacements, `&` first.
unfoldable pub html : Text → Text
html value =
    let no_amp = replace_all 38 amp value in
    let no_lt = replace_all 60 (lit "&lt;") no_amp in
    let no_gt = replace_all 62 (lit "&gt;") no_lt in
    let no_quot = replace_all 34 quot no_gt in replace_all 39 (lit "&#039;") no_quot

-- A text between quotes `q`, with each `q` inside doubled.
unfoldable pub quoted : ℕ → Text → Text
quoted q value = q ∷ (replace_all q (q ∷ q ∷ []) value ++ q ∷ [])

unfoldable pub quote_identifier : Text → Text
unfolding quoted
quote_identifier value = quoted 34 value

-- `'${String(value).replaceAll("'", "''")}'` of the action `copy-where`
unfoldable pub quote_literal : Text → Text
unfolding quoted
quote_literal value = quoted 39 value

-- The statement of the action `query-table`.
unfoldable pub table_statement : Text → Text → ℕ → Text
unfolding quote_identifier
table_statement schema table limit =
    lit "SELECT *"
    ++ 10
      ∷ (lit "FROM "
          ++ quote_identifier schema
          ++ b'.' ∷ (quote_identifier table ++ 10 ∷ (lit "LIMIT " ++ decimal limit ++ b';' ∷ [])))

-- How a browser reads a text with character references: the character that stands first, and how
-- many further code units it takes.
pub reference : ℕ → Text → ℕ × ℕ
reference c s =
    if starts_with amp (c ∷ s)
    then (38, 4)
    else if starts_with (lit "&lt;") (c ∷ s)
    then (60, 3)
    else if starts_with (lit "&gt;") (c ∷ s)
    then (62, 3)
    else if starts_with quot (c ∷ s)
    then (34, 5)
    else if starts_with (lit "&#039;") (c ∷ s)
    then (39, 5)
    else (c, 0)

-- The text that is shown, after `skip` code units that are part of a reference.
unfoldable pub shown : ℕ → Text → Text
unfolding reference
shown skip [] = []
shown (suc skip) (c ∷ s) = shown skip s
shown zero (c ∷ s) = let (d, skip) = reference c s in d ∷ shown skip s

abbrev add_head : ℕ → Option (Text × Text) → Option (Text × Text)
add_head c none = none
add_head c (some (t, rest)) = some (c ∷ t, rest)

-- How SQL reads a quoted token behind its opening quote: the value, and what follows the token.
unfoldable pub read_body : ℕ → Text → Option (Text × Text)
read_body q [] = none
read_body q (c ∷ []) = if nat_eq c q then some ([], []) else none
read_body q (c ∷ d ∷ s) = elim (nat_eq c q) [
  | false ↦ add_head c (read_body q (d ∷ s))
  | true ↦ elim (nat_eq d q) [ true ↦ add_head q (read_body q s) | false ↦ some ([], d ∷ s) ]
]

unfoldable pub read_quoted : ℕ → Text → Option (Text × Text)
unfolding read_body
read_quoted q [] = none
read_quoted q (c ∷ s) = if nat_eq c q then read_body q s else none
