-- ===== src/Session/Format.antt =====
-- The action `format-query` of webembed/src/app.js: four keywords come to stand at the begin of a
-- line, in capital letters. In `\s+from\s+` and the others each repetition takes all white space
-- that it finds, since no keyword begins with any.
pub mod Letters
use rowake.Prelude.{
  ℕ, zero, suc, ◌-◌, Text, lit, Option, none, some, List, [], ◌∷◌, ◌++◌, if◌then◌else◌, is_space,
  length,
}
use rowake.Completion.Context.{match_word, skip_spaces}
use rowake.Session.{Session, Env}
use rowake.Session.Actions.{edit_document}

-- `\s+`: what stands behind it
unfoldable pub match_spaces : Text → Option Text
unfolding is_space skip_spaces
match_spaces [] = none
match_spaces (c ∷ s) = if is_space c then some (skip_spaces s) else none

-- keywords, each with white space behind it
unfoldable pub match_words : List Text → Text → Option Text
unfolding match_word match_spaces
match_words [] s = some s
match_words (word ∷ words) s = elim (match_word word s) [
  | none ↦ none
  | some rest ↦ elim (match_spaces rest) [ none ↦ none | some after ↦ match_words words after ]
]

-- the same with white space in front
unfoldable pub match_clause : List Text → Text → Option Text
unfolding match_spaces match_words
match_clause words s = elim (match_spaces s) [ none ↦ none | some rest ↦ match_words words rest ]

-- `replace(…, text)` for all matches; `skip` characters belong to a match.
unfoldable pub replace_clause : List Text → Text → ℕ → Text → Text
unfolding match_clause
replace_clause words text skip [] = []
replace_clause words text (suc skip) (c ∷ s) = replace_clause words text skip s
replace_clause words text zero (c ∷ s) = elim (match_clause words (c ∷ s)) [
  | none ↦ c ∷ replace_clause words text 0 s
  | some rest ↦ text ++ replace_clause words text (length s - length rest) s
]

unfoldable pub formatted : Text → Text
unfolding replace_clause
formatted sql =
    let from = replace_clause (lit "FROM" ∷ []) (10 ∷ lit "FROM ") 0 sql in
    let filtered = replace_clause (lit "WHERE" ∷ []) (10 ∷ lit "WHERE ") 0 from in
    let ordered = replace_clause (lit "ORDER" ∷ lit "BY" ∷ []) (10 ∷ lit "ORDER BY ") 0 filtered in
    replace_clause (lit "LIMIT" ∷ []) (10 ∷ lit "LIMIT ") 0 ordered

-- The editor's document is replaced, which its update listener reports.
unfoldable pub format_query : Env → Session → Session
unfolding formatted edit_document
format_query e s = elim s.editor [ none ↦ s | some doc ↦ edit_document e (formatted doc) s ]
