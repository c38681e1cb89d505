-- ===== src/Completion/Statement.antt =====
-- The statement that the action `query-table` of webembed/src/app.js opens, read by
-- `referencedQueryTables`.
use rowake.Prelude.{
  ℕ, suc, ◌-◌, Text, lit, ◌≡◌, refl, ap, ◌∙◌, Bool, true, false, not, ◌&&◌, Option, none, some, [],
  ◌∷◌, ◌++◌, append_assoc, if◌then◌else◌, nat_eq, all, length, length-append, is_digit, decimal,
  decimal-is_digit, arith, &&-left, &&-right,
}
use rowake.Quote.{table_statement, replace_all}
use rowake.Completion.{is_plain, starts_name, in_name}
use rowake.Completion.Context.{
  is_word, capital, match_word, match_table, close_quote, match_reference, match_from, references,
  referenced_query_tables,
}
use rowake.Completion.Inserted.{name_rest-append, starts-in_name}

-- A text without a double quote.
abbrev pub has_no_quote : Text → Bool
has_no_quote s = all (λ c. not (nat_eq c 34)) s

replace_all-none : (r s : Text) → has_no_quote s ≡ true → replace_all 34 r s ≡ s
unfolding replace_all
replace_all-none r [] h = refl
replace_all-none r (c ∷ s) h = ground (arith, replace_all-none r s)

close_quote-append :
    (s rest : Text) → has_no_quote s ≡ true → close_quote (s ++ 34 ∷ rest) ≡ some rest
unfolding close_quote
close_quote-append [] rest h = refl
close_quote-append (c ∷ s) rest h = ground (arith, close_quote-append s rest)

match_table-quoted :
    (table tail : Text)
    → is_plain table ≡ true
    → match_table (34 ∷ (table ++ 34 ∷ tail)) ≡ some (table, tail)
unfolding match_table is_plain in_name starts_name
match_table-quoted [] tail h = cc
match_table-quoted (c ∷ s) tail h =
    rw
      (
        name_rest-append s (34 ∷ tail) (&&-right (starts_name c) (all in_name s) h) refl,
        match_table,
      )
      (rw (&&-left (starts_name c) (all in_name s) h))

-- What an alternative gives where its first branch matches.
or_first :
    {A : Type 0} {v : A} (o x : Option A)
    → o ≡ some v
    → elim o as (λ _. Option A) [ none ↦ x | some found ↦ some found ] ≡ some v
or_first o x e = rw e

of_not : (b : Bool) → not b ≡ true → b ≡ false
of_not b h = ground arith

match_reference-quoted :
    (d : ℕ) (schema table tail : Text)
    → has_no_quote (d ∷ schema) ≡ true
    → is_plain table ≡ true
    → match_reference (32 ∷ 34 ∷ ((d ∷ schema) ++ 34 ∷ 46 ∷ 34 ∷ (table ++ 34 ∷ tail)))
      ≡ some (table, tail)
unfolding match_reference
match_reference-quoted d schema table tail h p =
    rw (of_not (nat_eq d 34) (&&-left (not (nat_eq d 34)) (has_no_quote schema) h)) (
      rw
        (close_quote-append schema (46 ∷ 34 ∷ (table ++ 34 ∷ tail))
          (&&-right (not (nat_eq d 34)) (has_no_quote schema) h))
        (or_first _ _ (match_table-quoted table tail p)))

-- A character at which no match begins.
abbrev no_keyword : ℕ → Bool
no_keyword c = not (nat_eq (capital c) b'F') && not (nat_eq (capital c) b'J')

match_word-none :
    (k c : ℕ) (ks s : Text) → nat_eq (capital c) k ≡ false → match_word (k ∷ ks) (c ∷ s) ≡ none
unfolding match_word
match_word-none k c ks s e = rw (e, if◌then◌else◌)

match_from-none : (c : ℕ) (s : Text) → no_keyword c ≡ true → match_from (c ∷ s) ≡ none
unfolding match_from
match_from-none c s h =
    rw
      (
        match_word-none b'F' c (lit "ROM") s
            (of_not _ (&&-left _ (not (nat_eq (capital c) b'J')) h)),
        match_from,
      )
      (rw (
        match_word-none b'J' c (lit "OIN") s
            (of_not _ (&&-right (not (nat_eq (capital c) b'F')) _ h)),
        match_from,
      ))

references-none : (inside : Bool) (s : Text) → all no_keyword s ≡ true → references inside 0 s ≡ []
unfolding references
references-none inside [] h = refl
references-none true (c ∷ s) h =
    references-none (is_word c) s (&&-right (no_keyword c) (all no_keyword s) h)
references-none false (c ∷ s) h =
    rw (match_from-none c s (&&-left (no_keyword c) (all no_keyword s) h), references)
      (references-none (is_word c) s (&&-right (no_keyword c) (all no_keyword s) h))

references-skip :
    (inside : Bool) (s tail : Text)
    → references inside (suc (length s)) (s ++ 34 ∷ tail) ≡ references false 0 tail
unfolding references
references-skip inside [] tail = refl
references-skip inside (c ∷ s) tail = references-skip (is_word c) s tail

match_from-keyword : (s : Text) → match_from (lit "FROM" ++ s) ≡ match_reference s
unfolding match_from
match_from-keyword s = refl

skipped : (p tail : Text) → length (p ++ 34 ∷ tail) - length tail ≡ suc (length p)
skipped p tail = omega (arith, length-append p (34 ∷ tail))

-- Behind `FROM`, the table is found, and the scan goes on behind its closing quote.
references-found :
    (p table tail : Text)
    → match_reference (p ++ 34 ∷ tail) ≡ some (table, tail)
    → references false 0 (lit "FROM" ++ (p ++ 34 ∷ tail)) ≡ table ∷ references false 0 tail
unfolding references
references-found p table tail h =
    rw (match_from-keyword (p ++ 34 ∷ tail) ∙ h, references)
      (ap (table ∷◌) (
        ap (λ (n : ℕ). references true n (lit "ROM" ++ (p ++ 34 ∷ tail)))
          (skipped (lit "ROM" ++ p) tail)
        ∙ references-skip true (lit "ROM" ++ p) tail))

all-weaken :
    (p q : ℕ → Bool) (s : Text)
    → ((c : ℕ) → p c ≡ true → q c ≡ true)
    → all p s ≡ true
    → all q s ≡ true
all-weaken p q [] w h = refl
all-weaken p q (c ∷ s) w h =
    rw (w c (&&-left (p c) (all p s) h)) (all-weaken p q s w (&&-right (p c) (all p s) h))

in_name-ne : (c : ℕ) → in_name c ≡ true → not (nat_eq c 34) ≡ true
unfolding in_name
in_name-ne c h = ground arith

digit-no_keyword : (c : ℕ) → is_digit c ≡ true → no_keyword c ≡ true
unfolding is_digit capital
digit-no_keyword c h = ground arith

all-push :
    (p : ℕ → Bool) (s : Text) (c : ℕ) → all p s ≡ true → p c ≡ true → all p (s ++ c ∷ []) ≡ true
all-push p [] c h k = rw k
all-push p (d ∷ s) c h k =
    rw (&&-left (p d) (all p s) h) (all-push p s c (&&-right (p d) (all p s) h) k)

plain-has_no_quote : (s : Text) → is_plain s ≡ true → has_no_quote s ≡ true
unfolding is_plain
plain-has_no_quote [] h = refl
plain-has_no_quote (c ∷ s) h =
    let named : all in_name (c ∷ s) ≡ true =
      rw (starts-in_name c (&&-left (starts_name c) (all in_name s) h))
        (&&-right (starts_name c) (all in_name s) h) in
    all-weaken in_name (λ d. not (nat_eq d 34)) (c ∷ s) in_name-ne named

-- The statement behind the table.
abbrev limit_clause : ℕ → Text
limit_clause limit = 10 ∷ (lit "LIMIT " ++ decimal limit ++ b';' ∷ [])

limit_clause-none : (inside : Bool) (limit : ℕ) → references inside 0 (limit_clause limit) ≡ []
unfolding capital
limit_clause-none inside limit = references-none inside (limit_clause limit) (
    all-push no_keyword (decimal limit) b';'
      (all-weaken is_digit no_keyword (decimal limit) digit-no_keyword (decimal-is_digit limit))
      refl)

table_statement-shape :
    (schema table : Text) (limit : ℕ)
    → has_no_quote schema ≡ true
    → has_no_quote table ≡ true
    → table_statement schema table limit
      ≡ lit "SELECT *"
        ++ 10
          ∷ (lit "FROM"
              ++ ((32 ∷ 34 ∷ (schema ++ 34 ∷ 46 ∷ 34 ∷ table)) ++ 34 ∷ limit_clause limit))
unfolding table_statement
table_statement-shape schema table limit h k =
    rw (replace_all-none _ schema h, replace_all-none _ table k) (simp (append_assoc))

-- In the statement that "Query" opens for a table, that table is found, and no other: if the schema
-- has a name without double quotes, and the table's name is a plain one, which SQL reads without
-- quotes too.
pub referenced-table_statement :
    (d : ℕ) (schema table : Text) (limit : ℕ)
    → has_no_quote (d ∷ schema) ≡ true
    → is_plain table ≡ true
    → referenced_query_tables (table_statement (d ∷ schema) table limit) ≡ table ∷ []
unfolding referenced_query_tables
referenced-table_statement d schema table limit h p =
    rw (table_statement-shape (d ∷ schema) table limit h (plain-has_no_quote table p)) (
      references-found (32 ∷ 34 ∷ ((d ∷ schema) ++ 34 ∷ 46 ∷ 34 ∷ table)) table (limit_clause limit)
        (ap (λ (t : Text). match_reference (32 ∷ 34 ∷ d ∷ t))
            (append_assoc schema (34 ∷ 46 ∷ 34 ∷ table) (34 ∷ limit_clause limit))
          ∙ match_reference-quoted d schema table (limit_clause limit) h p)
      ∙ ap (table ∷◌) (limit_clause-none false limit))
