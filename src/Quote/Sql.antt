-- ===== src/Quote/Sql.antt =====
-- What the SQL quotations guarantee.
use rowake.Prelude.{
  ℕ, Text, ◌≡◌, ap, false, some, [], ◌∷◌, ◌++◌, append_assoc, nat_eq, nat_eq_refl, arith,
  Bool-cases, inl, inr,
}
use rowake.Quote.{replace_all, quoted, quote_identifier, quote_literal, read_body, read_quoted}

-- The text does not go on with the quote `q`.
abbrev pub Ends : ℕ → Text → Type 0
Ends q [] = Unit
Ends q (c ∷ s) = nat_eq c q ≡ false

read_body-close : (q : ℕ) (rest : Text) → Ends q rest → read_body q (q ∷ rest) ≡ some ([], rest)
unfolding read_body
read_body-close q [] h = rw (nat_eq_refl q)
read_body-close q (c ∷ rest) h = ground arith

read_body-double :
    (q : ℕ) (s t rest : Text)
    → read_body q s ≡ some (t, rest)
    → read_body q (q ∷ q ∷ s) ≡ some (q ∷ t, rest)
unfolding read_body
read_body-double q s t rest h = ground arith

read_body-other :
    (q c : ℕ) (s t rest : Text)
    → nat_eq c q ≡ false
    → read_body q s ≡ some (t, rest)
    → read_body q (c ∷ s) ≡ some (c ∷ t, rest)
unfolding read_body
read_body-other q c [] t rest e h = cc
read_body-other q c (d ∷ s) t rest e h = ground arith

read_body-replace_all :
    (q : ℕ) (v rest : Text)
    → Ends q rest
    → read_body q (replace_all q (q ∷ q ∷ []) v ++ q ∷ rest) ≡ some (v, rest)
unfolding replace_all
read_body-replace_all q [] rest h = read_body-close q rest h
read_body-replace_all q (c ∷ v) rest h = elim (Bool-cases (nat_eq c q)) [
  | inl e ↦ rw e (
      rw (read_body-double q _ v rest (read_body-replace_all q v rest h))
        (ap (λ (d : ℕ). some (d ∷ v, rest)) (ground arith)))
  | inr e ↦ rw e (read_body-other q c _ v rest e (read_body-replace_all q v rest h))
]

read_quoted-quoted :
    (q : ℕ) (v rest : Text) → Ends q rest → read_quoted q (quoted q v ++ rest) ≡ some (v, rest)
unfolding read_quoted quoted
read_quoted-quoted q v rest h =
    rw (nat_eq_refl q) (rw append_assoc (read_body-replace_all q v rest h))

-- SQL reads a quoted identifier back as the one name that was quoted, whatever characters it has,
-- and goes on right behind it, if what follows does not begin with a double quote.
pub read_quoted-quote_identifier :
    (name rest : Text)
    → Ends 34 rest
    → read_quoted 34 (quote_identifier name ++ rest) ≡ some (name, rest)
unfolding quote_identifier
read_quoted-quote_identifier name rest h = read_quoted-quoted 34 name rest h

-- SQL reads a quoted string literal back as the string, whatever characters it has, and goes on
-- right behind it, if what follows does not begin with a single quote.
pub read_quoted-quote_literal :
    (value rest : Text)
    → Ends 39 rest
    → read_quoted 39 (quote_literal value ++ rest) ≡ some (value, rest)
unfolding quote_literal
read_quoted-quote_literal value rest h = read_quoted-quoted 39 value rest h
