-- ===== src/Completion/Inserted.antt =====
-- How SQL reads the text that a suggestion of `completionOption` (webembed/src/app.js) inserts.
use rowake.Prelude.{
  ℕ, Text, ◌≡◌, refl, Bool, true, false, Option, none, some, [], ◌∷◌, ◌++◌, map, if◌then◌else◌,
  nat_eq, all, arith, &&-left, &&-right,
}
use rowake.Quote.{read_quoted}
use rowake.Completion.{starts_name, in_name}
use rowake.Completion.Context.{name_rest}

-- The text does not go on with a character of a name.
abbrev pub EndsName : Text → Type 0
EndsName [] = Unit
EndsName (c ∷ s) = in_name c ≡ false

-- The name that stands without quotes, where the server changes each character by `fold`; a reserved
-- word is no name.
plain_name : (ℕ → ℕ) → (Text → Bool) → Text × Text → Option (Text × Text)
plain_name fold reserved (name, rest) =
    if reserved (map fold name) then none else some (map fold name, rest)

-- How SQL reads an identifier: between double quotes as it is written, and otherwise up to the end
-- of the name.
pub read_identifier : (ℕ → ℕ) → (Text → Bool) → Text → Option (Text × Text)
unfolding name_rest plain_name
read_identifier fold reserved [] = none
read_identifier fold reserved (c ∷ s) =
    if nat_eq c 34
    then read_quoted 34 (c ∷ s)
    else if starts_name c
    then plain_name fold reserved (name_rest (c ∷ s))
    else none

pub name_rest-append :
    (s rest : Text) → all in_name s ≡ true → EndsName rest → name_rest (s ++ rest) ≡ (s, rest)
unfolding name_rest
name_rest-append [] [] h e = refl
name_rest-append [] (c ∷ rest) h e = rw (e, if◌then◌else◌)
name_rest-append (c ∷ s) rest h e =
    rw (&&-left (in_name c) (all in_name s) h, if◌then◌else◌)
      (rw (name_rest-append s rest (&&-right (in_name c) (all in_name s) h) e))

pub starts-in_name : (c : ℕ) → starts_name c ≡ true → in_name c ≡ true
unfolding starts_name in_name
starts-in_name c h = ground arith
