-- ===== src/Prelude/Texts.antt =====
-- JavaScript strings as lists of UTF-16 code units, with the string methods that the program uses.
use Prim.Native.Nat.{ℕ, zero, suc, ◌+◌, ◌/◌, ◌%◌}
use Prim.Native.Char.{code}
use Prim.Native.String.{String}
use mathlib.Core.Path.{◌≡◌, refl, ap₂}
use mathlib.Core.Logic.{◌↔◌}
use mathlib.Core.Bool.{Bool, true, false, ◌&&◌, ◌||◌}
use mathlib.Core.List.{List, [], ◌∷◌, ◌++◌, reverse}
use native.Mathlib.Omega.{arith}
use rowake.Prelude.Tests.{nat_eq, nat_eq-eq, leb, if◌then◌else◌, &&-left, &&-right, either_branch}
use rowake.Prelude.Lists.{all}

abbrev pub Text : Type 0
Text = List ℕ

-- A literal of the source. Those outside ASCII have one code unit for each character.
abbrev pub lit : String → Text
lit String.[] = []
lit (String.◌∷◌ c s) = code c ∷ lit s

-- `a === b` on strings
infix 50 ◌==◌
unfoldable pub ◌==◌ : Text → Text → Bool
◌==◌ [] [] = true
◌==◌ [] (y ∷ ys) = false
◌==◌ (x ∷ xs) [] = false
◌==◌ (x ∷ xs) (y ∷ ys) = nat_eq x y && xs == ys

pub ==-eq : (s t : Text) → (s == t) ≡ true → s ≡ t
unfolding ◌==◌
==-eq [] [] h = refl
==-eq [] (y ∷ t) h = cc
==-eq (x ∷ s) [] h = cc
==-eq (x ∷ s) (y ∷ t) h =
    ap₂ (λ a l. a ∷ l) (nat_eq-eq x y (&&-left _ _ h)) (==-eq s t (&&-right (nat_eq x y) _ h))

pub ==_refl : (s : Text) → (s == s) ≡ true
unfolding ◌==◌
==_refl [] = refl
==_refl (x ∷ s) = ground (arith, ==_refl s)

pub ==_iff : (s t : Text) → ((s == t) ≡ true) ↔ (s ≡ t)
==_iff s t = (==-eq s t, λ e. rw e (==_refl t))

abbrev pub is_empty : Text → Bool
is_empty [] = true
is_empty (c ∷ s) = false

-- `a || b` on strings
abbrev pub or_else : Text → Text → Text
or_else [] t = t
or_else (c ∷ s) t = c ∷ s

-- `WhiteSpace` and `LineTerminator`, which `trim` and `\s` read.
unfoldable pub is_space : ℕ → Bool
is_space c =
    (leb 9 c && leb c 13)
    || nat_eq c 32
    || nat_eq c 0xa0
    || nat_eq c 0x1680
    || (leb 0x2000 c && leb c 0x200a)
    || nat_eq c 0x2028
    || nat_eq c 0x2029
    || nat_eq c 0x202f
    || nat_eq c 0x205f
    || nat_eq c 0x3000
    || nat_eq c 0xfeff

unfoldable pub trim_start : Text → Text
unfolding is_space
trim_start [] = []
trim_start (c ∷ s) = if is_space c then trim_start s else c ∷ s

-- `s.trim()`
unfoldable pub trim : Text → Text
unfolding trim_start
trim s = reverse (trim_start (reverse (trim_start s)))

unfoldable pub starts_with : Text → Text → Bool
starts_with [] s = true
starts_with (c ∷ p) [] = false
starts_with (c ∷ p) (d ∷ s) = nat_eq c d && starts_with p s

-- `s.includes(p)`
unfoldable pub includes : Text → Text → Bool
unfolding starts_with
includes p [] = is_empty p
includes p (c ∷ s) = starts_with p (c ∷ s) || includes p s

-- `xs.includes(s)` on an array of strings
unfoldable pub elem : Text → List Text → Bool
unfolding ◌==◌
elem s [] = false
elem s (t ∷ ts) = s == t || elem s ts

-- `xs.join(separator)`
unfoldable pub join : Text → List Text → Text
join sep [] = []
join sep (t ∷ []) = t
join sep (t ∷ u ∷ ts) = t ++ sep ++ join sep (u ∷ ts)

unfoldable pub is_digit : ℕ → Bool
is_digit c = leb b'0' c && leb c b'9'

-- The digits of `n`, on fuel above `n`; the last digit is found first.
digits_from : ℕ → ℕ → Text → Text
digits_from zero n acc = acc
digits_from (suc f) n acc =
    let rest = digits_from f (n / 10) ((b'0' + n % 10) ∷ acc) in
    if nat_eq (n / 10) 0 then (b'0' + n % 10) ∷ acc else rest

-- `String(n)` of a natural number
unfoldable pub decimal : ℕ → Text
unfolding digits_from
decimal n = digits_from (suc n) n []

digit-is_digit : (n : ℕ) → is_digit (b'0' + n % 10) ≡ true
unfolding is_digit
digit-is_digit n = ground arith

digits_from-is_digit :
    (f n : ℕ) (acc : Text) → all is_digit acc ≡ true → all is_digit (digits_from f n acc) ≡ true
unfolding digits_from
digits_from-is_digit zero n acc h = h
digits_from-is_digit (suc f) n acc h =
    let more : all is_digit ((b'0' + n % 10) ∷ acc) ≡ true = rw (digit-is_digit n) h in
    either_branch (λ (t : Text). all is_digit t ≡ true) (nat_eq (n / 10) 0) _ _ more
      (digits_from-is_digit f (n / 10) ((b'0' + n % 10) ∷ acc) more)

pub decimal-is_digit : (n : ℕ) → all is_digit (decimal n) ≡ true
unfolding decimal
decimal-is_digit n = digits_from-is_digit (suc n) n [] refl
