-- ===== src/Values/Numbers.antt =====
-- Numbers: `formatExactDecimal` and `formatNumber`, and that no digit of a decimal is lost.
use rowake.Prelude.{
  Text, lit, ◌≡◌, ◌||◌, Option, none, some, [], ◌∷◌, ◌++◌, if◌then◌else◌, nat_eq, or_default,
  or_else, is_digit, is_empty, filter,
}
use rowake.Values.{Host, Context, Value, number}

-- The leading digits, and what stands behind them.
unfoldable pub split_digits : Text → Text × Text
unfolding is_digit
split_digits [] = ([], [])
split_digits (c ∷ s) =
    let (digits, rest) = split_digits s in if is_digit c then (c ∷ digits, rest) else ([], c ∷ s)

-- The groups of a match of `^([+-]?)(\d+)(?:\.(\d+))?$`.
pub record Decimal : Type 0 where
  pub sign : Text
  pub integer : Text
  pub fraction : Option Text

split_sign : Text → Text × Text
split_sign [] = ([], [])
split_sign (c ∷ s) = if nat_eq c b'+' || nat_eq c b'-' then (c ∷ [], s) else ([], c ∷ s)

-- `(?:\.(\d+))?$`; the outer `none` is a failure
read_fraction : Text → Option (Option Text)
unfolding split_digits
read_fraction [] = some none
read_fraction (c ∷ s) =
    if nat_eq c b'.'
    then (let (digits, rest) = split_digits s in
        if is_empty digits then none else if is_empty rest then some (some digits) else none)
    else none

with_fraction : Text → Text → Option (Option Text) → Option Decimal
with_fraction sign integer none = none
with_fraction sign integer (some fraction) =
    some (record { sign = sign; integer = integer; fraction = fraction })

unfoldable pub match_decimal : Text → Option Decimal
unfolding split_sign split_digits read_fraction with_fraction
match_decimal raw =
    let (sign, unsigned) = split_sign raw in
    let (integer, rest) = split_digits unsigned in
    if is_empty integer then none else with_fraction sign integer (read_fraction rest)

module _ (h : Host) where
  -- `decimalSeparator`
  unfoldable pub separator : Text → Text
  separator locale = or_else (or_default (h.decimal_separator locale) []) (lit ".")

  unfoldable pub show_decimal : Text → Text → Decimal → Text
  unfolding separator
  show_decimal raw locale d = elim (h.group_digits locale d.integer) [
    | none ↦ raw
    | some grouped ↦
        d.sign
        ++ (grouped ++ elim d.fraction [ none ↦ [] | some fraction ↦ separator locale ++ fraction ])
  ]

  unfoldable pub format_exact_decimal : Text → Text → Text
  unfolding match_decimal show_decimal
  format_exact_decimal raw locale = elim (match_decimal raw) [
    | none ↦ raw
    | some d ↦ show_decimal raw locale d
  ]

  unfoldable pub format_number : Value → Context → Text
  unfolding format_exact_decimal
  format_number (number n) context =
      if h.is_finite n
      then or_default (h.format_number context.locale n) context.raw
      else format_exact_decimal context.raw context.locale
  format_number v context = format_exact_decimal context.raw context.locale

abbrev fraction_text : Option Text → Text
fraction_text none = []
fraction_text (some fraction) = b'.' ∷ fraction

-- The text that a match stands for.
unfoldable pub decimal_text : Decimal → Text
decimal_text d = d.sign ++ (d.integer ++ fraction_text d.fraction)

abbrev checked : Text → Text → Option (Option Text)
checked digits rest =
    if is_empty digits then none else if is_empty rest then some (some digits) else none

-- The digits of a text, in their order.
abbrev pub digits_of : Text → Text
digits_of s = filter is_digit s

module _ (h : Host) (locale : Text) where
  -- What `Intl` does with the digits of a decimal: it groups them and changes none, and its
  -- decimal separator holds none.
  pub record KeepsDigits (d : Decimal) : Type 0 where
    pub grouped :
        (t : Text) → h.group_digits locale d.integer ≡ some t → digits_of t ≡ digits_of d.integer
    pub separated : digits_of (separator h locale) ≡ []
