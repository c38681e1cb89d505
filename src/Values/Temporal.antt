-- ===== src/Values/Temporal.antt =====
-- Dates and times: `floatingDateParts`, `floatingTimeParts` and `formatTemporal`.
use rowake.Prelude.{
  ℕ, zero, suc, ◌+◌, ◌-◌, ◌*◌, Text, lit, Bool, true, false, not, ◌&&◌, ◌||◌, Option, none, some,
  [], ◌∷◌, ◌++◌, if◌then◌else◌, nat_eq, or_default, is_space, is_digit, or_else, is_empty, length,
  drop, ◌==◌,
}
use rowake.Values.{
  Host, Context, Formatted, Kind, DateParts, Moment, utc, written, DateStyle, result,
}
use rowake.Values.Types.{TemporalType, temporal_type}
use rowake.Values.Types

-- `n` digits, as a number, and what stands behind them
unfoldable pub read_digits : ℕ → ℕ → Text → Option (ℕ × Text)
unfolding is_digit
read_digits zero acc s = some (acc, s)
read_digits (suc n) acc [] = none
read_digits (suc n) acc (c ∷ s) =
    let rest = read_digits n (acc * 10 + (c - b'0')) s in if is_digit c then rest else none

unfoldable pub expect : ℕ → Text → Option Text
expect c [] = none
expect c (d ∷ s) = if nat_eq d c then some s else none

infixl 5 ◌>>=◌
abbrev ◌>>=◌ {ℓ κ} : {A : Type ℓ} {B : Type κ} → Option A → (A → Option B) → Option B
none >>= f = none
some a >>= f = f a

-- The leading digits, at most `n` of them.
unfoldable pub digits_prefix : ℕ → Text → Text
unfolding is_digit
digits_prefix zero s = []
digits_prefix (suc n) [] = []
digits_prefix (suc n) (c ∷ s) = let rest = digits_prefix n s in if is_digit c then c ∷ rest else []

-- `Number(fraction.padEnd(3, "0").slice(0, 3))`
unfoldable pub milliseconds : Text → ℕ
milliseconds [] = 0
milliseconds (a ∷ []) = (a - b'0') * 100
milliseconds (a ∷ b ∷ []) = (a - b'0') * 100 + (b - b'0') * 10
milliseconds (a ∷ b ∷ c ∷ s) = (a - b'0') * 100 + (b - b'0') * 10 + (c - b'0')

pub record Clock : Type 0 where
  pub hour : ℕ
  pub minute : ℕ
  pub second : ℕ
  pub millisecond : ℕ

midnight : Clock
midnight = record { hour = 0; minute = 0; second = 0; millisecond = 0 }

-- `(?::(\d{2})(?:\.(\d{1,9}))?)?` of a date: seconds and milliseconds, and what stands behind
seconds_part : Text → ℕ × ℕ × Text
unfolding read_digits expect digits_prefix milliseconds
seconds_part s = elim (do s' ← expect b':' s; read_digits 2 0 s') [
  | none ↦ (0, 0, s)
  | some (second, rest) ↦ elim (expect b'.' rest) [
    | none ↦ (second, 0, rest)
    | some after ↦
        let fraction = digits_prefix 9 after in
        if is_empty fraction
        then (second, 0, rest)
        else (second, milliseconds fraction, drop (length fraction) after)
  ]
]

-- `(\d{2}):(\d{2})` and the seconds
clock_part : Text → Option (Clock × Text)
unfolding read_digits expect seconds_part
clock_part s = do
  (hour, s₁) ← read_digits 2 0 s
  s₂ ← expect b':' s₁
  (minute, s₃) ← read_digits 2 0 s₂
  let (second, millisecond, rest) = seconds_part s₃
  some (record { hour = hour; minute = minute; second = second; millisecond = millisecond }, rest)

-- `[T\s]`, and the clock of a date, or midnight
date_clock : Text → Clock
unfolding clock_part is_space midnight
date_clock [] = midnight
date_clock (c ∷ s) =
    if nat_eq c b'T' || is_space c
    then elim (clock_part s) [ none ↦ midnight | some (clock, rest) ↦ clock ]
    else midnight

abbrev parts : ℕ → ℕ → ℕ → Clock → DateParts
parts year month day clock = record {
  year = year;
  month = month;
  day = day;
  hour = clock.hour;
  minute = clock.minute;
  second = clock.second;
  millisecond = clock.millisecond;
}

-- `floatingDateParts`; the month is as written, from 1
unfoldable pub floating_date : Text → Option DateParts
unfolding read_digits expect date_clock
floating_date raw = do
  (year, s₁) ← read_digits 4 0 raw
  s₂ ← expect b'-' s₁
  (month, s₃) ← read_digits 2 0 s₂
  s₄ ← expect b'-' s₃
  (day, rest) ← read_digits 2 0 s₄
  some (parts year month day (date_clock rest))

-- `(Z|[+-]\d{2}:?\d{2})?$`, in upper case
zone_part : Text → Option Text
unfolding read_digits expect
zone_part [] = some []
zone_part (c ∷ s) =
    if nat_eq c b'Z' || nat_eq c b'z'
    then (if is_empty s then some (lit "Z") else none)
    else if nat_eq c b'+' || nat_eq c b'-'
    then (do
      (hours, s₁) ← read_digits 2 0 s
      let s₂ = or_default (expect b':' s₁) s₁
      (minutes, rest) ← read_digits 2 0 s₂
      if is_empty rest then some (c ∷ s) else none)
    else none

time_at : Text → Option (Clock × Text)
unfolding clock_part zone_part
time_at s = do (clock, rest) ← clock_part s; zone ← zone_part rest; some (clock, zone)

-- the later places at which the pattern may begin: behind `T` or a space
time_within : Text → Option (Clock × Text)
unfolding time_at is_space
time_within [] = none
time_within (c ∷ s) =
    let later = time_within s in
    if nat_eq c b'T' || nat_eq c b't' || is_space c
    then elim (time_at s) [ none ↦ later | some found ↦ some found ]
    else later

-- `floatingTimeParts`: the time on the first day of 1970, and the zone
unfoldable pub floating_time : Text → Option (DateParts × Text)
unfolding time_at time_within
floating_time raw =
    let found : Option (Clock × Text) = elim (time_at raw) [
      | none ↦ time_within raw
      | some here ↦ some here
    ] in
    do (clock, zone) ← found; some (parts 1970 1 1 clock, zone)

-- `fractionalSeconds`
unfoldable pub fractional_seconds : Text → ℕ
unfolding digits_prefix
fractional_seconds [] = 0
fractional_seconds (c ∷ s) =
    let later = fractional_seconds s in
    let here = digits_prefix 3 s in
    if nat_eq c b'.' && not (is_empty here) then length here else later

-- `dateTimeOptions`
unfoldable pub date_time_style : Context → Bool → Bool → Option Text → DateStyle
unfolding fractional_seconds
date_time_style context include_date include_zone time_zone = record {
  date = include_date;
  time = true;
  fraction_digits = fractional_seconds context.raw;
  zone_name = include_zone;
  time_zone = time_zone;
}

abbrev utc_zone : Option Text
utc_zone = some (lit "UTC")

abbrev date_style : DateStyle
date_style = record {
  date = true;
  time = false;
  fraction_digits = 0;
  zone_name = false;
  time_zone = utc_zone;
}

module _ (h : Host) where
  -- `formatIntl(…) || context.raw`
  unfoldable pub shown_date : Context → DateStyle → Moment → Text
  shown_date context style moment =
      or_else (or_default (h.format_date context.locale style moment) []) context.raw

  -- what stands behind a time whose type has a time zone
  zone_suffix : Bool → Text → Text
  zone_suffix timezone [] = []
  zone_suffix false (c ∷ zone) = []
  zone_suffix true (c ∷ zone) = if (c ∷ zone) == lit "Z" then lit " UTC" else lit " UTC" ++ c ∷ zone

  abbrev or_raw : Option DateParts → (DateParts → Text) → Context → Text
  or_raw none f context = context.raw
  or_raw (some d) f context = f d

  abbrev show_utc : Context → DateStyle → DateParts → Text
  show_utc context style d = shown_date context style (utc d)

  unfoldable pub temporal_display : Types.TemporalKind → Bool → Context → Text
  unfolding shown_date zone_suffix floating_date floating_time date_time_style
  temporal_display Types.TemporalKind.date timezone context =
      or_raw (floating_date context.raw) (show_utc context date_style) context
  temporal_display Types.TemporalKind.time timezone context = elim (floating_time context.raw) [
    | none ↦ context.raw
    | some (d, zone) ↦
        show_utc context (date_time_style context false false utc_zone) d
        ++ zone_suffix timezone zone
  ]
  temporal_display Types.TemporalKind.datetime true context =
      if h.is_date (written context.raw)
      then shown_date context (date_time_style context true true context.time_zone)
          (written context.raw)
      else context.raw
  temporal_display Types.TemporalKind.datetime false context =
      or_raw (floating_date context.raw)
        (show_utc context (date_time_style context true false utc_zone)) context

  abbrev pub kind_of : Types.TemporalKind → Kind
  kind_of Types.TemporalKind.date = Kind.date
  kind_of Types.TemporalKind.time = Kind.time
  kind_of Types.TemporalKind.datetime = Kind.datetime

  -- `formatTemporal` for a type that `temporalType` knows
  unfoldable pub format_temporal : TemporalType → Context → Formatted
  unfolding temporal_display result
  format_temporal temporal context =
      result (kind_of temporal.kind) (temporal_display temporal.kind temporal.timezone context)
        context
