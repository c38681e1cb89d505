-- ===== src/Values.antt =====
-- The values of table cells (webembed/src/value-formatters.mjs): their raw texts, the types of
-- columns, and what the formatters return. What the platform does (`Intl`, `Date`, `JSON`, case
-- mapping) is the record `Host`.
pub mod Cache
pub mod Types
pub mod Temporal
pub mod Numbers
pub mod Formats
use rowake.Prelude.{
  ℕ, Text, lit, Bool, true, false, not, ◌&&◌, ◌||◌, Option, none, some, List, [], ◌∷◌,
  if◌then◌else◌, ◌==◌, is_empty,
}
use rowake.Json.{Json, Num, nat, other, to_text, Items}

-- A value of a row. A big integer comes with its digits, an object or array as its data.
pub data Value : Type 0 where
  undefined null : Value
  boolean : Bool → Value
  number : Num → Value
  bigint : Text → Value
  string : Text → Value
  object : Json → Value

-- The style of an `Intl` formatter: the fields of the options that the program sets.
pub record DateStyle : Type 0 where
  pub date : Bool
  pub time : Bool
  pub fraction_digits : ℕ
  pub zone_name : Bool
  pub time_zone : Option Text

-- The parts that a date is made of by `Date.UTC`.
pub record DateParts : Type 0 where
  pub year : ℕ
  pub month : ℕ
  pub day : ℕ
  pub hour : ℕ
  pub minute : ℕ
  pub second : ℕ
  pub millisecond : ℕ

-- A moment, by its UTC parts or as the text that `new Date` was given.
pub data Moment : Type 0 where
  utc : DateParts → Moment
  written : Text → Moment

-- `none` stands for an exception, or for `undefined` from `JSON.stringify`.
pub record Host : Type 0 where
  pub lower : Text → Text
  pub upper : Text → Text
  pub number_text : Num → Text
  pub object_text : Json → Text
  pub stringify : Json → Option Text
  pub stringify_pretty : Json → Option Text
  pub parse : Text → Option Json
  pub is_finite : Num → Bool
  pub is_date : Moment → Bool
  pub format_date : Text → DateStyle → Moment → Option Text
  pub format_number : Text → Num → Option Text
  pub group_digits : Text → Text → Option Text
  pub decimal_separator : Text → Option Text
  pub byte_length : Text → ℕ

-- `rawDatabaseValue`
unfoldable pub raw_value : Host → Value → Text
raw_value h undefined = lit "NULL"
raw_value h null = lit "NULL"
raw_value h (string t) = t
raw_value h (bigint digits) = digits
raw_value h (object j) = elim (h.stringify j) [ some t ↦ t | none ↦ h.object_text j ]
raw_value h (boolean true) = lit "true"
raw_value h (boolean false) = lit "false"
raw_value h (number n) = h.number_text n

pub data Kind : Type 0 where
  null boolean date time datetime numeric binary json uuid text : Kind

-- The argument of every formatter.
pub record Context : Type 0 where
  pub value : Value
  pub type : Text
  pub raw : Text
  pub locale : Text
  pub time_zone : Option Text

pub record Formatted : Type 0 where
  pub kind : Kind
  pub display : Text
  pub raw : Text
  pub pretty : Text
  pub changed : Bool
  pub raw_differs : Bool

-- `result` with its option `pretty`
unfoldable pub result_pretty : Kind → Text → Context → Text → Formatted
result_pretty kind display context pretty = record {
  kind = kind;
  display = display;
  raw = context.raw;
  pretty = pretty;
  changed = not (display == context.raw);
  raw_differs =
      not (display == context.raw) || (not (is_empty pretty) && not (pretty == context.raw));
}

unfoldable pub result : Kind → Text → Context → Formatted
unfolding result_pretty
result kind display context = result_pretty kind display context []
