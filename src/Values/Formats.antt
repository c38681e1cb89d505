-- ===== src/Values/Formats.antt =====
-- The formatters in their order, and `formatDatabaseValue`.
pub mod Laws
use rowake.Prelude.{
  ℕ, Text, lit, Bool, true, false, not, ◌&&◌, ◌||◌, Option, none, some, List, [], ◌∷◌, ◌++◌, map,
  if◌then◌else◌, ◌==◌, nat_eq, leb, ◌+◌, or_default, is_some, find, elem, trim, decimal,
}
use rowake.Json.{Json, Num, nat}
use rowake.Values.{
  Host, Value, undefined, null, boolean, number, bigint, string, object, raw_value, Kind, Context,
  Formatted, result_pretty, result,
}
use rowake.Values.Types.{
  base_type, is_boolean_type, is_numeric_type, is_binary_type, is_json_type, is_uuid_type, is_uuid,
  temporal_type,
}
use rowake.Values.Temporal.{format_temporal}
use rowake.Values.Numbers.{format_number}

-- A letter as the flag `i` compares it with a lower-case one.
ascii_lower : ℕ → ℕ
ascii_lower c = if leb b'A' c && leb c b'Z' then c + 32 else c

is_number : ℕ → Value → Bool
is_number n (number (nat m)) = nat_eq m n
is_number n v = false

is_one_of : List Text → Text → Bool
unfolding ascii_lower elem
is_one_of words raw = elem (map ascii_lower raw) words

-- the part of `booleanValue` for a column of a boolean type
read_boolean : Context → Option Bool
unfolding is_number is_one_of
read_boolean context =
    if is_number 1 context.value
      || is_one_of (lit "1" ∷ lit "t" ∷ lit "true" ∷ lit "yes" ∷ lit "on" ∷ []) context.raw
    then some true
    else if is_number 0 context.value
        || is_one_of (lit "0" ∷ lit "f" ∷ lit "false" ∷ lit "no" ∷ lit "off" ∷ []) context.raw
    then some false
    else none

boolean_in : Value → Context → Option Bool
unfolding read_boolean is_boolean_type
boolean_in (boolean b) context = some b
boolean_in v context = if is_boolean_type context.type then read_boolean context else none

-- `booleanValue`
unfoldable pub boolean_value : Context → Option Bool
unfolding boolean_in
boolean_value context = boolean_in context.value context

unfoldable pub is_null : Value → Bool
is_null undefined = true
is_null null = true
is_null v = false

-- `typeof value === "object"`
is_object : Value → Bool
is_object null = true
is_object (object j) = true
is_object v = false

opens_json : Text → Bool
opens_json [] = false
opens_json (c ∷ s) = nat_eq c b'[' || nat_eq c b'{'

-- An entry of the list of formatters; a formatter may return `null`.
pub record Formatter : Type 0 where
  pub matches : Context → Bool
  pub format : Context → Option Formatted

abbrev formatter : (Context → Bool) → (Context → Formatted) → Formatter
formatter matches format = record { matches = matches; format = λ c. some (format c) }

-- What a call comes to: an exception, `null`, or a result.
pub data Outcome : Type 0 where
  threw no_result : Outcome
  returned : Formatted → Outcome

abbrev pub outcome_of : Option Formatted → Outcome
outcome_of none = no_result
outcome_of (some f) = returned f

-- `formatter.format(context)`; without a formatter it throws.
abbrev pub apply : Option Formatter → Context → Outcome
apply none context = threw
apply (some f) context = outcome_of (f.format context)

module _ (h : Host) where
  parse_value : Value → Text → Option Json
  parse_value (object j) raw = some j
  parse_value v raw = h.parse raw

  -- `parseJSON`
  unfoldable pub parse_json : Context → Option Json
  unfolding parse_value
  parse_json context = parse_value context.value context.raw

  format_json : Context → Formatted
  unfolding parse_json result
  format_json context = elim (parse_json context) [
    | none ↦ result Kind.json context.raw context
    | some parsed ↦
        result_pretty Kind.json (or_default (h.stringify parsed) context.raw) context
          (or_default (h.stringify_pretty parsed) [])
  ]

  format_binary : Context → Formatted
  unfolding result decimal
  format_binary context =
      let bytes = h.byte_length context.raw in
      result Kind.binary
        (lit "Binary · "
          ++ (decimal bytes ++ (if nat_eq bytes 1 then lit " byte" else lit " bytes")))
        context

  format_boolean : Context → Formatted
  unfolding boolean_value result
  format_boolean context =
      result Kind.boolean
        (if or_default (boolean_value context) false then lit "TRUE" else lit "FALSE") context

  -- `formatTemporal`, which returns `null` for a type that has no time
  format_when_temporal : Context → Option Formatted
  unfolding temporal_type format_temporal
  format_when_temporal context = elim (temporal_type context.type) [
    | none ↦ none
    | some t ↦ some (format_temporal h t context)
  ]

  abbrev json_matches : Context → Bool
  json_matches context =
      is_json_type context.type
      || is_object context.value
      || (opens_json (trim context.raw) && is_some (parse_json context))

  -- `databaseValueFormatters`
  unfoldable pub formatters : List Formatter
  unfolding is_null boolean_value format_boolean temporal_type format_when_temporal is_numeric_type
      format_number is_binary_type format_binary is_json_type is_object opens_json trim parse_json
      format_json is_uuid_type is_uuid result
  formatters =
      formatter (λ c. is_null c.value) (λ c. result Kind.null (lit "NULL") c)
      ∷ formatter (λ c. is_some (boolean_value c)) format_boolean
      ∷ record { matches = λ c. is_some (temporal_type c.type); format = format_when_temporal }
      ∷ formatter (λ c. is_numeric_type c.type)
          (λ c. result Kind.numeric (format_number h c.value c) c)
      ∷ formatter (λ c. is_binary_type c.type) format_binary
      ∷ formatter json_matches format_json
      ∷ formatter (λ c. is_uuid_type c.type || is_uuid c.raw) (λ c. result Kind.uuid c.raw c)
      ∷ formatter (λ c. true) (λ c. result Kind.text c.raw c)
      ∷ []

  -- the choice of the first formatter that matches
  unfoldable pub format_context : Context → Outcome
  format_context context = apply (find (λ f. f.matches context) formatters) context

  -- the object `context`
  abbrev pub context_of : Value → Text → Option Text → Text → Option Text → Context
  context_of value declared raw locale time_zone = record {
    value = value;
    type = base_type h declared;
    raw = or_default raw (raw_value h value);
    locale = locale;
    time_zone = time_zone;
  }

  -- `formatDatabaseValue`, with the declared type of the column and the options
  unfoldable pub format_database_value : Value → Text → Option Text → Text → Option Text → Outcome
  format_database_value value declared raw locale time_zone =
      format_context (context_of value declared raw locale time_zone)
