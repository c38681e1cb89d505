-- ===== src/Values/Types.antt =====
-- The types of columns: `baseType`, the patterns that name types, and `temporalType`.
use rowake.Prelude.{
  ℕ, zero, suc, ◌+◌, Text, lit, Bool, true, false, ◌&&◌, ◌||◌, Option, none, some, List, [], ◌∷◌,
  if◌then◌else◌, ◌==◌, nat_eq, leb, elem, trim, is_space, is_digit, length, ◌-◌,
}
use rowake.Values.{Host}

-- What a run of characters is followed by, and how many there were.
unfoldable pub skip_while : (ℕ → Bool) → Text → ℕ × Text
skip_while p [] = (0, [])
skip_while p (c ∷ s) = elim (p c) [
  | true ↦ let (n, rest) = skip_while p s in (n + 1, rest)
  | false ↦ (0, c ∷ s)
]

-- `(?:\s*,\s*\d+)?\s*\)`, behind the first number: what stands behind the match
close_group : Text → Option Text
unfolding skip_while is_space is_digit
close_group s = elim (skip_while is_space s).1 [
  | [] ↦ none
  | c ∷ rest ↦
      if nat_eq c b')'
      then some rest
      else if nat_eq c b','
      then (let (digits, after) = skip_while is_digit (skip_while is_space rest).1 in
          if nat_eq digits 0 then none else elim (skip_while is_space after).1 [
            | [] ↦ none
            | d ∷ tail ↦ if nat_eq d b')' then some tail else none
          ])
      else none
]

-- `\(\s*\d+(?:\s*,\s*\d+)?\s*\)` where the text begins with the bracket: what stands behind it
unfoldable pub match_group : Text → Option Text
unfolding close_group
match_group [] = none
match_group (c ∷ s) =
    if nat_eq c b'('
    then (let (digits, rest) = skip_while is_digit (skip_while is_space s).1 in
        if nat_eq digits 0 then none else close_group rest)
    else none

-- `replace(group, "")` for all groups; `skip` code units belong to a match.
unfoldable pub drop_groups : ℕ → Text → Text
unfolding match_group
drop_groups skip [] = []
drop_groups (suc skip) (c ∷ s) = drop_groups skip s
drop_groups zero (c ∷ s) = elim (match_group (c ∷ s)) [
  | none ↦ c ∷ drop_groups 0 s
  | some rest ↦ drop_groups (length s - length rest) s
]

-- `replace(/\s+/g, " ")`; `inside` says that a space was the last character.
unfoldable pub collapse_spaces : Bool → Text → Text
unfolding is_space
collapse_spaces inside [] = []
collapse_spaces inside (c ∷ s) =
    let rest = collapse_spaces (is_space c) s in
    if is_space c then (if inside then rest else 32 ∷ rest) else c ∷ rest

-- `baseType` without its cache
unfoldable pub base_type : Host → Text → Text
unfolding trim drop_groups collapse_spaces
base_type h declared = collapse_spaces false (drop_groups 0 (h.lower (trim declared)))

unfoldable pub is_boolean_type : Text → Bool
unfolding elem
is_boolean_type t = elem t (lit "bool" ∷ lit "boolean" ∷ [])

unfoldable pub is_numeric_type : Text → Bool
unfolding elem
is_numeric_type t = elem t (
    lit "tinyint"
    ∷ lit "smallint"
    ∷ lit "mediumint"
    ∷ lit "int"
    ∷ lit "integer"
    ∷ lit "bigint"
    ∷ lit "int2"
    ∷ lit "int4"
    ∷ lit "int8"
    ∷ lit "serial"
    ∷ lit "bigserial"
    ∷ lit "smallserial"
    ∷ lit "decimal"
    ∷ lit "numeric"
    ∷ lit "number"
    ∷ lit "real"
    ∷ lit "double precision"
    ∷ lit "double"
    ∷ lit "float"
    ∷ lit "float4"
    ∷ lit "float8"
    ∷ lit "money"
    ∷ [])

unfoldable pub is_binary_type : Text → Bool
unfolding elem
is_binary_type t = elem t (
    lit "bytea"
    ∷ lit "blob"
    ∷ lit "binary"
    ∷ lit "varbinary"
    ∷ lit "longblob"
    ∷ lit "mediumblob"
    ∷ lit "tinyblob"
    ∷ [])

unfoldable pub is_json_type : Text → Bool
unfolding elem
is_json_type t = elem t (lit "json" ∷ lit "jsonb" ∷ [])

unfoldable pub is_uuid_type : Text → Bool
unfolding elem
is_uuid_type t = elem t (lit "uuid" ∷ lit "uniqueidentifier" ∷ [])

abbrev hex_between : ℕ → ℕ → ℕ → Bool
hex_between lo hi c = leb lo c && leb c hi

-- `[0-9a-f]`, in either case
is_hex : ℕ → Bool
is_hex c = hex_between b'0' b'9' c || hex_between b'a' b'f' c || hex_between b'A' b'F' c

is_variant : ℕ → Bool
is_variant c =
    nat_eq c b'8'
    || nat_eq c b'9'
    || nat_eq c b'a'
    || nat_eq c b'b'
    || nat_eq c b'A'
    || nat_eq c b'B'

-- One test for each character, and nothing behind.
matches_all : List (ℕ → Bool) → Text → Bool
matches_all [] [] = true
matches_all [] (c ∷ s) = false
matches_all (p ∷ ps) [] = false
matches_all (p ∷ ps) (c ∷ s) = p c && matches_all ps s

times : ℕ → (ℕ → Bool) → List (ℕ → Bool) → List (ℕ → Bool)
times zero p ps = ps
times (suc n) p ps = p ∷ times n p ps

-- `UUID_VALUE`
unfoldable pub is_uuid : Text → Bool
unfolding is_hex is_variant matches_all times
is_uuid s =
    let dash : ℕ → Bool = λ c. nat_eq c b'-' in
    matches_all
      (times 8 is_hex (
        dash
        ∷ times 4 is_hex (
            dash
            ∷ (λ c. hex_between b'1' b'8' c)
            ∷ times 3 is_hex (dash ∷ is_variant ∷ times 3 is_hex (dash ∷ times 12 is_hex [])))))
      s

pub data TemporalKind : Type 0 where
  date time datetime : TemporalKind

pub record TemporalType : Type 0 where
  pub kind : TemporalKind
  pub timezone : Bool

abbrev temporal : TemporalKind → Bool → Option TemporalType
temporal kind timezone = some (record { kind = kind; timezone = timezone })

ends_with_brackets : Text → Bool
ends_with_brackets [] = false
ends_with_brackets (c ∷ s) = (c ∷ s) == lit "[]" || ends_with_brackets s

-- `temporalType` without its cache
unfoldable pub temporal_type : Text → Option TemporalType
unfolding elem ends_with_brackets
temporal_type t =
    if ends_with_brackets t
    then none
    else if t == lit "date"
    then temporal date false
    else if elem t
        (lit "timestamptz" ∷ lit "timestamp with time zone" ∷ lit "timestamp with timezone" ∷ [])
    then temporal datetime true
    else if elem t (
        lit "timestamp"
        ∷ lit "timestamp without time zone"
        ∷ lit "timestamp without timezone"
        ∷ lit "datetime"
        ∷ lit "smalldatetime"
        ∷ [])
    then temporal datetime false
    else if elem t (lit "timetz" ∷ lit "time with time zone" ∷ lit "time with timezone" ∷ [])
    then temporal time true
    else if elem t (lit "time" ∷ lit "time without time zone" ∷ lit "time without timezone" ∷ [])
    then temporal time false
    else none
