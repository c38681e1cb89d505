-- ===== src/Values/Formats/Laws.antt =====
-- Every value is formatted, and no formatter hides what the database gave.
use rowake.Prelude.{Text, ◌≡◌, refl, Bool, true, false, Option, none, some, ◌||◌, ◌⊎◌, not, ◌==◌}
use rowake.Json.{Json}
use rowake.Values.{Host, Kind, Context, Formatted}
use rowake.Values.Formats.{Formatter, outcome_of, returned, is_null}

-- The result keeps the raw text, marks a display that differs from it, says when it differs, and
-- displays the raw text where it claims to be plain text or a UUID.
pub record IsHonest (raw : Text) (f : Formatted) : Type 0 where
  pub raw_kept : f.raw ≡ raw
  pub marked : f.changed ≡ not (f.display == raw)
  pub told : (f.raw_differs || f.display == raw) ≡ true
  pub plain : (f.kind ≡ Kind.text) ⊎ (f.kind ≡ Kind.uuid) → f.display ≡ raw

-- Whether the display of this kind is free.
abbrev is_plain : Kind → Bool
is_plain Kind.text = true
is_plain Kind.uuid = true
is_plain Kind.null = false
is_plain k = false

-- What a formatter makes of a value that it is chosen for: it returns a result, and says that there
-- is no value only if there is none.
abbrev Answers : Context → Option Formatted → Type 0
Answers c none = ⊥
Answers c (some f) = IsHonest c.raw f × (f.kind ≡ Kind.null → is_null c.value ≡ true)

abbrev Honest : Formatter → Type 0
Honest f = (c : Context) → f.matches c ≡ true → Answers c (f.format c)

-- The kind of a display that is free says neither.
abbrev is_free : Kind → Bool
is_free Kind.text = false
is_free Kind.uuid = false
is_free Kind.null = false
is_free k = true

module _ (h : Host) where
  answered :
      (c : Context) (o : Option Formatted)
      → Answers c o
      → (f : Formatted) × (outcome_of o ≡ returned f)
        × IsHonest c.raw f
        × (f.kind ≡ Kind.null → is_null c.value ≡ true)
  answered c none a = absurd a
  answered c (some f) a = (f, refl, a.0, a.1)
