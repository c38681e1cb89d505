-- ===== src/Browse/Picker.antt =====
-- The list of all tables for narrow windows (webembed/src/app.js): `mobileObjectPicker`, and the
-- change of `mobile-object-picker`. An option's value is the place of its table in the catalog.
use rowake.Prelude.{
  ℕ, suc, Text, ◌≡◌, refl, ap, subst, ◌∙◌, sym, true, false, Option, none, some, List, [], ◌∷◌,
  ◌++◌, if◌then◌else◌, nat_eq, all, All, All-append, All-weaken, get_elem?, length, decimal,
  decimal-is_digit, is_digit, arith, &&-left, &&-right, append_assoc,
}
use rowake.Json.{Num, nat, other}
use rowake.Workspace.{Settings, Platform}
use rowake.Data.{Schema, TableEntry}
use rowake.Browse.{Browse}
use rowake.Browse.Load.{PageRequest}
use rowake.Browse.Handlers.{select_table}

-- An option: its table, and its value.
pub record Choice : Type 0 where
  pub table : TableEntry
  pub value : Text

-- `${schemaIndex}:${tableIndex}`
abbrev pub place_value : ℕ → ℕ → Text
place_value i j = decimal i ++ b':' ∷ decimal j

unfoldable pub table_choices : ℕ → ℕ → List TableEntry → List Choice
table_choices i j [] = []
table_choices i j (t ∷ ts) =
    record { table = t; value = place_value i j } ∷ table_choices i (suc j) ts

-- the options, from the schema with the number `i` on
unfoldable pub choices : ℕ → List Schema → List Choice
unfolding table_choices
choices i [] = []
choices i (s ∷ ss) = table_choices i 0 s.tables ++ choices (suc i) ss

-- `split(":")`: the first part, and the others
unfoldable pub split_colon : Text → Text × List Text
split_colon [] = ([], [])
split_colon (c ∷ s) =
    let (part, parts) = split_colon s in
    if nat_eq c b':' then ([], part ∷ parts) else (c ∷ part, parts)

-- `items?.[index]`, which has nothing where the index is no natural number
abbrev pub item_at {ℓ} : {A : Type ℓ} → List A → Num → Option A
item_at xs (nat i) = get_elem? xs i
item_at xs (other t) = none

-- `state.catalog?.schemas?.[schemaIndex]?.tables?.[tableIndex]`, for the parts of a value
unfoldable pub chosen_table : Platform → List Schema → Text × List Text → Option TableEntry
chosen_table p schemas (first, []) = none
chosen_table p schemas (first, second ∷ rest) = elim (item_at schemas (p.number_of_text first)) [
  | none ↦ none
  | some s ↦ item_at s.tables (p.number_of_text second)
]

unfoldable pub choose_object :
    Platform → Settings → List Schema → Text → Browse → Browse × Option PageRequest
unfolding split_colon chosen_table select_table
choose_object p settings schemas value b = elim (chosen_table p schemas (split_colon value)) [
  | none ↦ (b, none)
  | some t ↦ select_table settings (record { schema = t.schema; table = t.name }) b
]

digit-ne : (c : ℕ) → is_digit c ≡ true → nat_eq c b':' ≡ false
unfolding is_digit
digit-ne c h = ground arith

split_colon-none : (s : Text) → all is_digit s ≡ true → split_colon s ≡ (s, [])
unfolding split_colon
split_colon-none [] h = refl
split_colon-none (c ∷ s) h = rw (
  digit-ne c (&&-left (is_digit c) (all is_digit s) h),
  split_colon-none s (&&-right (is_digit c) (all is_digit s) h),
)

split_colon-append :
    (s t : Text)
    → all is_digit s ≡ true
    → split_colon (s ++ b':' ∷ t) ≡ (s, (split_colon t).0 ∷ (split_colon t).1)
unfolding split_colon
split_colon-append [] t h = refl
split_colon-append (c ∷ s) t h = rw (
  digit-ne c (&&-left (is_digit c) (all is_digit s) h),
  split_colon-append s t (&&-right (is_digit c) (all is_digit s) h),
)

split_colon-place_value : (i j : ℕ) → split_colon (place_value i j) ≡ (decimal i, decimal j ∷ [])
split_colon-place_value i j =
    split_colon-append (decimal i) (decimal j) (decimal-is_digit i)
    ∙ rw (split_colon-none (decimal j) (decimal-is_digit j))

get_elem?-append :
    {A : Type 0} (xs : List A) (x : A) (ys : List A) → get_elem? (xs ++ x ∷ ys) (length xs) ≡ some x
get_elem?-append [] x ys = refl
get_elem?-append (y ∷ xs) x ys = get_elem?-append xs x ys

length-push : {A : Type 0} (xs : List A) (x : A) → length (xs ++ x ∷ []) ≡ suc (length xs)
length-push [] x = refl
length-push (y ∷ xs) x = ap suc (length-push xs x)

module _ (p : Platform) (reads : (n : ℕ) → p.number_of_text (decimal n) ≡ nat n)
    (schemas : List Schema) where
  abbrev IsFound : Choice → Type 0
  IsFound c = chosen_table p schemas (split_colon c.value) ≡ some c.table

  chosen_table-found :
      (x y : Text) (i j : ℕ) (s : Schema) (t : TableEntry)
      → p.number_of_text x ≡ nat i
      → p.number_of_text y ≡ nat j
      → get_elem? schemas i ≡ some s
      → get_elem? s.tables j ≡ some t
      → chosen_table p schemas (x, y ∷ []) ≡ some t
  unfolding chosen_table
  chosen_table-found x y i j s t first second at there = rw (first, chosen_table, at, second) there

  chosen_table-place_value :
      (i j : ℕ) (s : Schema) (t : TableEntry)
      → get_elem? schemas i ≡ some s
      → get_elem? s.tables j ≡ some t
      → chosen_table p schemas (split_colon (place_value i j)) ≡ some t
  chosen_table-place_value i j s t at there =
      ap (chosen_table p schemas) (split_colon-place_value i j)
      ∙ chosen_table-found (decimal i) (decimal j) i j s t (reads i) (reads j) at there

  table_choices-IsFound :
      (i : ℕ) (s : Schema) (before ts : List TableEntry)
      → get_elem? schemas i ≡ some s
      → s.tables ≡ before ++ ts
      → All IsFound (table_choices i (length before) ts)
  unfolding table_choices
  table_choices-IsFound i s before [] at e = tt
  table_choices-IsFound i s before (t ∷ ts) at e = (
    chosen_table-place_value i (length before) s t at (rw e (get_elem?-append before t ts)),
    subst (λ n. All IsFound (table_choices i n ts)) (length-push before t)
        (table_choices-IsFound i s (before ++ t ∷ []) ts at
          (e ∙ sym (append_assoc before (t ∷ []) ts))),
  )

  choices-IsFound :
      (before ss : List Schema) → schemas ≡ before ++ ss → All IsFound (choices (length before) ss)
  unfolding choices
  choices-IsFound before [] e = tt
  choices-IsFound before (s ∷ ss) e =
      All-append IsFound (table_choices (length before) 0 s.tables)
        (choices (suc (length before)) ss)
        (table_choices-IsFound (length before) s [] s.tables (rw e (get_elem?-append before s ss))
          refl)
        (subst (λ n. All IsFound (choices n ss)) (length-push before s)
          (choices-IsFound (before ++ s ∷ []) ss (e ∙ sym (append_assoc before (s ∷ []) ss))))

  -- Every option of the list of all tables opens its own table, as a click on it in the rail does,
  -- if `Number` reads decimal digits.
  pub choose_object-choices :
      (settings : Settings) (b : Browse)
      → All
          (λ (c : Choice).
            choose_object p settings schemas c.value b
            ≡ select_table settings (record { schema = c.table.schema; table = c.table.name }) b)
          (choices 0 schemas)
  unfolding choose_object
  choose_object-choices settings b =
      All-weaken IsFound _ (choices 0 schemas)
        (λ c (found : IsFound c). rw (found, choose_object) refl) (choices-IsFound [] schemas refl)
