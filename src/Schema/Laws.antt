-- ===== src/Schema/Laws.antt =====
-- What the comparison of schemas reports, and what it does not report.
use rowake.Prelude.{
  Text, lit, ◌≡◌, refl, ap, sym, subst, Bool, true, false, Option, none, some, List, [], ◌∷◌, ◌++◌,
  arith, if◌then◌else◌, bool_eq, is_some, ◌==◌, ==_iff, ==-eq, Bool-cases, inl, inr,
}
use rowake.Data.{Column, Table}
use rowake.Schema.{
  Dictionary, lookup, dictionary, SchemaSnapshot, Change, tables_of, relationships_of, table_key,
  column_key, same_column, missing, compared, column_changes, index_changes, table_changes,
  relationship_changes, diff_schema,
}

append-nil-left {ℓ} : {A : Type ℓ} (xs ys : List A) → xs ++ ys ≡ [] → xs ≡ []
append-nil-left [] ys h = refl
append-nil-left (x ∷ xs) ys h = cc

append-nil-right {ℓ} : {A : Type ℓ} (xs ys : List A) → xs ++ ys ≡ [] → ys ≡ []
append-nil-right [] ys h = h
append-nil-right (x ∷ xs) ys h = cc

append_three-nil {ℓ} :
    {A : Type ℓ} (xs ys zs : List A) → xs ++ ys ++ zs ≡ [] → (xs ≡ []) × (ys ≡ [])
append_three-nil [] ys zs h = (refl, append-nil-left ys zs h)
append_three-nil (x ∷ xs) ys zs h = cc

module _ {ℓ} {A : Type ℓ} where
  -- Where nothing is missing, every key is there.
  missing-none :
      (path : Text → Text) (detail k : Text) (after before : Dictionary A)
      → missing path detail after before ≡ []
      → is_some (lookup k before) ≡ true
      → is_some (lookup k after) ≡ true
  unfolding missing lookup
  missing-none path detail k after [] h e = cc
  missing-none path detail k after ((j, v) ∷ before) h e =
      ground (arith, missing-none path detail k after before, ==_iff j k)

  -- Where nothing is reported, nothing is reported of any entry.
  compared-none :
      (compare : Text → A → Option A → List Change) (before after : Dictionary A) (k : Text) (v : A)
      → compared compare before after ≡ []
      → lookup k after ≡ some v
      → compare k v (lookup k before) ≡ []
  unfolding compared lookup
  compared-none compare before [] k v h e = cc
  compared-none compare before ((j, w) ∷ after) k v h e = elim (Bool-cases (j == k)) [
    | inl t ↦ cc (
      ==-eq j k t,
      rw (t, if◌then◌else◌) at e,
      append-nil-left (compare j w (lookup j before)) (compared compare before after) h,
    )
    | inr f ↦
        compared-none compare before after k v (append-nil-right _ _ h) (rw (f, if◌then◌else◌) at e)
  ]

-- The table with this key in the dictionary that is compared.
abbrev pub table_at : SchemaSnapshot → Text → Option Table
table_at s k = lookup k (dictionary table_key (tables_of s))

abbrev pub Attributes : Type 0
Attributes = Text × Bool × Text × Bool

abbrev attributes : Option Column → Option Attributes
attributes none = none
attributes (some c) = some (c.data_type, c.nullable, c.default, c.primary_key)

-- What the comparison looks at of the column with this name.
abbrev pub column_at : Option Table → Text → Option Attributes
column_at none name = none
column_at (some t) name = attributes (lookup name (dictionary column_key t.columns))

bool_eq-eq : (a b : Bool) → bool_eq a b ≡ true → a ≡ b
bool_eq-eq true b h = sym h
bool_eq-eq false true h = cc
bool_eq-eq false false h = refl

same_column-attributes :
    (c d : Column) → same_column c d ≡ true → attributes (some c) ≡ attributes (some d)
unfolding same_column
same_column-attributes c d h = ground (
  arith,
  ==_iff c.data_type d.data_type,
  ==_iff c.default d.default,
  bool_eq-eq c.nullable d.nullable,
  bool_eq-eq c.primary_key d.primary_key,
)

column_changes-none :
    (path : Text → Text) (k : Text) (c : Column) (o : Option Column)
    → column_changes path k c o ≡ []
    → attributes o ≡ attributes (some c)
unfolding column_changes
column_changes-none path k c none h = cc
column_changes-none path k c (some old) h = elim (Bool-cases (same_column old c)) [
  | inl t ↦ same_column-attributes old c t
  | inr f ↦ cc (rw (f, if◌then◌else◌) at h)
]

-- Nothing missing and nothing reported: the column is the same on both sides.
columns-none :
    (path : Text → Text) (detail name : Text) (before after : Dictionary Column)
    → missing path detail after before ≡ []
    → compared (column_changes path) before after ≡ []
    → attributes (lookup name before) ≡ attributes (lookup name after)
columns-none path detail name before after h k =
    on_lookups (lookup name before) (lookup name after) refl refl
  where
    on_lookups :
        (o n : Option Column)
        → lookup name before ≡ o
        → lookup name after ≡ n
        → attributes o ≡ attributes n
    on_lookups o (some c) eo en = column_changes-none path name c o (
        subst (λ (x : Option Column). column_changes path name c x ≡ []) eo
          (compared-none (column_changes path) before after name c k en))
    on_lookups none none eo en = refl
    on_lookups (some old) none eo en =
        cc (missing-none path detail name after before h (ap is_some eo), ap is_some en)

table_changes-none :
    (k name : Text) (t : Table) (o : Option Table)
    → table_changes k t o ≡ []
    → (is_some o ≡ true) × (column_at o name ≡ column_at (some t) name)
unfolding table_changes
table_changes-none k name t none h = cc
table_changes-none k name t (some old) h =
    let (kept, same) = append_three-nil _ _ (index_changes k old t) h in
    (refl, columns-none _ _ name _ _ kept same)

-- Where the comparison reports no change, both schemas have the same tables, and each table has
-- the same columns with the same type, nullability, default and membership of the primary key.
pub diff_schema-nil_sound :
    (before after : SchemaSnapshot) (k name : Text)
    → diff_schema before after ≡ []
    → (is_some (table_at before k) ≡ is_some (table_at after k))
      × (column_at (table_at before k) name ≡ column_at (table_at after k) name)
unfolding diff_schema
diff_schema-nil_sound before after k name h =
    on_tables (table_at before k) (table_at after k) refl refl
  where
    before_tables : Dictionary Table
    before_tables = dictionary table_key (tables_of before)

    after_tables : Dictionary Table
    after_tables = dictionary table_key (tables_of after)

    none_of :
        (missing (λ x. x) (lit "Table removed") after_tables before_tables ≡ [])
        × (compared table_changes before_tables after_tables ≡ [])
    none_of =
        append_three-nil _ _
          (relationship_changes (relationships_of before) (relationships_of after)) h

    on_tables :
        (o n : Option Table)
        → table_at before k ≡ o
        → table_at after k ≡ n
        → (is_some o ≡ is_some n) × (column_at o name ≡ column_at n name)
    on_tables o (some t) eo en = table_changes-none k name t o (
        subst (λ (x : Option Table). table_changes k t x ≡ []) eo
          (compared-none table_changes before_tables after_tables k t none_of.1 en))
    on_tables none none eo en = (refl, refl)
    on_tables (some old) none eo en = cc (
      missing-none (λ x. x) (lit "Table removed") k after_tables before_tables none_of.0
          (ap is_some eo),
      ap is_some en,
    )
