-- ===== src/Schema/Same.antt =====
-- A schema that is compared with itself.
use rowake.Prelude.{
  Text, lit, ◌≡◌, refl, ◌∙◌, Bool, true, false, Option, none, some, List, [], ◌∷◌, arith,
  if◌then◌else◌, bool_eq, ◌==◌, ==_refl, ==_iff, ==-eq, Bool-cases, inl, inr, All,
}
use rowake.Data.{Column, Index, Relationship, Table}
use rowake.Schema.{
  Dictionary, lookup, set, set_all, dictionary, SchemaSnapshot, Change, tables_of, relationships_of,
  table_key, column_key, relationship_fields, same_list, same_index, same_relationship, same_column,
  missing, compared, column_changes, index_changes, table_changes, relationship_changes,
  diff_schema,
}

All-map {ℓ κ μ} :
    {A : Type ℓ} {P : A → Type κ} {Q : A → Type μ} (f : (x : A) → P x → Q x) (xs : List A)
    → All P xs
    → All Q xs
All-map f [] h = tt
All-map f (x ∷ xs) h = (f x h.0, All-map f xs h.1)

module _ {ℓ} {A : Type ℓ} where
  -- No key occurs twice.
  abbrev Unique : Dictionary A → Type ℓ
  Unique [] = Unit
  Unique ((k, v) ∷ m) = (lookup k m ≡ none) × Unique m

  lookup-set_ne :
      (j k : Text) (v : A) (m : Dictionary A) → (k == j) ≡ false → lookup j (set k v m) ≡ lookup j m
  unfolding lookup set
  lookup-set_ne j k v [] h = ground arith
  lookup-set_ne j k v ((i, w) ∷ m) h =
      ground (arith, lookup-set_ne j k v m h, ==_iff i k, ==_iff i j, ==_iff k j)

  set-Unique : (k : Text) (v : A) (m : Dictionary A) → Unique m → Unique (set k v m)
  unfolding set lookup
  set-Unique k v [] u = (refl, tt)
  set-Unique k v ((j, w) ∷ m) u = elim (Bool-cases (j == k)) [
    | inl t ↦ rw (t, if◌then◌else◌) u
    | inr f ↦
        rw (f, if◌then◌else◌)
          (
            lookup-set_ne j k v m (ground (arith, ==_iff k j, ==_iff j k)) ∙ u.0,
            set-Unique k v m u.1,
          )
  ]

  set_all-Unique :
      (key : A → Text) (m : Dictionary A) (xs : List A) → Unique m → Unique (set_all key m xs)
  unfolding set_all
  set_all-Unique key m [] u = u
  set_all-Unique key m (x ∷ xs) u =
      set_all-Unique key (set (key x) x m) xs (set-Unique (key x) x m u)

  -- Every entry is the one that its key finds.
  abbrev Found : Dictionary A → Text × A → Type ℓ
  Found m entry = lookup entry.0 m ≡ some entry.1

  Found-later :
      (k : Text) (v : A) (m : Dictionary A) (entry : Text × A)
      → lookup k m ≡ none
      → Found m entry
      → Found ((k, v) ∷ m) entry
  unfolding lookup
  Found-later k v m (j, w) absent h = elim (Bool-cases (k == j)) [
    | inl t ↦ cc (==-eq k j t, absent, h)
    | inr f ↦ rw (f, if◌then◌else◌) h
  ]

  Unique-Found : (m : Dictionary A) → Unique m → All (Found m) m
  unfolding lookup
  Unique-Found [] u = tt
  Unique-Found ((k, v) ∷ m) u = (
    rw (==_refl k, if◌then◌else◌) refl,
    All-map (λ entry. Found-later k v m entry u.0) m (Unique-Found m u.1),
  )

  dictionary-Found :
      (key : A → Text) (xs : List A) → All (Found (dictionary key xs)) (dictionary key xs)
  unfolding dictionary
  dictionary-Found key xs = Unique-Found (dictionary key xs) (set_all-Unique key [] xs tt)

  missing-Found :
      (path : Text → Text) (detail : Text) (after before : Dictionary A)
      → All (Found after) before
      → missing path detail after before ≡ []
  unfolding missing
  missing-Found path detail after [] h = refl
  missing-Found path detail after ((k, v) ∷ before) h =
      rw (h.0, if◌then◌else◌) (missing-Found path detail after before h.1)

  compared-Found :
      (compare : Text → A → Option A → List Change) (before after : Dictionary A)
      → ((k : Text) (v : A) → compare k v (some v) ≡ [])
      → All (Found before) after
      → compared compare before after ≡ []
  unfolding compared
  compared-Found compare before [] same h = refl
  compared-Found compare before ((k, v) ∷ after) same h =
      rw (h.0, same k v) (compared-Found compare before after same h.1)

  same_list_refl :
      (same : A → A → Bool) (xs : List A)
      → ((x : A) → same x x ≡ true)
      → same_list same xs xs ≡ true
  same_list_refl same [] h = refl
  same_list_refl same (x ∷ xs) h = rw (h x) (same_list_refl same xs h)

bool_eq_refl : (b : Bool) → bool_eq b b ≡ true
bool_eq_refl true = refl
bool_eq_refl false = refl

same_index_refl : (i : Index) → same_index i i ≡ true
unfolding same_index
same_index_refl i =
    rw
      (
        ==_refl i.name,
        same_list_refl ◌==◌ i.columns ==_refl,
        bool_eq_refl i.unique,
        ==_refl i.definition,
      )
      refl

same_relationship_refl : (r : Relationship) → same_relationship r r ≡ true
unfolding same_relationship
same_relationship_refl r = same_list_refl ◌==◌ (relationship_fields r) ==_refl

same_column_refl : (c : Column) → same_column c c ≡ true
unfolding same_column
same_column_refl c =
    rw (==_refl c.data_type, bool_eq_refl c.nullable, ==_refl c.default, bool_eq_refl c.primary_key)
      refl

column_changes-same :
    (path : Text → Text) (k : Text) (c : Column) → column_changes path k c (some c) ≡ []
unfolding column_changes
column_changes-same path k c = rw (same_column_refl c, if◌then◌else◌) refl

index_changes-same : (k : Text) (t : Table) → index_changes k t t ≡ []
unfolding index_changes
index_changes-same k t = rw (same_list_refl same_index _ same_index_refl) refl

relationship_changes-same : (rs : List Relationship) → relationship_changes rs rs ≡ []
unfolding relationship_changes
relationship_changes-same rs = rw (same_list_refl same_relationship _ same_relationship_refl) refl

table_changes-same : (k : Text) (t : Table) → table_changes k t (some t) ≡ []
unfolding table_changes
table_changes-same k t =
    let found = dictionary-Found column_key t.columns in
    rw
      (
        missing-Found _ _ _ _ found,
        compared-Found (column_changes _) _ _ (column_changes-same _) found,
        index_changes-same k t,
      )
      refl

-- A schema that is compared with a capture of the same tables and relationships, whatever they are
-- and even if names occur twice, shows no change.
pub diff_schema-same :
    (before after : SchemaSnapshot)
    → tables_of before ≡ tables_of after
    → relationships_of before ≡ relationships_of after
    → diff_schema before after ≡ []
unfolding diff_schema
diff_schema-same before after tables relationships =
    let found = dictionary-Found table_key (tables_of after) in
    rw
      (
        tables,
        relationships,
        missing-Found (λ k. k) (lit "Table removed") _ _ found,
        compared-Found table_changes _ _ table_changes-same found,
        relationship_changes-same (relationships_of after),
      )
      refl
