-- ===== src/Schema.antt =====
-- The comparison of two captures of a schema: `diffSchemaSnapshots` and `schemaDiffMarkdown` of
-- webembed/src/app.js. It compares the texts that `JSON.stringify` makes of arrays of strings and
-- Booleans, which differ exactly if the arrays do; here the arrays are compared.
pub mod Laws
pub mod Same
use rowake.Prelude.{
  ℕ, Text, lit, Bool, true, false, not, ◌&&◌, ◌||◌, Option, none, some, List, [], ◌∷◌, ◌++◌, map,
  if◌then◌else◌, ltb, nat_eq, bool_eq, is_some, ◌==◌, join,
}
use rowake.Data.{Column, Index, Relationship, Table, Topology}

-- A `Map`, in the order in which its keys were added.
abbrev pub Dictionary {ℓ} : Type ℓ → Type ℓ
Dictionary A = List (Text × A)

module _ {ℓ} {A : Type ℓ} where
  unfoldable pub lookup : Text → Dictionary A → Option A
  lookup k [] = none
  lookup k ((j, v) ∷ m) = if j == k then some v else lookup k m

  unfoldable pub set : Text → A → Dictionary A → Dictionary A
  set k v [] = (k, v) ∷ []
  set k v ((j, w) ∷ m) = if j == k then (j, v) ∷ m else (j, w) ∷ set k v m

  unfoldable pub set_all : (A → Text) → Dictionary A → List A → Dictionary A
  unfolding set
  set_all key m [] = m
  set_all key m (x ∷ xs) = set_all key (set (key x) x m) xs

  -- `new Map(xs.map(x => [key(x), x]))`
  unfoldable pub dictionary : (A → Text) → List A → Dictionary A
  unfolding set_all
  dictionary key xs = set_all key [] xs

pub record SchemaSnapshot : Type 0 where
  pub database : Text
  pub captured_at : Text
  pub topology : Option Topology

pub data ChangeKind : Type 0 where
  removed added changed : ChangeKind

pub record Change : Type 0 where
  pub kind : ChangeKind
  pub path : Text
  pub detail : Text

abbrev pub change : ChangeKind → Text → Text → Change
change kind path detail = record { kind = kind; path = path; detail = detail }

abbrev pub tables_of : SchemaSnapshot → List Table
tables_of s = elim s.topology [ none ↦ [] | some t ↦ t.tables ]

abbrev pub relationships_of : SchemaSnapshot → List Relationship
relationships_of s = elim s.topology [ none ↦ [] | some t ↦ t.relationships ]

abbrev pub table_key : Table → Text
table_key t = t.schema ++ lit "." ++ t.name

abbrev pub column_key : Column → Text
column_key c = c.name

-- the order of `sort` on strings
text_lt : Text → Text → Bool
text_lt s [] = false
text_lt [] (d ∷ t) = true
text_lt (c ∷ s) (d ∷ t) = ltb c d || (nat_eq c d && text_lt s t)

-- `sort`, which is stable and compares the texts of the elements
insert {ℓ} : {A : Type ℓ} → (A → Text) → A → List A → List A
unfolding text_lt
insert text x [] = x ∷ []
insert text x (y ∷ ys) = if text_lt (text y) (text x) then y ∷ insert text x ys else x ∷ y ∷ ys

sort {ℓ} : {A : Type ℓ} → (A → Text) → List A → List A
unfolding insert
sort text [] = []
sort text (x ∷ xs) = insert text x (sort text xs)

abbrev pub same_list {ℓ} : {A : Type ℓ} → (A → A → Bool) → List A → List A → Bool
same_list same [] [] = true
same_list same [] (y ∷ ys) = false
same_list same (x ∷ xs) [] = false
same_list same (x ∷ xs) (y ∷ ys) = same x y && same_list same xs ys

bool_text : Bool → Text
bool_text b = if b then lit "true" else lit "false"

index_text : Index → Text
unfolding bool_text join
index_text i =
    join (lit ",") (i.name ∷ join (lit ",") i.columns ∷ bool_text i.unique ∷ i.definition ∷ [])

unfoldable pub same_index : Index → Index → Bool
unfolding ◌==◌
same_index i j =
    i.name == j.name
    && same_list ◌==◌ i.columns j.columns
    && bool_eq i.unique j.unique
    && i.definition == j.definition

pub relationship_fields : Relationship → List Text
relationship_fields r =
    r.constraint_id ∷ r.from_schema ∷ r.from_table ∷ r.from_column ∷ r.to_schema ∷ r.to_table
    ∷ r.to_column ∷ r.on_update ∷ r.on_delete ∷ []

relationship_text : Relationship → Text
unfolding relationship_fields join
relationship_text r = join (lit ",") (relationship_fields r)

unfoldable pub same_relationship : Relationship → Relationship → Bool
unfolding relationship_fields ◌==◌
same_relationship r s = same_list ◌==◌ (relationship_fields r) (relationship_fields s)

unfoldable pub same_column : Column → Column → Bool
unfolding ◌==◌
same_column c d =
    c.data_type == d.data_type
    && bool_eq c.nullable d.nullable
    && c.default == d.default
    && bool_eq c.primary_key d.primary_key

-- the first loop over tables, and over columns: what `after` does not have
unfoldable pub missing {ℓ} :
    {A : Type ℓ} → (Text → Text) → Text → Dictionary A → Dictionary A → List Change
unfolding lookup
missing path detail after [] = []
missing path detail after ((k, v) ∷ before) =
    let rest = missing path detail after before in
    if is_some (lookup k after) then rest else change removed (path k) detail ∷ rest

-- the second loop: what `compare` finds at every entry of `after`
unfoldable pub compared {ℓ} :
    {A : Type ℓ} → (Text → A → Option A → List Change) → Dictionary A → Dictionary A → List Change
unfolding lookup
compared compare before [] = []
compared compare before ((k, v) ∷ after) =
    compare k v (lookup k before) ++ compared compare before after

unfoldable pub column_changes : (Text → Text) → Text → Column → Option Column → List Change
unfolding same_column
column_changes path k c none =
    change added (path k) (lit "Column added (" ++ c.data_type ++ lit ")") ∷ []
column_changes path k c (some old) =
    if same_column old c
    then []
    else change changed (path k) (old.data_type ++ lit " → " ++ c.data_type) ∷ []

unfoldable pub index_changes : Text → Table → Table → List Change
unfolding same_index index_text sort
index_changes k old t =
    if same_list same_index (sort index_text old.indexes) (sort index_text t.indexes)
    then []
    else change changed k (lit "Indexes changed") ∷ []

abbrev column_path : Text → Text → Text
column_path k name = k ++ lit "." ++ name

unfoldable pub table_changes : Text → Table → Option Table → List Change
unfolding missing compared column_changes index_changes dictionary
table_changes k t none = change added k (lit "Table added") ∷ []
table_changes k t (some old) =
    let before = dictionary column_key old.columns in
    let after = dictionary column_key t.columns in
    missing (column_path k) (lit "Column removed") after before
    ++ compared (column_changes (column_path k)) before after
    ++ index_changes k old t

unfoldable pub relationship_changes : List Relationship → List Relationship → List Change
unfolding relationship_text same_relationship sort
relationship_changes before after =
    if same_list same_relationship (sort relationship_text before) (sort relationship_text after)
    then []
    else change changed (lit "relationships") (lit "Foreign-key relationships changed") ∷ []

-- the changes of `diffSchemaSnapshots`
unfoldable pub diff_schema : SchemaSnapshot → SchemaSnapshot → List Change
unfolding missing compared table_changes relationship_changes dictionary
diff_schema before after =
    let before_tables = dictionary table_key (tables_of before) in
    let after_tables = dictionary table_key (tables_of after) in
    missing (λ k. k) (lit "Table removed") after_tables before_tables
    ++ compared table_changes before_tables after_tables
    ++ relationship_changes (relationships_of before) (relationships_of after)

kind_text : ChangeKind → Text
kind_text removed = lit "removed"
kind_text added = lit "added"
kind_text changed = lit "changed"

markdown_line : Change → Text
unfolding kind_text
markdown_line c = lit "- **" ++ kind_text c.kind ++ lit "** `" ++ c.path ++ lit "`: " ++ c.detail

markdown_lines : List Change → List Text
unfolding markdown_line
markdown_lines [] = lit "No schema changes." ∷ []
markdown_lines (c ∷ cs) = map markdown_line (c ∷ cs)

-- `schemaDiffMarkdown`
unfoldable pub schema_diff_markdown : SchemaSnapshot → SchemaSnapshot → List Change → Text
unfolding markdown_lines join
schema_diff_markdown before after changes = join (10 ∷ []) (
    (lit "# Schema diff: " ++ after.database)
    ∷ []
    ∷ (lit "Baseline: " ++ before.captured_at)
    ∷ (lit "Current: " ++ after.captured_at)
    ∷ []
    ∷ markdown_lines changes)
