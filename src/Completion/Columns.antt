-- ===== src/Completion/Columns.antt =====
-- Which columns `availableQueryColumns` of webembed/src/app.js finds.
use rowake.Prelude.{
  Text, ◌==◌, ==-eq, ==_iff, ◌≡◌, Bool, false, ◌&&◌, ◌||◌, List, [], ◌∷◌, ◌++◌, if◌then◌else◌,
  filter, elem, All, arith, Bool-cases, either_branch, inl, inr,
}
use rowake.Data.{Column}
use rowake.Completion.{
  Source, Available, with_table, put_column, put_columns, put_sources, is_referenced,
  available_query_columns,
}

-- A text at the end of an array.
elem-push : (n t : Text) (ts : List Text) → elem n (ts ++ t ∷ []) ≡ (elem n ts || n == t)
unfolding elem
elem-push n t [] = ground arith
elem-push n t (u ∷ ts) = ground (arith, elem-push n t ts)

with_table-elem :
    (n t : Text) (a : Available) → elem n (with_table t a).tables ≡ (elem n a.tables || n == t)
unfolding with_table
with_table-elem n t a = ground (arith, elem-push n t a.tables, ==_iff n t)

module _ (lower : Text → Text) where
  -- The table has a column whose name is `key`, but for upper and lower case.
  abbrev pub has_column : Text → List Column → Bool
  has_column key [] = false
  has_column key (c ∷ cs) = lower c.name == key || has_column key cs

  -- Some of the tables has this name, such a column, and is one of those that are named in the SQL,
  -- if any is.
  abbrev pub has_source : List Text → Text → Text → List Source → Bool
  has_source names key table [] = false
  has_source names key table (s ∷ ss) =
      (is_referenced lower names s && (table == s.name && has_column key s.columns))
      || has_source names key table ss

  -- An entry for `key` names the table.
  abbrev pub is_offered : Text → Text → List Available → Bool
  is_offered key table [] = false
  is_offered key table (a ∷ as') =
      (lower a.name == key && elem table a.tables) || is_offered key table as'

  abbrev IsFresh : Text → List Available → Type 0
  IsFresh key = All (λ (a : Available). (lower a.name == key) ≡ false)

  -- No two entries are for the same column.
  abbrev pub IsDistinct : List Available → Type 0
  IsDistinct [] = Unit
  IsDistinct (a ∷ as') = IsFresh (lower a.name) as' × IsDistinct as'

  put_column-is_offered :
      (key n t : Text) (c : Column) (as' : List Available)
      → is_offered key n (put_column lower t c as')
        ≡ (is_offered key n as' || (lower c.name == key && n == t))
  unfolding put_column elem
  put_column-is_offered key n t c [] = ground arith
  put_column-is_offered key n t c (a ∷ as') = elim (Bool-cases (lower a.name == lower c.name)) [
    | inl e ↦
        rw (e, if◌then◌else◌)
          (ground (arith, with_table-elem n t a, ==-eq (lower a.name) (lower c.name) e))
    | inr e ↦ rw (e, if◌then◌else◌) (ground (arith, put_column-is_offered key n t c as'))
  ]

  put_columns-is_offered :
      (key n t : Text) (cs : List Column) (as' : List Available)
      → is_offered key n (put_columns lower t cs as')
        ≡ (is_offered key n as' || (n == t && has_column key cs))
  unfolding put_columns
  put_columns-is_offered key n t [] as' = ground arith
  put_columns-is_offered key n t (c ∷ cs) as' = ground (
    arith,
    put_columns-is_offered key n t cs (put_column lower t c as'),
    put_column-is_offered key n t c as',
  )

  put_sources-is_offered :
      (names : List Text) (key n : Text) (ss : List Source) (as' : List Available)
      → is_offered key n (put_sources lower (filter (is_referenced lower names) ss) as')
        ≡ (is_offered key n as' || has_source names key n ss)
  unfolding put_sources
  put_sources-is_offered names key n [] as' = ground arith
  put_sources-is_offered names key n (s ∷ ss) as' =
      elim (Bool-cases (is_referenced lower names s)) [
        | inl e ↦
            rw (e, if◌then◌else◌)
              (ground (
                arith,
                put_sources-is_offered names key n ss (put_columns lower s.name s.columns as'),
                put_columns-is_offered key n s.name s.columns as',
              ))
        | inr e ↦ rw (e, if◌then◌else◌) (ground (arith, put_sources-is_offered names key n ss as'))
      ]

  ==_false_sym : (s t : Text) → (s == t) ≡ false → (t == s) ≡ false
  ==_false_sym s t h = ground (arith, ==_iff s t, ==_iff t s)

  put_column-IsFresh :
      (key t : Text) (c : Column) (as' : List Available)
      → (lower c.name == key) ≡ false
      → IsFresh key as'
      → IsFresh key (put_column lower t c as')
  unfolding put_column with_table
  put_column-IsFresh key t c [] ne f = (ne, tt)
  put_column-IsFresh key t c (a ∷ as') ne f =
      either_branch (IsFresh key) (lower a.name == lower c.name) _ _ f
        (f.0, put_column-IsFresh key t c as' ne f.1)

  put_column-IsDistinct :
      (t : Text) (c : Column) (as' : List Available)
      → IsDistinct as'
      → IsDistinct (put_column lower t c as')
  unfolding put_column with_table
  put_column-IsDistinct t c [] d = (tt, tt)
  put_column-IsDistinct t c (a ∷ as') d = elim (Bool-cases (lower a.name == lower c.name)) [
    | inl e ↦ rw (e, if◌then◌else◌) d
    | inr e ↦
        rw (e, if◌then◌else◌)
          (
            put_column-IsFresh (lower a.name) t c as' (==_false_sym (lower a.name) (lower c.name) e)
                d.0,
            put_column-IsDistinct t c as' d.1,
          )
  ]

  put_columns-IsDistinct :
      (t : Text) (cs : List Column) (as' : List Available)
      → IsDistinct as'
      → IsDistinct (put_columns lower t cs as')
  unfolding put_columns
  put_columns-IsDistinct t [] as' d = d
  put_columns-IsDistinct t (c ∷ cs) as' d =
      put_columns-IsDistinct t cs (put_column lower t c as') (put_column-IsDistinct t c as' d)

  put_sources-IsDistinct :
      (ss : List Source) (as' : List Available)
      → IsDistinct as'
      → IsDistinct (put_sources lower ss as')
  unfolding put_sources
  put_sources-IsDistinct [] as' d = d
  put_sources-IsDistinct (s ∷ ss) as' d =
      put_sources-IsDistinct ss (put_columns lower s.name s.columns as')
        (put_columns-IsDistinct s.name s.columns as' d)

  -- A column is offered with the name of a table exactly if a table of that name has it and is one
  -- of those that the SQL names, or the SQL names none; names are compared without upper and lower
  -- case. No column is offered twice.
  pub available_query_columns_lem :
      (names : List Text) (tables : List Source)
      → ((key table : Text)
          → is_offered key table (available_query_columns lower names tables)
            ≡ has_source names key table tables)
        × IsDistinct (available_query_columns lower names tables)
  unfolding available_query_columns
  available_query_columns_lem names tables = (
    λ key table. put_sources-is_offered names key table tables [],
    put_sources-IsDistinct (filter (is_referenced lower names) tables) [] tt,
  )
