-- ===== src/Browse/Grid.antt =====
-- The cell that is selected in the grid: `filteredRows`, `selectTableCell`, `moveTableCell` and the
-- part of `renderRows` that moves the selection into the grid. Row and column numbers come from the
-- attributes that `renderRows` writes, so they are natural numbers.
use rowake.Prelude.{
  ℕ, suc, ◌+◌, ◌-◌, ◌<◌, min, Text, lit, ◌≡◌, refl, ap, Bool, true, false, not, ◌&&◌, ◌||◌, Option,
  none, some, List, [], ◌∷◌, arith, if◌then◌else◌, nat_eq, nat_eq_refl, filter, any, find_index,
  get_elem?, length, is_some, is_empty, trim, includes, &&-right,
}
use rowake.Values.{Host, Value, undefined, null, boolean, number, bigint, string, object}
use rowake.Data.{Snapshot}
use rowake.Browse.{Browse}

abbrev is_none_left {ℓ} : {A : Type ℓ} → List A → Bool
is_none_left [] = true
is_none_left (x ∷ xs) = false

-- `String(value ?? "null")`
cell_text : Host → Value → Text
cell_text h undefined = lit "null"
cell_text h null = lit "null"
cell_text h (boolean true) = lit "true"
cell_text h (boolean false) = lit "false"
cell_text h (number n) = h.number_text n
cell_text h (bigint digits) = digits
cell_text h (string t) = t
cell_text h (object j) = h.object_text j

-- `rows.map((row, index) => ({ row, index }))`
numbered : ℕ → List (List Value) → List (ℕ × List Value)
numbered i [] = []
numbered i (row ∷ rows) = (i, row) ∷ numbered (suc i) rows

row_matches : Host → Text → ℕ × List Value → Bool
unfolding cell_text includes
row_matches h term row = is_empty term || any (λ v. includes term (h.lower (cell_text h v))) row.1

-- `filteredRows`
unfoldable pub filtered_rows : Host → Text → Snapshot → List (ℕ × List Value)
unfolding numbered row_matches
filtered_rows h search s = filter (row_matches h (trim (h.lower search))) (numbered 0 s.rows)

abbrev has_index : ℕ → ℕ × List Value → Bool
has_index i row = nat_eq row.0 i

abbrev is_shown : ℕ → List (ℕ × List Value) → Bool
is_shown i rows = any (has_index i) rows

shown_row : ℕ → List (ℕ × List Value) → ℕ
shown_row i [] = i
shown_row i (row ∷ rows) = if is_shown i (row ∷ rows) then i else row.0

pub data Key : Type 0 where
  up down left right : Key

-- the number after a key, of a row that is shown or of a column; `count` is how many there are
next_row : Key → ℕ → ℕ → ℕ
next_row up count i = i - 1
next_row down count i = min (i + 1) (count - 1)
next_row left count i = i
next_row right count i = i

next_column : Key → ℕ → ℕ → ℕ
next_column up count j = j
next_column down count j = j
next_column left count j = j - 1
next_column right count j = min (j + 1) (count - 1)

module _ (h : Host) where
  -- what `renderRows` does to the selection
  unfoldable pub render_rows : Snapshot → Browse → Browse
  unfolding filtered_rows shown_row
  render_rows s b = record b {
    selected_row = shown_row b.selected_row (filtered_rows h b.table_search s);
    selected_column = min b.selected_column (length s.columns - 1);
  }

  -- `selectTableCell`
  unfoldable pub select_table_cell : ℕ → ℕ → Snapshot → Browse → Browse
  unfolding filtered_rows
  select_table_cell i j s b =
      if is_some (get_elem? s.rows i)
        && not (is_none_left s.columns)
        && is_shown i (filtered_rows h b.table_search s)
      then record b { selected_row = i; selected_column = min j (length s.columns - 1) }
      else b

  go_to : ℕ → ℕ → ℕ → Option (ℕ × List Value) → Snapshot → Browse → Browse
  unfolding select_table_cell
  go_to i j j' none s b = b
  go_to i j j' (some row) s b =
      if nat_eq row.0 i && nat_eq j' j then b else select_table_cell row.0 j' s b

  move_from : Key → ℕ → ℕ → Option ℕ → Snapshot → Browse → Browse
  unfolding filtered_rows go_to next_row next_column
  move_from key i j none s b = b
  move_from key i j (some k) s b =
      let rows = filtered_rows h b.table_search s in
      go_to i j (next_column key (length s.columns) j)
        (get_elem? rows (next_row key (length rows) k)) s b

  -- `moveTableCell`, from the cell in row `i` and column `j`
  unfoldable pub move_table_cell : Key → ℕ → ℕ → Snapshot → Browse → Browse
  unfolding move_from
  move_table_cell key i j s b =
      if is_none_left s.columns
      then b
      else move_from key i j (find_index (has_index i) (filtered_rows h b.table_search s)) s b

  -- what the user does to the grid of one page; the search renders it again
  pub data Input : Type 0 where
    search : Text → Input
    click : ℕ → ℕ → Input
    press : Key → ℕ → ℕ → Input

  unfoldable pub handle_input : Snapshot → Input → Browse → Browse
  unfolding render_rows select_table_cell move_table_cell
  handle_input s (search term) b = render_rows s (record b { table_search = term })
  handle_input s (click i j) b = select_table_cell i j s b
  handle_input s (press key i j) b = move_table_cell key i j s b

  unfoldable pub handle_inputs : Snapshot → List Input → Browse → Browse
  unfolding handle_input
  handle_inputs s [] b = b
  handle_inputs s (x ∷ xs) b = handle_inputs s xs (handle_input s x b)

  -- The selected row is one of those that are shown, if any is, and the column is in the grid.
  unfoldable pub IsOnGrid : Snapshot → Browse → Type 0
  unfolding filtered_rows
  IsOnGrid s b =
      ((is_none_left (filtered_rows h b.table_search s)
          || is_shown b.selected_row (filtered_rows h b.table_search s))
        ≡ true)
      × (b.selected_column < length s.columns)

  or-right : (p q : Bool) → q ≡ true → (p || q) ≡ true
  or-right true q h = refl
  or-right false q h = h

  if-IsShown :
      (p : Bool) (i k : ℕ) (rows : List (ℕ × List Value))
      → (p ≡ true → is_shown i rows ≡ true)
      → is_shown k rows ≡ true
      → is_shown (if p then i else k) rows ≡ true
  if-IsShown true i k rows vi vk = vi refl
  if-IsShown false i k rows vi vk = vk

  shown_row-IsShown :
      (i : ℕ) (rows : List (ℕ × List Value))
      → (is_none_left rows || is_shown (shown_row i rows) rows) ≡ true
  unfolding shown_row
  shown_row-IsShown i [] = refl
  shown_row-IsShown i (row ∷ rows) =
      if-IsShown _ i row.0 (row ∷ rows) (λ t. t)
        (ap (◌|| any (has_index row.0) rows) (nat_eq_refl row.0))

  render_rows-IsOnGrid :
      (s : Snapshot) (b : Browse) → 0 < length s.columns → IsOnGrid s (render_rows s b)
  unfolding render_rows IsOnGrid
  render_rows-IsOnGrid s b columns =
      (shown_row-IsShown b.selected_row (filtered_rows h b.table_search s), omega arith)

  if-IsOnGrid :
      (s : Snapshot) (p : Bool) (x y : Browse)
      → (p ≡ true → IsOnGrid s x)
      → IsOnGrid s y
      → IsOnGrid s (if p then x else y)
  if-IsOnGrid s true x y vx vy = vx refl
  if-IsOnGrid s false x y vx vy = vy

  select_table_cell-IsOnGrid :
      (i j : ℕ) (s : Snapshot) (b : Browse)
      → 0 < length s.columns
      → IsOnGrid s b
      → IsOnGrid s (select_table_cell i j s b)
  unfolding select_table_cell IsOnGrid
  select_table_cell-IsOnGrid i j s b columns v =
      if-IsOnGrid s _
        (record b { selected_row = i; selected_column = min j (length s.columns - 1) }) b
        (λ t. (
          or-right (is_none_left (filtered_rows h b.table_search s)) _
              (&&-right (is_some (get_elem? s.rows i) && not (is_none_left s.columns)) _ t),
          omega arith,
        ))
        v

  go_to-IsOnGrid :
      (i j j' : ℕ) (row : Option (ℕ × List Value)) (s : Snapshot) (b : Browse)
      → 0 < length s.columns
      → IsOnGrid s b
      → IsOnGrid s (go_to i j j' row s b)
  unfolding go_to
  go_to-IsOnGrid i j j' none s b columns v = v
  go_to-IsOnGrid i j j' (some row) s b columns v =
      if-IsOnGrid s _ b _ (λ t. v) (select_table_cell-IsOnGrid row.0 j' s b columns v)

  move_from-IsOnGrid :
      (key : Key) (i j : ℕ) (k : Option ℕ) (s : Snapshot) (b : Browse)
      → 0 < length s.columns
      → IsOnGrid s b
      → IsOnGrid s (move_from key i j k s b)
  unfolding move_from
  move_from-IsOnGrid key i j none s b columns v = v
  move_from-IsOnGrid key i j (some k) s b columns v = go_to-IsOnGrid i j _ _ s b columns v

  handle_input-IsOnGrid :
      (s : Snapshot) (x : Input) (b : Browse)
      → 0 < length s.columns
      → IsOnGrid s b
      → IsOnGrid s (handle_input s x b)
  unfolding handle_input move_table_cell
  handle_input-IsOnGrid s (search term) b columns v = render_rows-IsOnGrid s _ columns
  handle_input-IsOnGrid s (click i j) b columns v = select_table_cell-IsOnGrid i j s b columns v
  handle_input-IsOnGrid s (press key i j) b columns v =
      if-IsOnGrid s _ b _ (λ t. v) (move_from-IsOnGrid key i j _ s b columns v)

  keeps_grid :
      (s : Snapshot) (xs : List Input) (b : Browse)
      → 0 < length s.columns
      → IsOnGrid s b
      → IsOnGrid s (handle_inputs s xs b)
  unfolding handle_inputs
  keeps_grid s [] b columns v = v
  keeps_grid s (x ∷ xs) b columns v =
      keeps_grid s xs _ columns (handle_input-IsOnGrid s x b columns v)

  -- On a page that has columns, the grid is rendered with a selected cell, and searches, clicks and
  -- arrow keys keep one selected: the column is always in the page, and the row is one of those that
  -- the search shows, if it shows any.
  pub handle_inputs-IsOnGrid :
      (s : Snapshot) (xs : List Input) (b : Browse)
      → 0 < length s.columns
      → IsOnGrid s (handle_inputs s xs (render_rows s b))
  handle_inputs-IsOnGrid s xs b columns =
      keeps_grid s xs (render_rows s b) columns (render_rows-IsOnGrid s b columns)
