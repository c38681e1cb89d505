-- ===== src/Menu.antt =====
-- The connection menu of webembed/src/app.js: `connectionPicker`, `filterConnectionMenuOptions`,
-- `focusConnectionMenuSearch`, `closeConnectionMenu`, `toggleConnectionMenu`, and what clicks, keys
-- and input events do to it. The state is that of the elements that these functions read and write.
pub mod Events
pub mod Consistent
pub mod Arrows
use rowake.Prelude.{
  ℕ, suc, Text, lit, ◌==◌, Bool, true, false, not, ◌||◌, Option, none, some, List, [], ◌∷◌, ◌++◌,
  map, if◌then◌else◌, nat_eq, is_empty, length, filter, or_else, trim, includes, decimal,
}
use rowake.Data.{Connection}

-- A `connection-menu-option`: its `data-value` and `data-search`.
pub record Item : Type 0 where
  pub value : Text
  pub search : Text
  pub selected : Bool
  pub hidden : Bool

-- The element that has the focus: an option by its place among all options.
pub data Focus : Type 0 where
  elsewhere trigger search clear : Focus
  option : ℕ → Focus

-- The element `.connection-picker`. `focus_next` are the calls of `focus` that wait for a frame.
pub record Menu : Type 0 where
  pub items : List Item
  pub hidden : Bool
  pub expanded : Bool
  pub search : Text
  pub summary : Text
  pub empty_hidden : Bool
  pub clear_hidden : Bool
  pub focus : Focus
  pub focus_next : List Focus

-- `engineLabel`
unfoldable pub engine_label : Text → Text
engine_label engine =
    if engine == lit "sqlite"
    then lit "SQLite"
    else if engine == lit "postgres"
    then lit "PostgreSQL"
    else if engine == lit "mysql"
    then lit "MySQL"
    else engine

-- `${count} option${count === 1 ? "" : "s"}`, for two words
unfoldable pub counted : Text → ℕ → Text
counted word count = decimal count ++ 32 ∷ (word ++ (if nat_eq count 1 then [] else lit "s"))

abbrev pub is_shown : Item → Bool
is_shown item = not item.hidden

abbrev pub shown_items : List Item → List Item
shown_items items = filter is_shown items

abbrev pub is_any {ℓ} : {A : Type ℓ} → List A → Bool
is_any [] = false
is_any (x ∷ xs) = true

module _ (lower : Text → Text) where
  unfoldable pub item_of : Text → Connection → Item
  unfolding engine_label ◌==◌
  item_of connection_id c = record {
    value = c.id;
    search = lower (c.name ++ 32 ∷ (c.database ++ 32 ∷ engine_label c.engine));
    selected = c.id == connection_id;
    hidden = false;
  }

  -- `connectionPicker`, where there are connections
  unfoldable pub connection_picker : Text → List Connection → Menu
  unfolding item_of counted
  connection_picker connection_id connections = record {
    items = map (item_of connection_id) connections;
    hidden = true;
    expanded = false;
    search = [];
    summary = counted (lit "option") (length connections);
    empty_hidden = true;
    clear_hidden = true;
    focus = elsewhere;
    focus_next = [];
  }

  -- `String(query || "").trim().toLowerCase()`
  unfoldable pub needle_of : Text → Text
  unfolding trim
  needle_of query = lower (trim query)

  -- `!needle || String(option.dataset.search).toLowerCase().includes(needle)`
  unfoldable pub matches : Text → Item → Bool
  unfolding includes
  matches needle item = is_empty needle || includes needle (lower item.search)

  abbrev pub marked : Text → Item → Item
  marked needle item = record item { hidden = not (matches needle item) }

  -- the summary, for a needle and the items as they are marked
  unfoldable pub summary_of : Text → List Item → Text
  unfolding counted
  summary_of needle items =
      if is_empty needle
      then counted (lit "option") (length items)
      else counted (lit "result") (length (shown_items items))

  -- `filterConnectionMenuOptions`
  unfoldable pub filter_options : Text → Menu → Menu
  unfolding needle_of matches summary_of
  filter_options query m =
      let needle = needle_of query in
      let items = map (marked needle) m.items in
      record m {
        items = items;
        empty_hidden = is_any (shown_items items);
        summary = summary_of needle items;
        clear_hidden = is_empty needle;
      }

  -- `focusConnectionMenuSearch`
  unfoldable pub focus_search : Text → Menu → Menu
  unfolding filter_options
  focus_search value m =
      let m' = filter_options value (record m { search = value }) in
      record m' { focus_next = m.focus_next ++ Focus.search ∷ [] }

-- `closeConnectionMenu`
unfoldable pub close_menu : Bool → Menu → Menu
close_menu restore_focus m = if m.hidden then m else record m {
  hidden = true;
  expanded = false;
  focus = if restore_focus then trigger else m.focus;
}

-- `forceOpen ?? menu.hidden`
abbrev opens : Option Bool → Menu → Bool
opens none m = m.hidden
opens (some b) m = b

-- `toggleConnectionMenu`, without the place of the menu on the page
unfoldable pub toggle_menu : (Text → Text) → Option Bool → Bool → Menu → Menu
unfolding close_menu focus_search
toggle_menu lower force_open with_search m =
    let closed = close_menu false m in
    if not (opens force_open m)
    then closed
    else (let open_menu : Menu = record closed { hidden = false; expanded = true } in
        if with_search then focus_search lower [] open_menu else open_menu)
