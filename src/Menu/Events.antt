-- ===== src/Menu/Events.antt =====
-- What the event listeners of webembed/src/app.js do to the connection menu. An event comes from
-- the element that has the focus; the connection that is chosen, if any, is what `changeConnection`
-- is then called with.
use rowake.Prelude.{
  ℕ, suc, ◌+◌, ◌-◌, ◌%◌, Text, Bool, true, false, not, ◌&&◌, Option, none, some, List, [], ◌∷◌,
  ◌++◌, if◌then◌else◌, nat_eq, find_index, get_elem?, length,
}
use rowake.Menu.{
  Item, Focus, elsewhere, trigger, search, clear, option, Menu, filter_options, focus_search,
  close_menu, toggle_menu,
}

-- `typed` is a key whose `event.key` has one code unit, and whether a modifier is held.
pub data Key : Type 0 where
  escape enter arrow_down arrow_up home end_key other : Key
  typed : ℕ → Bool → Key

-- `[...options].filter(option => !option.hidden)`, by their places among all options
unfoldable pub shown_places : ℕ → List Item → List ℕ
shown_places i [] = []
shown_places i (item ∷ items) =
    let rest = shown_places (suc i) items in if item.hidden then rest else i ∷ rest

-- `options.indexOf(option)`, with `none` for -1
abbrev pub index_of : ℕ → List ℕ → Option ℕ
index_of i places = find_index (nat_eq i) places

-- `nextIndex`. After `indexOf` gave -1, "up" comes to the last but one of two and more options.
unfoldable pub next_index : Key → ℕ → Option ℕ → Option ℕ
next_index arrow_down count (some i) = some ((i + 1) % count)
next_index arrow_up count (some i) = some ((i + count - 1) % count)
next_index arrow_down count none = some 0
next_index arrow_up count none = some (count - 2)
next_index home count i = some 0
next_index end_key count i = some (count - 1)
next_index key count i = none

-- `options[i]?.focus()`
unfoldable pub focus_place : List ℕ → ℕ → Menu → Menu
focus_place places i m = elim (get_elem? places i) [
  | none ↦ m
  | some place ↦ record m { focus = option place }
]

-- `options[event.key === "ArrowDown" ? 0 : options.length - 1]`
abbrev end_place : Bool → List ℕ → ℕ
end_place first places = if first then 0 else length places - 1

-- the place of the first option that is shown and selected
unfoldable pub selected_place : ℕ → List Item → Option ℕ
selected_place i [] = none
selected_place i (item ∷ items) =
    let rest = selected_place (suc i) items in
    if not item.hidden && item.selected then some i else rest

abbrev value_at : List Item → Option ℕ → Option Text
value_at items none = none
value_at items (some i) = elim (get_elem? items i) [ none ↦ none | some item ↦ some item.value ]

-- a click on an option: the menu closes, and its connection is chosen
unfoldable pub choose : Option ℕ → Menu → Menu × Option Text
unfolding close_menu
choose place m = (close_menu false m, value_at m.items place)

abbrev focus_list : Option ℕ → List Focus
focus_list none = []
focus_list (some i) = option i ∷ []

-- what happens to the menu; `leave` is a click or a focus outside of it, or a new window size
pub data Event : Type 0 where
  leave press_button press_clear frame : Event
  press_option : ℕ → Event
  input : Text → Event
  press : Focus → Key → Event

-- the calls of `focus` that waited, in their order
unfoldable pub run_frames : List Focus → Menu → Menu
run_frames [] m = m
run_frames (f ∷ fs) m = run_frames fs (record m { focus = f })

module _ (lower : Text → Text) where
  -- the frame that a key on the button asks for: the selected option, or the first or the last
  unfoldable pub focus_in_frame : Bool → Menu → List Focus
  unfolding selected_place shown_places
  focus_in_frame first m = elim (selected_place 0 m.items) [
    | some i ↦ option i ∷ []
    | none ↦
        let places = shown_places 0 m.items in
        focus_list (get_elem? places (end_place first places))
  ]

  -- the keys on the button
  unfoldable pub key_on_trigger : Key → Menu → Menu × Option Text
  unfolding toggle_menu focus_search focus_in_frame
  key_on_trigger (typed c modified) m =
      if nat_eq c 32
      then (m, none)
      else if modified
      then (m, none)
      else (focus_search lower (c ∷ []) (toggle_menu lower (some true) false m), none)
  key_on_trigger arrow_down m =
      let opened = toggle_menu lower (some true) false m in
      (record opened { focus_next = opened.focus_next ++ focus_in_frame true m }, none)
  key_on_trigger arrow_up m =
      let opened = toggle_menu lower (some true) false m in
      (record opened { focus_next = opened.focus_next ++ focus_in_frame false m }, none)
  key_on_trigger key m = (m, none)

  -- the keys in the search field
  unfoldable pub key_on_search : Key → List ℕ → Menu → Menu × Option Text
  unfolding focus_place choose
  key_on_search key [] m = (m, none)
  key_on_search arrow_down places m = (focus_place places 0 m, none)
  key_on_search arrow_up places m = (focus_place places (length places - 1) m, none)
  key_on_search enter (place ∷ places) m = choose (some place) m
  key_on_search key places m = (m, none)

  abbrev pub moved : Option ℕ → List ℕ → Menu → Menu
  moved none places m = m
  moved (some i) places m = focus_place places i m

  -- the arrow keys, Home and End on the option at this place
  unfoldable pub key_on_option : Key → ℕ → Menu → Menu
  unfolding shown_places next_index focus_place
  key_on_option key place m =
      let places = shown_places 0 m.items in
      if nat_eq (length places) 0
      then m
      else moved (next_index key (length places) (index_of place places)) places m

  abbrev is_escape : Key → Bool
  is_escape escape = true
  is_escape key = false

  unfoldable pub key_on : Focus → Key → Menu → Menu × Option Text
  unfolding key_on_trigger key_on_search key_on_option shown_places
  key_on elsewhere key m = (m, none)
  key_on clear key m = (m, none)
  key_on trigger key m = key_on_trigger key m
  key_on search key m = key_on_search key (shown_places 0 m.items) m
  key_on (option i) key m = (key_on_option key i m, none)

  -- the part of the listener of `keydown` from the test for `.connection-picker`, at this target
  unfoldable pub key_down : Focus → Key → Menu → Menu × Option Text
  unfolding close_menu key_on
  key_down elsewhere key m = (m, none)
  key_down target key m =
      if is_escape key && not m.hidden then (close_menu true m, none) else key_on target key m

  unfoldable pub handle : Event → Menu → Menu × Option Text
  unfolding close_menu toggle_menu filter_options choose key_down run_frames
  handle leave m = (close_menu false m, none)
  handle press_button m = (toggle_menu lower none true m, none)
  handle press_clear m =
      (record (filter_options lower [] (record m { search = [] })) { focus = search }, none)
  handle (press_option i) m = choose (some i) m
  handle (input value) m = (filter_options lower value (record m { search = value }), none)
  handle (press target k) m = key_down target k m
  handle frame m = (run_frames m.focus_next (record m { focus_next = [] }), none)

  unfoldable pub handle_all : List Event → Menu → Menu
  unfolding handle
  handle_all [] m = m
  handle_all (event ∷ events) m = handle_all events (handle event m).0
