-- ===== src/Examples/Choosing.antt =====
-- The connection menu with two connections.
use rowake.Prelude.{
  lit, ◌≡◌, refl, Bool, true, false, List, [], ◌∷◌, ◌+◌, ◌%◌, ℕ, some, length, get_elem?, map,
}
use rowake.Data.{Connection}
use rowake.Menu.{Menu, search, trigger, option, connection_picker}
use rowake.Menu.Events.{
  Event, press_button, input, frame, press, arrow_down, escape, handle_all, shown_places,
}
use rowake.Menu.Consistent.{IsConsistent, connection_id, handle_all-IsConsistent}
use rowake.Menu.Arrows.{press_arrows, count_of, press_arrows-cycle}
use rowake.Examples.{host}

abbrev local : Connection
local = record {
  id = lit "c1";
  name = lit "local";
  engine = lit "sqlite";
  address = lit "app.db";
  database = lit "app";
}

abbrev remote : Connection
remote = record {
  id = lit "c2";
  name = lit "orders";
  engine = lit "postgres";
  address = lit "db:5432";
  database = lit "orders";
}

abbrev events : List Event
events =
    press_button
    ∷ frame
    ∷ input (lit "orders")
    ∷ press search arrow_down
    ∷ press (option 1) escape
    ∷ press trigger arrow_down
    ∷ []

menu_example :
    IsConsistent host.lower
      (map connection_id (local ∷ remote ∷ []))
      (handle_all host.lower events (connection_picker host.lower (lit "c1") (local ∷ remote ∷ [])))
menu_example = handle_all-IsConsistent host.lower refl (lit "c1") local (remote ∷ []) events

abbrev menu : Menu
menu = record (connection_picker host.lower (lit "c1") (local ∷ remote ∷ [])) {
  hidden = false;
  expanded = true;
  focus = option 0;
}

abbrev keys : List Bool
keys = true ∷ true ∷ false ∷ []

arrows_example :
    (i p : ℕ) × (get_elem? (shown_places 0 menu.items) i ≡ some p)
    × (press_arrows host.lower keys menu ≡ record menu { focus = option p })
    × ((i + count_of false keys) % length (shown_places 0 menu.items)
        ≡ (0 + count_of true keys) % length (shown_places 0 menu.items))
unfolding shown_places connection_picker
arrows_example = press_arrows-cycle host.lower keys menu 0 0 refl refl

-- After a search for "orders" only the second connection is shown.
searched :
    shown_places 0
      (handle_all host.lower
        (press_button ∷ input (lit "orders") ∷ [])
        (connection_picker host.lower (lit "c1") (local ∷ remote ∷ []))).items
    ≡ 1 ∷ []
unfolding shown_places handle_all connection_picker
searched = refl
