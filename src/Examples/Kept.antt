-- ===== src/Examples/Kept.antt =====
-- Recent objects, pins and schema snapshots at concrete lists.
use rowake.Prelude.{lit, ◌≡◌, refl, not, List, [], ◌∷◌, arith, ◌==◌, elem}
use rowake.Json.{Json, text_of, get}
use rowake.Objects.{object_item, object_key, is_pinned, toggle_pin}
use rowake.Objects.Laws.{IsKept, toggle_pin-IsKept}

abbrev items : List Json
items =
    object_item (lit "visited_at") (lit "t1") (lit "local") (lit "main") (lit "orders")
    ∷ object_item (lit "visited_at") (lit "t0") (lit "local") (lit "main") (lit "customers")
    ∷ []

items-IsKept : IsKept items
unfolding object_item object_key ◌==◌ text_of get elem
items-IsKept = record { distinct = (refl, (refl, tt)); count = omega arith }

pin_example :
    let item = object_item (lit "pinned_at") (lit "t2") (lit "local") (lit "main") (lit "orders") in
    let after = toggle_pin (lit "t2") (lit "local") (lit "main") (lit "orders") items in
    IsKept after × (is_pinned item after ≡ not (is_pinned item items))
pin_example =
    toggle_pin-IsKept (lit "t2") (lit "local") (lit "main") (lit "orders") items items-IsKept
