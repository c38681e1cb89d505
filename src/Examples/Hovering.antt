-- ===== src/Examples/Hovering.antt =====
-- A pointer that moves over two cells.
use rowake.Prelude.{
  ℕ, ◌≤◌, lit, ◌≡◌, refl, true, false, none, some, List, [], ◌∷◌, All, length, decimal,
}
use rowake.Preview.{Cell}
use rowake.Preview.Timer.{Timed, Event, over, out, run_timer, escape, wanted, handle_all}
use rowake.Preview.Timer.Wanted.{handle_all-wanted}
use rowake.Examples.{host}

abbrev cell : ℕ → Cell
cell n = record {
  text = lit "…";
  raw = some (lit "a long text");
  is_json = false;
  is_connected = true;
  overflows = true;
}

abbrev idle : Timed
idle = record { target = none; hidden = true; content = none; timer = 0; wait = []; next = 1 }

abbrev events : List Event
events =
    over (some 3) ∷ out true false false ∷ run_timer 1 cell ∷ over (some 4) ∷ run_timer 2 cell ∷ []

wanted_example :
    let after = handle_all host decimal events idle in
    (after.hidden ≡ false → after.target ≡ wanted none events)
    × (length after.wait ≤ 1)
    × All (λ (p : ℕ × ℕ). some p.1 ≡ wanted none events) after.wait
wanted_example = handle_all-wanted host decimal events idle refl refl

-- The second cell's preview is shown, and Escape hides it.
shown : (handle_all host decimal events idle).target ≡ some 4
unfolding handle_all
shown = refl

hidden_again :
    (handle_all host decimal (escape ∷ []) (handle_all host decimal events idle)).hidden ≡ true
unfolding handle_all
hidden_again = refl
