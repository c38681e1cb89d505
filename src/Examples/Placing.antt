-- ===== src/Examples/Placing.antt =====
-- The preview of a cell in a window of 800 by 600 pixels.
use rowake.Prelude.{arith}
use rowake.Prelude.Int.{pos, ◌≤ℤ◌, ◌+ℤ◌, ◌-ℤ◌}
use rowake.Preview.{Box, position_preview, px, width}
use rowake.Preview.Position.{position_preview-inside}

abbrev cell_box : Box
cell_box = record { left = pos 700; top = pos 500; half_width = pos 40; height = pos 30 }

abbrev preview_box : Box
preview_box = record { left = pos 0; top = pos 0; half_width = pos 150; height = pos 200 }

inside_example :
    let place = position_preview 1 (pos 800) (pos 600) cell_box preview_box in
    (px 1 12 ≤ℤ place.left)
    × (place.left +ℤ width preview_box ≤ℤ pos 800 -ℤ px 1 12)
    × (px 1 12 ≤ℤ place.top)
    × (place.top +ℤ preview_box.height ≤ℤ pos 600 -ℤ px 1 12)
unfolding ◌+ℤ◌
inside_example =
    position_preview-inside 1 (pos 800) (pos 600) cell_box preview_box (omega arith) (omega arith)
