-- ===== src/Preview/Position.antt =====
-- Where the preview of a cell stands in the window (webembed/src/app.js,
-- `positionCellValuePreview`).
use rowake.Prelude.{ℕ, ◌+◌, ◌≤◌, ◌≡◌, refl, true, false, ◌||◌, arith, if◌then◌else◌, ap, ◌∙◌}
use rowake.Prelude.Int.{
  ℤ, pos, pos_part, neg_part, ◌+ℤ◌, ◌-ℤ◌, ◌≤ℤ◌, leb_ℤ, min_ℤ, max_ℤ, eq_of_parts, +ℤ_parts,
  -ℤ_parts, le-clamp, min_ℤ_le,
}
use rowake.Preview.{
  Box, bottom, width, Place, below, above, clamp, px, place_below, position_preview,
}

clamp_bounds :
    (low high value : ℤ)
    → low ≤ℤ high
    → (low ≤ℤ clamp low high value) × (clamp low high value ≤ℤ high)
unfolding clamp min_ℤ max_ℤ
clamp_bounds low high value h = ground arith

clamp_value : (low high value : ℤ) → low ≤ℤ value → value ≤ℤ high → clamp low high value ≡ value
unfolding clamp min_ℤ max_ℤ
clamp_value low high value h k = ground arith

-- The choice of a side, from the space on both sides and the space needed.
side_true : (need space other : ℤ) → need ≤ℤ space → leb_ℤ need space || leb_ℤ other space ≡ true
side_true need space other h = ground arith

side_false :
    (need space other : ℤ)
    → space +ℤ pos 1 ≤ℤ need
    → need ≤ℤ other
    → leb_ℤ need space || leb_ℤ other space ≡ false
side_false need space other h k =
    let l : pos_part space + neg_part need + 1 ≤ pos_part need + neg_part space =
      omega (arith, h, +ℤ_parts space (pos 1)) in
    ground arith

sub_add : (a b c : ℤ) → a -ℤ b -ℤ c +ℤ (b +ℤ c) ≡ a
sub_add a b c = eq_of_parts (a -ℤ b -ℤ c +ℤ (b +ℤ c)) a (omega (arith, +ℤ_parts, -ℤ_parts))

-- A value clamped between `low` and `far - size - low` leaves `low` free on both sides.
clamp_inside :
    (low far size value : ℤ)
    → size +ℤ low +ℤ low ≤ℤ far
    → (low ≤ℤ clamp low (far -ℤ size -ℤ low) value)
      × (clamp low (far -ℤ size -ℤ low) value +ℤ size ≤ℤ far -ℤ low)
clamp_inside low far size value fits =
    let high = far -ℤ size -ℤ low in
    let low_high : low ≤ℤ far -ℤ size -ℤ low = omega (arith, fits, +ℤ_parts, -ℤ_parts) in
    let (l, r) = clamp_bounds low (far -ℤ size -ℤ low) value low_high in
    (l, omega (arith, r, +ℤ_parts, -ℤ_parts))

module _ (pixel : ℕ) (window_width window_height : ℤ) (target preview : Box) where
  abbrev place : Place
  place = position_preview pixel window_width window_height target preview

  -- A preview that is at most as large as the window less 12 pixels on each side stands in the
  -- window with 12 pixels free on each side, wherever the cell is.
  pub position_preview-inside :
      (width preview +ℤ px pixel 12 +ℤ px pixel 12 ≤ℤ window_width)
      → (preview.height +ℤ px pixel 12 +ℤ px pixel 12 ≤ℤ window_height)
      → (px pixel 12 ≤ℤ place.left)
        × (place.left +ℤ width preview ≤ℤ window_width -ℤ px pixel 12)
        × (px pixel 12 ≤ℤ place.top)
        × (place.top +ℤ preview.height ≤ℤ window_height -ℤ px pixel 12)
  unfolding position_preview
  position_preview-inside width_fits height_fits =
      let (left, right) = clamp_inside (px pixel 12) window_width (width preview) _ width_fits in
      let (top, bottom) = clamp_inside (px pixel 12) window_height preview.height _ height_fits in
      (left, right, top, bottom)

  abbrev space_below : ℤ
  space_below = window_height -ℤ bottom target -ℤ px pixel 12

  abbrev space_above : ℤ
  space_above = target.top -ℤ px pixel 12

  abbrev needed : ℤ
  needed = preview.height +ℤ px pixel 10

  -- Where the preview and 10 pixels have room between the cell and the lower edge of the window less
  -- 12 pixels, and the cell ends below the second pixel of the window, the preview stands below the
  -- cell, 10 pixels from it.
  pub position_preview-below :
      (needed ≤ℤ space_below)
      → (px pixel 2 ≤ℤ bottom target)
      → (place.side ≡ below) × (place.top ≡ bottom target +ℤ px pixel 10)
  unfolding position_preview place_below
  position_preview-below room visible =
      rw (side_true needed space_below space_above room, if◌then◌else◌)
        (
          refl,
          clamp_value (px pixel 12) _ (bottom target +ℤ px pixel 10)
              (omega (arith, visible, +ℤ_parts)) (omega (arith, room, +ℤ_parts, -ℤ_parts)),
        )

  -- Where they do not have room there but above the cell, and the cell begins 2 pixels
  -- above the lower edge of the window, the
  -- preview stands above the cell, and 10 pixels are between the two.
  pub position_preview-above :
      (space_below +ℤ pos 1 ≤ℤ needed)
      → (needed ≤ℤ space_above)
      → (target.top +ℤ px pixel 2 ≤ℤ window_height)
      → (place.side ≡ above) × (place.top +ℤ needed ≡ target.top)
  unfolding position_preview place_below
  position_preview-above no_room room visible =
      rw (side_false needed space_below space_above no_room room, if◌then◌else◌)
        (
          refl,
          ap (◌+ℤ needed) (
                clamp_value (px pixel 12) _ (target.top -ℤ preview.height -ℤ px pixel 10)
                  (omega (arith, room, +ℤ_parts, -ℤ_parts))
                  (omega (arith, visible, +ℤ_parts, -ℤ_parts)))
              ∙ sub_add target.top preview.height (px pixel 10),
        )

  -- The arrow of a preview that is 36 pixels wide is at least 18 pixels from both of its ends.
  pub position_preview-anchor :
      (px pixel 36 ≤ℤ width preview)
      → (px pixel 18 ≤ℤ place.anchor) × (place.anchor ≤ℤ width preview -ℤ px pixel 18)
  unfolding position_preview
  position_preview-anchor wide = (
    le-clamp (px pixel 18) (width preview -ℤ px pixel 18) _ (omega (arith, wide, -ℤ_parts)),
    (min_ℤ_le (max_ℤ (px pixel 18) (target.left +ℤ target.half_width -ℤ place.left))
        (width preview -ℤ px pixel 18)).1,
  )
