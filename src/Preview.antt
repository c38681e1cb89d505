-- ===== src/Preview.antt =====
-- The preview of a cell's raw value (webembed/src/app.js): `cellNeedsPreview`, the text of
-- `showCellValuePreview`, and the place that `positionCellValuePreview` finds in the window.
-- Positions are whole numbers of a unit in which the browser's fractions of a pixel, and their
-- halves, are whole; `pixel` is how many units make a pixel.
pub mod Position
pub mod Timer
use rowake.Prelude.{
  ℕ, ◌+◌, ◌*◌, Text, lit, ◌==◌, Bool, true, false, not, ◌||◌, Option, none, some, List, [], ◌∷◌,
  ◌++◌, if◌then◌else◌, ltb, take, length, or_default, includes, nat_eq,
}
use rowake.Prelude.Int.{ℤ, pos, ◌+ℤ◌, ◌-ℤ◌, leb_ℤ, min_ℤ, max_ℤ}
use rowake.Values.{Host}

-- What the browser measures of a cell; `raw` is its entry in `cellRawValues`.
pub record Cell : Type 0 where
  pub text : Text
  pub raw : Option Text
  pub is_json : Bool
  pub is_connected : Bool
  pub overflows : Bool

abbrev raw_text : Cell → Text
raw_text c = or_default c.raw c.text

-- `cellNeedsPreview`
unfoldable pub cell_needs_preview : Cell → Bool
unfolding ◌==◌ includes
cell_needs_preview c =
    not (raw_text c == c.text)
    || ltb 48 (length (raw_text c))
    || includes (10 ∷ []) (raw_text c)
    || c.overflows

abbrev pub preview_limit : ℕ
preview_limit = 12000

pub record Shown : Type 0 where
  pub content : Text
  pub type : Text
  pub meta : Text

module _ (h : Host) (to_locale : ℕ → Text) where
  -- `previewText`: `JSON.stringify(JSON.parse(rawText), null, 2)`, or the raw text after an exception
  unfoldable pub preview_text : Cell → Text
  preview_text c =
      if c.is_json
      then elim (h.parse (raw_text c)) [
        | none ↦ raw_text c
        | some j ↦ or_default (h.stringify_pretty j) (raw_text c)
      ]
      else raw_text c

  -- `showCellValuePreview`, up to its place; `none` where nothing is shown
  unfoldable pub show_cell_value_preview : Cell → Option Shown
  unfolding cell_needs_preview preview_text
  show_cell_value_preview c =
      if not c.is_connected || not (cell_needs_preview c)
      then none
      else (let text = preview_text c in
          let clipped = ltb preview_limit (length text) in
          some (record {
            content = if clipped then take preview_limit text ++ 10 ∷ lit "…" else text;
            type = if c.is_json then lit "Raw JSON value" else lit "Raw value";
            meta =
                to_locale (length (raw_text c))
                ++ lit " chars"
                ++ (if clipped then lit " · preview clipped" else []);
          }))

-- A box in the window, with half its width.
pub record Box : Type 0 where
  pub left : ℤ
  pub top : ℤ
  pub half_width : ℤ
  pub height : ℤ

abbrev pub bottom : Box → ℤ
bottom b = b.top +ℤ b.height

abbrev pub width : Box → ℤ
width b = b.half_width +ℤ b.half_width

pub data Side : Type 0 where
  below above : Side

pub record Place : Type 0 where
  pub side : Side
  pub left : ℤ
  pub top : ℤ
  pub anchor : ℤ

abbrev is_below : Side → Bool
is_below below = true
is_below above = false

-- `Math.min(Math.max(low, value), Math.max(low, high))`
unfoldable pub clamp : ℤ → ℤ → ℤ → ℤ
unfolding min_ℤ max_ℤ
clamp low high value = min_ℤ (max_ℤ low value) (max_ℤ low high)

abbrev pub px : ℕ → ℕ → ℤ
px pixel n = pos (n * pixel)

module _ (pixel : ℕ) (window_width window_height : ℤ) where
  -- `placeBelow`
  unfoldable pub place_below : Box → Box → Bool
  place_below target preview =
      let space_below = window_height -ℤ bottom target -ℤ px pixel 12 in
      let space_above = target.top -ℤ px pixel 12 in
      leb_ℤ (preview.height +ℤ px pixel 10) space_below || leb_ℤ space_above space_below

  abbrev pub preferred_top : Bool → Box → Box → ℤ
  preferred_top true target preview = bottom target +ℤ px pixel 10
  preferred_top false target preview = target.top -ℤ preview.height -ℤ px pixel 10

  -- `positionCellValuePreview`
  unfoldable pub position_preview : Box → Box → Place
  unfolding place_below clamp min_ℤ max_ℤ
  position_preview target preview =
      let is_below_target = place_below target preview in
      let left =
        clamp (px pixel 12) (window_width -ℤ width preview -ℤ px pixel 12)
          (target.left -ℤ px pixel 12) in
      record {
        side = if is_below_target then below else above;
        left = left;
        top =
            clamp (px pixel 12) (window_height -ℤ preview.height -ℤ px pixel 12)
              (preferred_top is_below_target target preview);
        anchor =
            min_ℤ (max_ℤ (px pixel 18) (target.left +ℤ target.half_width -ℤ left))
              (width preview -ℤ px pixel 18);
      }
