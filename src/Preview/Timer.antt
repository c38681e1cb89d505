-- ===== src/Preview/Timer.antt =====
-- When the preview of a cell is shown and hidden (webembed/src/app.js): `queueCellValuePreview`,
-- `hideCellValuePreview`, `showCellValuePreview` and the event listeners that call them. A cell is a
-- number; `wait` holds the timers that have not run, each with the cell that it is for.
pub mod Wanted
use rowake.Prelude.{
  ℕ, zero, suc, ◌≤◌, Text, ◌≡◌, refl, sym, ap, ◌∙◌, Bool, true, false, not, ◌&&◌, ◌||◌, Option,
  none, some, List, [], ◌∷◌, if◌then◌else◌, nat_eq, nat_eq-eq, nat_eq_refl, filter, find, length,
  All, arith, Bool-cases, Option-cases, inl, inr, either_branch,
}
use rowake.Values.{Host}
use rowake.Preview.{Cell, Shown, show_cell_value_preview}

-- `timer` is `cellPreviewTimer`, `target` is `cellPreviewTarget`; `next` is the number that the
-- browser gives to the next timer.
pub record Timed : Type 0 where
  pub target : Option ℕ
  pub hidden : Bool
  pub content : Option Shown
  pub timer : ℕ
  pub wait : List (ℕ × ℕ)
  pub next : ℕ

abbrev pub has_timer : ℕ → ℕ × ℕ → Bool
has_timer i p = nat_eq p.0 i

-- `hideCellValuePreview`
unfoldable pub hide : Timed → Timed
hide s = record s {
  wait = filter (λ p. not (has_timer s.timer p)) s.wait;
  timer = 0;
  target = none;
  hidden = true;
}

abbrev pub is_target : ℕ → Option ℕ → Bool
is_target t none = false
is_target t (some u) = nat_eq t u

-- `queueCellValuePreview`
unfoldable pub queue : ℕ → Timed → Timed
unfolding hide
queue t s =
    if is_target t s.target && not s.hidden
    then s
    else (let hidden_now = hide s in
        record hidden_now {
          timer = s.next;
          wait = (s.next, t) ∷ hidden_now.wait;
          next = suc s.next;
        })

abbrev pub display : ℕ → Option Shown → Timed → Timed
display t none s = s
display t (some shown) s = record s { target = some t; hidden = false; content = some shown }

abbrev pub without : ℕ → Timed → Timed
without i s = record s { wait = filter (λ p. not (has_timer i p)) s.wait }

-- What the browser reports: a pointer over a cell or elsewhere, and so on. The Booleans are the
-- tests in the listeners.
pub data Event : Type 0 where
  -- the cell that the pointer is over, or that has the focus
  over focus_in : Option ℕ → Event
  -- whether it leaves a cell, stays in that cell, or goes to the preview
  out : Bool → Bool → Bool → Event
  -- whether the pointer goes from the preview to a cell
  leave_preview : Bool → Event
  -- whether this happens inside the preview
  down scroll : Bool → Event
  escape resize : Event
  -- whether the focus leaves a cell
  focus_out : Bool → Event
  -- the timer with this number runs, and the cells are as they are then
  run_timer : ℕ → (ℕ → Cell) → Event

abbrev pub hide_if : Bool → Timed → Timed
hide_if true s = hide s
hide_if false s = s

abbrev pub queue_cell : Option ℕ → Timed → Timed
queue_cell none s = s
queue_cell (some t) s = queue t s

-- Whether the event hides the preview.
abbrev pub hides : Event → Bool
hides (out from inside to_preview) = from && (not inside && not to_preview)
hides (leave_preview to_cell) = not to_cell
hides (down inside) = not inside
hides (scroll inside) = not inside
hides escape = true
hides resize = true
hides (focus_out from) = from
hides event = false

-- The cell that was pointed at or got the focus last, if no event has hidden the preview since.
unfoldable pub wanted : Option ℕ → List Event → Option ℕ
wanted w [] = w
wanted w (over (some t) ∷ events) = wanted (some t) events
wanted w (focus_in (some t) ∷ events) = wanted (some t) events
wanted w (event ∷ events) = wanted (if hides event then none else w) events

module _ (h : Host) (to_locale : ℕ → Text) where
  unfoldable pub handle : Event → Timed → Timed
  unfolding hide queue show_cell_value_preview
  handle (over cell) s = queue_cell cell s
  handle (focus_in cell) s = queue_cell cell s
  handle (run_timer i cells) s = elim (find (has_timer i) s.wait) [
    | none ↦ s
    | some (j, t) ↦ display t (show_cell_value_preview h to_locale (cells t)) (without i s)
  ]
  handle event s = hide_if (hides event) s

  unfoldable pub handle_all : List Event → Timed → Timed
  unfolding handle
  handle_all [] s = s
  handle_all (event ∷ events) s = handle_all events (handle event s)
