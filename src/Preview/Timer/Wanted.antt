-- ===== src/Preview/Timer/Wanted.antt =====
-- Which cell's preview is shown (webembed/src/app.js).
use rowake.Prelude.{
  ℕ, ◌≤◌, Text, ◌≡◌, refl, sym, ap, ◌∙◌, subst, Bool, true, false, not, ◌&&◌, Option, none, some,
  List, [], ◌∷◌, if◌then◌else◌, nat_eq-eq, filter, find, length, length-filter-le, All, arith,
  Bool-cases, Option-cases, inl, inr,
}
use rowake.Values.{Host}
use rowake.Preview.{Cell, Shown, show_cell_value_preview}
use rowake.Preview.Timer.{
  Timed, has_timer, hide, is_target, queue, display, without, Event, over, focus_in, run_timer,
  hide_if, queue_cell, hides, wanted, handle, handle_all,
}

-- The timer that waits, if any, is the last one that was set and is for the cell that is wanted, and
-- so is the preview that is shown.
abbrev IsTimed : Option ℕ → Timed → Type 0
IsTimed w s =
    All (λ (p : ℕ × ℕ). (p.0 ≡ s.timer) × (some p.1 ≡ w)) s.wait
    × (length s.wait ≤ 1)
    × (s.hidden ≡ false → s.target ≡ w)

cleared :
    (i : ℕ) (w : Option ℕ) (ps : List (ℕ × ℕ))
    → All (λ (p : ℕ × ℕ). (p.0 ≡ i) × (some p.1 ≡ w)) ps
    → filter (λ p. not (has_timer i p)) ps ≡ []
cleared i w [] a = refl
cleared i w (p ∷ ps) a = ground (arith, cleared i w ps a.1, a.0.0)

All-filter :
    (P : ℕ × ℕ → Type 0) (f : ℕ × ℕ → Bool) (ps : List (ℕ × ℕ)) → All P ps → All P (filter f ps)
All-filter P f [] a = tt
All-filter P f (p ∷ ps) a = elim (Bool-cases (f p)) [
  | inl e ↦ rw (e, if◌then◌else◌) (a.0, All-filter P f ps a.1)
  | inr e ↦ rw (e, if◌then◌else◌) (All-filter P f ps a.1)
]

find-All :
    (P : ℕ × ℕ → Type 0) (f : ℕ × ℕ → Bool) (ps : List (ℕ × ℕ)) (p : ℕ × ℕ)
    → All P ps
    → find f ps ≡ some p
    → P p
find-All P f [] p a e = absurd (cc)
find-All P f (q ∷ ps) p a e = elim (Bool-cases (f q)) [
  | inl t ↦
      let found : some q ≡ some p = rw (t, if◌then◌else◌) at e in
      let same : q ≡ p = cc in subst P same a.0
  | inr t ↦ find-All P f ps p a.1 (rw (t, if◌then◌else◌) at e)
]

hide-IsTimed : (w w' : Option ℕ) (s : Timed) → IsTimed w s → IsTimed w' (hide s)
unfolding hide
hide-IsTimed w w' s t =
    rw (cleared s.timer w s.wait t.0) (tt, omega arith, λ (h : true ≡ false). absurd (cc))

is_target-eq : (t : ℕ) (o : Option ℕ) → is_target t o ≡ true → o ≡ some t
is_target-eq t none h = cc
is_target-eq t (some u) h = ap (λ (v : ℕ). some v) (sym (nat_eq-eq t u h))

of_shown :
    (s : Timed) (t : ℕ)
    → is_target t s.target && not s.hidden ≡ true
    → (s.target ≡ some t) × (s.hidden ≡ false)
of_shown s t h = (is_target-eq t s.target (ground (arith, h)), ground (arith, h))

queue-IsTimed : (w : Option ℕ) (t : ℕ) (s : Timed) → IsTimed w s → IsTimed (some t) (queue t s)
unfolding queue
queue-IsTimed w t s timed = elim (Bool-cases (is_target t s.target && not s.hidden)) [
  | inl e ↦
      rw (e, if◌then◌else◌)
        (let (here, up) = of_shown s t e in
          subst (λ x. IsTimed x s) (sym (timed.2 up) ∙ here) timed)
  | inr e ↦
      rw (e, if◌then◌else◌)
        (rw (cleared s.timer w s.wait timed.0)
          (((refl, refl), tt), omega arith, λ (h : true ≡ false). absurd (cc)))
]

queue_cell-IsTimed :
    (w : Option ℕ) (t : ℕ) (s : Timed) → IsTimed w s → IsTimed (some t) (queue_cell (some t) s)
queue_cell-IsTimed w t s timed = queue-IsTimed w t s timed

display-IsTimed :
    (w : Option ℕ) (t : ℕ) (shown : Option Shown) (s : Timed)
    → some t ≡ w
    → IsTimed w s
    → IsTimed w (display t shown s)
display-IsTimed w t none s e timed = timed
display-IsTimed w t (some shown) s e timed = (timed.0, timed.1, λ h. e)

without-IsTimed : (w : Option ℕ) (i : ℕ) (s : Timed) → IsTimed w s → IsTimed w (without i s)
without-IsTimed w i s timed = (
  All-filter _ (λ p. not (has_timer i p)) s.wait timed.0,
  omega (arith, length-filter-le (λ p. not (has_timer i p)) s.wait, timed.1),
  timed.2,
)

hide_if-IsTimed :
    (b : Bool) (w : Option ℕ) (s : Timed)
    → IsTimed w s
    → IsTimed (if b then none else w) (hide_if b s)
hide_if-IsTimed true w s timed = hide-IsTimed w none s timed
hide_if-IsTimed false w s timed = timed

All-cells :
    (i : ℕ) (w : Option ℕ) (ps : List (ℕ × ℕ))
    → All (λ (p : ℕ × ℕ). (p.0 ≡ i) × (some p.1 ≡ w)) ps
    → All (λ (p : ℕ × ℕ). some p.1 ≡ w) ps
All-cells i w [] a = tt
All-cells i w (p ∷ ps) a = (a.0.1, All-cells i w ps a.1)

hidden-IsTimed : (s : Timed) → s.hidden ≡ true → s.wait ≡ [] → IsTimed none s
hidden-IsTimed s hidden empty = (rw empty tt, rw empty (omega arith), λ up. absurd (cc))

module _ (h : Host) (to_locale : ℕ → Text) where
  run_timer-IsTimed :
      (w : Option ℕ) (i : ℕ) (cells : ℕ → Cell) (s : Timed)
      → IsTimed w s
      → IsTimed w (handle h to_locale (run_timer i cells) s)
  unfolding handle
  run_timer-IsTimed w i cells s timed = elim (Option-cases (find (has_timer i) s.wait)) [
    | inl e ↦ rw (e, handle) timed
    | inr (p, e) ↦
        rw (e, handle)
          (display-IsTimed w p.1 (show_cell_value_preview h to_locale (cells p.1)) (without i s)
            (find-All _ (has_timer i) s.wait p timed.0 e).1 (without-IsTimed w i s timed))
  ]

  handle_from-IsTimed :
      (events : List Event) (w : Option ℕ) (s : Timed)
      → IsTimed w s
      → IsTimed (wanted w events) (handle_all h to_locale events s)
  unfolding handle_all wanted handle
  handle_from-IsTimed [] w s t = t
  handle_from-IsTimed (over (some c) ∷ events) w s t =
      handle_from-IsTimed events (some c) (queue c s) (queue-IsTimed w c s t)
  handle_from-IsTimed (focus_in (some c) ∷ events) w s t =
      handle_from-IsTimed events (some c) (queue c s) (queue-IsTimed w c s t)
  handle_from-IsTimed (run_timer i cells ∷ events) w s t =
      handle_from-IsTimed events w (handle h to_locale (run_timer i cells) s)
        (run_timer-IsTimed w i cells s t)
  handle_from-IsTimed (over none ∷ events) w s t = handle_from-IsTimed events w s t
  handle_from-IsTimed (focus_in none ∷ events) w s t = handle_from-IsTimed events w s t
  handle_from-IsTimed (event ∷ events) w s t =
      handle_from-IsTimed events (if hides event then none else w) (hide_if (hides event) s)
        (hide_if-IsTimed (hides event) w s t)

  -- Where the preview is hidden and no timer waits at first: whatever happens then, a preview that
  -- is shown is that of the cell that was pointed at or got the focus last, and nothing has happened
  -- since that hides it; at most one timer waits, and it is for that cell.
  pub handle_all-wanted :
      (events : List Event) (s : Timed)
      → s.hidden ≡ true
      → s.wait ≡ []
      → let after = handle_all h to_locale events s in
        (after.hidden ≡ false → after.target ≡ wanted none events)
        × (length after.wait ≤ 1)
        × All (λ (p : ℕ × ℕ). some p.1 ≡ wanted none events) after.wait
  handle_all-wanted events s hidden empty =
      let timed = handle_from-IsTimed events none s (hidden-IsTimed s hidden empty) in
      (timed.2, timed.1, All-cells _ (wanted none events) _ timed.0)
