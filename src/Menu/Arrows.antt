-- ===== src/Menu/Arrows.antt =====
-- The arrow keys on the options of the connection menu.
use native.Mathlib.Nat.{mod-lt, mod-add-mod, add-mod_right}
use rowake.Prelude.{
  ℕ, zero, suc, ◌+◌, ◌-◌, ◌%◌, ◌≤◌, ◌<◌, Text, ◌≡◌, refl, sym, ap, ◌∙◌, ◌≡⟨◌⟩◌, ◌∎, Bool, true,
  false, some, List, [], ◌∷◌, if◌then◌else◌, nat_eq, get_elem?, length, arith,
}
use rowake.Menu.{Item, option, Menu}
use rowake.Menu.Events.{
  arrow_down, arrow_up, shown_places, index_of, next_index, focus_place, moved, key_on_option,
}

-- `true` is "down". Each key goes to the option that has the focus then.
unfoldable pub press_arrows : (Text → Text) → List Bool → Menu → Menu
press_arrows lower [] m = m
press_arrows lower (down ∷ keys) m = elim m.focus [
  | option i ↦
      press_arrows lower keys (key_on_option lower (if down then arrow_down else arrow_up) i m)
  | _ ↦ m
]

unfoldable pub count_of : Bool → List Bool → ℕ
count_of down [] = 0
count_of true (true ∷ keys) = suc (count_of true keys)
count_of true (false ∷ keys) = count_of true keys
count_of false (true ∷ keys) = count_of false keys
count_of false (false ∷ keys) = suc (count_of false keys)

shown_places-ge :
    (i : ℕ) (items : List Item) (k p : ℕ) → get_elem? (shown_places i items) k ≡ some p → i ≤ p
unfolding shown_places
shown_places-ge i [] k p h = absurd (cc)
shown_places-ge i (item ∷ items) zero p h = ground (arith, shown_places-ge (suc i) items 0 p)
shown_places-ge i (item ∷ items) (suc k) p h =
    ground (arith, shown_places-ge (suc i) items k p, shown_places-ge (suc i) items (suc k) p)

-- The places differ, so `indexOf` finds an option where it stands.
index_of-shown_places :
    (i : ℕ) (items : List Item) (k p : ℕ)
    → get_elem? (shown_places i items) k ≡ some p
    → index_of p (shown_places i items) ≡ some k
unfolding shown_places
index_of-shown_places i [] k p h = cc
index_of-shown_places i (item ∷ items) zero p h =
    ground (arith, index_of-shown_places (suc i) items 0 p)
index_of-shown_places i (item ∷ items) (suc k) p h = ground (
  arith,
  index_of-shown_places (suc i) items k p,
  index_of-shown_places (suc i) items (suc k) p,
  shown_places-ge (suc i) items k p,
)

get_elem?-lt {ℓ} :
    {A : Type ℓ} (xs : List A) (k : ℕ) {a : A} → get_elem? xs k ≡ some a → k < length xs
get_elem?-lt [] k h = cc
get_elem?-lt (x ∷ xs) zero h = omega arith
get_elem?-lt (x ∷ xs) (suc k) h = omega (arith, get_elem?-lt xs k h)

get_elem?-of_lt {ℓ} :
    {A : Type ℓ} (xs : List A) (k : ℕ) → k < length xs → (a : A) × (get_elem? xs k ≡ some a)
get_elem?-of_lt [] k h = elim h [ ]
get_elem?-of_lt (x ∷ xs) zero h = (x, refl)
get_elem?-of_lt (x ∷ xs) (suc k) h = get_elem?-of_lt xs k (omega arith)

mod_down :
    (n k d i u : ℕ) → 0 < n → (i + u) % n ≡ ((k + 1) % n + d) % n → (i + u) % n ≡ (k + suc d) % n
mod_down n k d i u pos h = h ∙ mod-add-mod (k + 1) n d ∙ ap (λ (t : ℕ). t % n) (omega arith)

mod_up :
    (n k d i u : ℕ)
    → 0 < n
    → (i + u) % n ≡ ((k + n - 1) % n + d) % n
    → (i + suc u) % n ≡ (k + d) % n
mod_up n k d i u pos h =
    (i + suc u) % n
    ≡⟨ ap (λ (t : ℕ). t % n) (omega arith) ⟩ (i + u + 1) % n
    ≡⟨ sym (mod-add-mod (i + u) n 1) ⟩ ((i + u) % n + 1) % n
    ≡⟨ ap (λ (t : ℕ). (t + 1) % n) h ⟩ (((k + n - 1) % n + d) % n + 1) % n
    ≡⟨ mod-add-mod ((k + n - 1) % n + d) n 1 ⟩ ((k + n - 1) % n + d + 1) % n
    ≡⟨ ap (λ (t : ℕ). t % n) (omega arith) ⟩ ((k + n - 1) % n + (d + 1)) % n
    ≡⟨ mod-add-mod (k + n - 1) n (d + 1) ⟩ (k + n - 1 + (d + 1)) % n
    ≡⟨ ap (λ (t : ℕ). t % n) (omega arith) ⟩ (k + d + n) % n
    ≡⟨ add-mod_right (k + d) n ⟩ (k + d) % n ∎

-- The number that an arrow key goes to, among `n` options that are shown.
next_of : Bool → ℕ → ℕ → ℕ
next_of true n k = (k + 1) % n
next_of false n k = (k + n - 1) % n

next_of-lt : (down : Bool) (n k : ℕ) → 0 < n → next_of down n k < n
unfolding next_of
next_of-lt true n k pos = mod-lt (k + 1) pos
next_of-lt false n k pos = mod-lt (k + n - 1) pos

around_step :
    (down : Bool) (n k i : ℕ) (keys : List Bool)
    → 0 < n
    → (i + count_of false keys) % n ≡ (next_of down n k + count_of true keys) % n
    → (i + count_of false (down ∷ keys)) % n ≡ (k + count_of true (down ∷ keys)) % n
unfolding count_of next_of
around_step true n k i keys pos h = mod_down n k _ i _ pos h
around_step false n k i keys pos h = mod_up n k _ i _ pos h

nat_eq-of_lt : (k n : ℕ) → k < n → nat_eq n 0 ≡ false
nat_eq-of_lt k n h = ground arith

module _ (lower : Text → Text) where
  -- One arrow key goes to the next option that is shown, or to the one before.
  key_on_option-focus :
      (down : Bool) (m : Menu) (place k p : ℕ)
      → get_elem? (shown_places 0 m.items) k ≡ some place
      → get_elem? (shown_places 0 m.items) (next_of down (length (shown_places 0 m.items)) k)
        ≡ some p
      → key_on_option lower (if down then arrow_down else arrow_up) place m
        ≡ record m { focus = option p }
  unfolding key_on_option next_of next_index focus_place
  key_on_option-focus true m place k p at next =
      rw (nat_eq-of_lt k _ (get_elem?-lt (shown_places 0 m.items) k at), if◌then◌else◌)
        (rw (index_of-shown_places 0 m.items k place at, moved) (rw (next, focus_place)))
  key_on_option-focus false m place k p at next =
      rw (nat_eq-of_lt k _ (get_elem?-lt (shown_places 0 m.items) k at), if◌then◌else◌)
        (rw (index_of-shown_places 0 m.items k place at, moved) (rw (next, focus_place)))

  press_arrows-step :
      (down : Bool) (keys : List Bool) (m : Menu) (place : ℕ)
      → m.focus ≡ option place
      → press_arrows lower (down ∷ keys) m
        ≡ press_arrows lower keys
            (key_on_option lower (if down then arrow_down else arrow_up) place m)
  unfolding press_arrows
  press_arrows-step down keys m place here = λ j. elim (here j) [
    | option i ↦
        press_arrows lower keys (key_on_option lower (if down then arrow_down else arrow_up) i m)
    | _ ↦ m
  ]

  -- From a shown option that has the focus, any sequence of "down" and "up" leads to a shown option,
  -- and changes nothing else. Counted around the options that are shown, it is as many behind the
  -- first one as "down" was pressed, and as many before it as "up" was pressed.
  pub press_arrows-cycle :
      (keys : List Bool) (m : Menu) (place k : ℕ)
      → get_elem? (shown_places 0 m.items) k ≡ some place
      → m.focus ≡ option place
      → (i p : ℕ) × (get_elem? (shown_places 0 m.items) i ≡ some p)
        × (press_arrows lower keys m ≡ record m { focus = option p })
        × ((i + count_of false keys) % length (shown_places 0 m.items)
            ≡ (k + count_of true keys) % length (shown_places 0 m.items))
  unfolding press_arrows count_of
  press_arrows-cycle [] m place k at here = (k, place, at, λ j. record m { focus = here j }, refl)
  press_arrows-cycle (down ∷ keys) m place k at here =
      let places = shown_places 0 m.items in
      let pos : 0 < length places = omega (arith, get_elem?-lt places k at) in
      let (p, next) =
        get_elem?-of_lt places (next_of down (length places) k)
          (next_of-lt down (length places) k pos) in
      let (i, q, at', same, around) =
        press_arrows-cycle keys (record m { focus = option p }) p (next_of down (length places) k)
          next refl in
      (
        i,
        q,
        at',
        press_arrows-step down keys m place here
            ∙ ap (press_arrows lower keys) (key_on_option-focus down m place k p at next)
            ∙ same,
        around_step down (length places) k i keys pos around,
      )
