-- ===== src/Quote/Html.antt =====
-- What `html` guarantees.
use rowake.Prelude.{
  ℕ, Text, lit, ◌≡◌, refl, ◌≢◌, ap, [], ◌∷◌, ◌++◌, append_assoc, nat_eq, arith, All, All-append,
  if◌then◌else◌, starts_with, Bool-cases, inl, inr,
}
use rowake.Quote.{replace_all, html, shown, amp, quot}

replace_all-append :
    (c : ℕ) (r s t : Text) → replace_all c r (s ++ t) ≡ replace_all c r s ++ replace_all c r t
unfolding replace_all
replace_all-append c r [] t = refl
replace_all-append c r (d ∷ s) t = elim (Bool-cases (nat_eq d c)) [
  | inl e ↦ rw (e, replace_all-append c r s t) (simp append_assoc)
  | inr e ↦ rw (e, replace_all-append c r s t)
]

html-append : (s t : Text) → html (s ++ t) ≡ html s ++ html t
unfolding html
html-append s t = simp replace_all-append

-- What stands for one character.
escape : ℕ → Text
escape c =
    if nat_eq c 38
    then amp
    else if nat_eq c 60
    then lit "&lt;"
    else if nat_eq c 62
    then lit "&gt;"
    else if nat_eq c 34
    then quot
    else if nat_eq c 39
    then lit "&#039;"
    else c ∷ []

html-singleton : (c : ℕ) → html (c ∷ []) ≡ escape c
unfolding html escape replace_all
html-singleton c = ground arith

html-cons : (c : ℕ) (s : Text) → html (c ∷ s) ≡ escape c ++ html s
html-cons c s = rw (← html-singleton c) (html-append (c ∷ []) s)

html-nil : html [] ≡ []
unfolding html replace_all
html-nil = refl

shown-escape : (c : ℕ) (t : Text) → shown 0 (escape c ++ t) ≡ c ∷ shown 0 t
unfolding shown escape starts_with
shown-escape c t = ground arith

shown-html : (s : Text) → shown 0 (html s) ≡ s
shown-html [] = rw html-nil (unfold shown in refl)
shown-html (c ∷ s) = rw (html-cons c s, shown-escape c (html s)) (ap (c ∷◌) (shown-html s))

-- A code unit that neither opens or closes a tag nor ends an attribute's value.
abbrev pub IsPlain : ℕ → Type 0
IsPlain c = (c ≢ 60) × (c ≢ 62) × (c ≢ 34) × (c ≢ 39)

escape-IsPlain : (c : ℕ) → All IsPlain (escape c)
unfolding escape
escape-IsPlain c = ground arith

html-IsPlain : (s : Text) → All IsPlain (html s)
html-IsPlain [] = rw html-nil tt
html-IsPlain (c ∷ s) =
    rw (html-cons c s) (All-append IsPlain (escape c) (html s) (escape-IsPlain c) (html-IsPlain s))

-- Whatever the text, a browser that reads the escaped text shows the text itself, and the escaped
-- text has none of `<`, `>`, `"` and `'`.
pub html_lem : (s : Text) → (shown 0 (html s) ≡ s) × All IsPlain (html s)
html_lem s = (shown-html s, html-IsPlain s)
