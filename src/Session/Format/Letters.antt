-- ===== src/Session/Format/Letters.antt =====
-- What "Format" keeps of a statement (webembed/src/app.js).
use rowake.Prelude.{
  ℕ, zero, suc, ◌+◌, ◌-◌, ◌≤◌, Text, lit, ◌≡◌, ◌≢◌, refl, sym, ap, ap₂, ◌∙◌, Bool, true, false,
  ◌&&◌, Option, none, some, List, [], ◌∷◌, ◌++◌, append_assoc, if◌then◌else◌, nat_eq, nat_eq-eq,
  leb, all, is_space, length, length-append, take, find, drop, arith, Bool-cases, Option-cases, inl,
  inr, &&-left, &&-right,
}
use rowake.Completion.Context.{capital, match_word, skip_spaces}
use rowake.Session.{
  Session, Env, first_tab, active_query_tab, sync_active_query, edit_active, has_tab,
}
use rowake.Session.Actions.{edit_document}
use rowake.Workspace.{QueryTab, sql_limit}
use rowake.Session.Format.{
  format_query, match_spaces, match_words, match_clause, replace_clause, formatted,
}

-- A text without its white space, and in capital letters.
abbrev pub letters : Text → Text
letters [] = []
letters (c ∷ s) = if is_space c then letters s else capital c ∷ letters s

abbrev is_capital : ℕ → Bool
is_capital c = leb b'A' c && leb c b'Z'

-- The text is `rest` behind something with these letters.
abbrev Leaves : Text → Text → Text → Type 0
Leaves ks s rest = (p : Text) × (s ≡ p ++ rest) × (letters p ≡ ks)

letters-append : (s t : Text) → letters (s ++ t) ≡ letters s ++ letters t
letters-append [] t = refl
letters-append (c ∷ s) t = elim (Bool-cases (is_space c)) [
  | inl e ↦ rw (e, if◌then◌else◌) (letters-append s t)
  | inr e ↦ rw (e, if◌then◌else◌) (ap (capital c ∷◌) (letters-append s t))
]

Leaves-trans : (ks ls s t u : Text) → Leaves ks s t → Leaves ls t u → Leaves (ks ++ ls) s u
Leaves-trans ks ls s t u (p, e, h) (q, f, k) = (
  p ++ q,
  e ∙ ap (p ++◌) f ∙ sym (append_assoc p q u),
  letters-append p q ∙ ap (◌++ letters q) h ∙ ap (ks ++◌) k,
)

none-ne-some : {t : Text} → none ≡ some t → ⊥
none-ne-some h = cc

bind-eq-some :
    (o : Option Text) (f : Text → Option Text) (rest : Text)
    → elim o as (λ _. Option Text) [ none ↦ none | some t ↦ f t ] ≡ some rest
    → (t : Text) × (o ≡ some t) × (f t ≡ some rest)
bind-eq-some none f rest h = absurd (none-ne-some h)
bind-eq-some (some t) f rest h = (t, refl, h)

skip_spaces-Leaves : (s : Text) → Leaves [] s (skip_spaces s)
unfolding skip_spaces
skip_spaces-Leaves [] = ([], refl, refl)
skip_spaces-Leaves (c ∷ s) = elim (Bool-cases (is_space c)) [
  | inl e ↦
      let (p, f, h) = skip_spaces-Leaves s in rw (e, if◌then◌else◌) (c ∷ p, ap (c ∷◌) f, rw e h)
  | inr e ↦ rw (e, if◌then◌else◌) ([], refl, refl)
]

letter_bounds : (c k : ℕ) → is_capital k ≡ true → nat_eq (capital c) k ≡ true → (65 ≤ c) × (c ≤ 122)
unfolding capital
letter_bounds c k h e = ground arith

is_space-letter : (c : ℕ) → 65 ≤ c → c ≤ 122 → is_space c ≡ false
unfolding is_space
is_space-letter c h k = ground arith

match_word-Leaves :
    (ks s rest : Text) → all is_capital ks ≡ true → match_word ks s ≡ some rest → Leaves ks s rest
unfolding match_word
match_word-Leaves [] s rest a e = ([], (cc), refl)
match_word-Leaves (k ∷ ks) [] rest a e = absurd (cc)
match_word-Leaves (k ∷ ks) (c ∷ s) rest a e = elim (Bool-cases (nat_eq (capital c) k)) [
  | inl t ↦
      let (p, f, h) =
        match_word-Leaves ks s rest (&&-right (is_capital k) (all is_capital ks) a)
          (rw (t, if◌then◌else◌) at e) in
      let bounds = letter_bounds c k (&&-left (is_capital k) (all is_capital ks) a) t in
      (
        c ∷ p,
        ap (c ∷◌) f,
        rw (is_space-letter c bounds.0 bounds.1) (ap₂ (λ d l. d ∷ l) (nat_eq-eq (capital c) k t) h),
      )
  | inr t ↦ absurd (none-ne-some (rw (t, if◌then◌else◌) at e))
]

match_spaces-Leaves : (s rest : Text) → match_spaces s ≡ some rest → Leaves [] s rest
unfolding match_spaces
match_spaces-Leaves [] rest e = absurd (cc)
match_spaces-Leaves (c ∷ s) rest e = elim (Bool-cases (is_space c)) [
  | inl t ↦
      let (p, f, h) = skip_spaces-Leaves s in
      let found : some (skip_spaces s) ≡ some rest = rw (t, if◌then◌else◌) at e in
      let same : skip_spaces s ≡ rest = cc in (c ∷ p, ap (c ∷◌) (f ∙ ap (p ++◌) same), rw t h)
  | inr t ↦ absurd (none-ne-some (rw (t, if◌then◌else◌) at e))
]

-- the letters of keywords
abbrev flat : List Text → Text
flat [] = []
flat (w ∷ ws) = w ++ flat ws

abbrev are_capital : List Text → Bool
are_capital ws = all (λ w. all is_capital w) ws

match_words-Leaves :
    (ws : List Text) (s rest : Text)
    → are_capital ws ≡ true
    → match_words ws s ≡ some rest
    → Leaves (flat ws) s rest
unfolding match_words
match_words-Leaves [] s rest a e = ([], (cc), refl)
match_words-Leaves (w ∷ ws) s rest a e =
    let (t, m, e') = bind-eq-some (match_word w s) _ rest e in
    let (u, n, e'') = bind-eq-some (match_spaces t) _ rest e' in
    let a' : are_capital ws ≡ true = &&-right (all is_capital w) (are_capital ws) a in
    Leaves-trans w (flat ws) s t rest
      (match_word-Leaves w s t (&&-left (all is_capital w) (are_capital ws) a) m)
      (Leaves-trans [] (flat ws) t u rest (match_spaces-Leaves t u n)
        (match_words-Leaves ws u rest a' e''))

match_clause-Leaves :
    (ws : List Text) (s rest : Text)
    → are_capital ws ≡ true
    → match_clause ws s ≡ some rest
    → Leaves (flat ws) s rest
unfolding match_clause
match_clause-Leaves ws s rest a e =
    let (t, m, e') = bind-eq-some (match_spaces s) _ rest e in
    Leaves-trans [] (flat ws) s t rest (match_spaces-Leaves s t m)
      (match_words-Leaves ws t rest a e')

add-sub : (a b : ℕ) → a + b - b ≡ a
add-sub a b = omega arith

drop-length : (p rest : Text) → drop (length p) (p ++ rest) ≡ rest
drop-length [] rest = refl
drop-length (c ∷ p) rest = drop-length p rest

-- What a match leaves is found again by the numbers of characters.
drop-Leaves :
    (ks : Text) (c : ℕ) (s rest : Text)
    → Leaves ks (c ∷ s) rest
    → ks ≢ []
    → (drop (length s - length rest) s ≡ rest) × (letters (c ∷ s) ≡ ks ++ letters rest)
drop-Leaves ks c s rest ([], e, h) ne = absurd (ne (sym h))
drop-Leaves ks c s rest (d ∷ p, e, h) ne =
    let tail : s ≡ p ++ rest = cc in
    (
      ap₂ drop
            (ap (λ (n : ℕ). n - length rest) (ap length tail ∙ length-append p rest)
              ∙ add-sub (length p) (length rest))
            tail
          ∙ drop-length p rest,
      ap letters e ∙ letters-append (d ∷ p) rest ∙ ap (◌++ letters rest) h,
    )

module _ (words : List Text) (text : Text) (capital_words : are_capital words ≡ true)
    (same : letters text ≡ flat words) (some_letter : flat words ≢ []) where
  replace_clause-letters :
      (skip : ℕ) (s : Text) → letters (replace_clause words text skip s) ≡ letters (drop skip s)
  unfolding replace_clause
  replace_clause-letters zero [] = refl
  replace_clause-letters (suc skip) [] = refl
  replace_clause-letters (suc skip) (c ∷ s) = replace_clause-letters skip s
  replace_clause-letters zero (c ∷ s) = elim (Option-cases (match_clause words (c ∷ s))) [
    | inl e ↦
        rw (e, replace_clause)
          (ap (λ t. if is_space c then t else capital c ∷ t) (replace_clause-letters 0 s))
    | inr (rest, e) ↦
        let (d, l) =
          drop-Leaves (flat words) c s rest (match_clause-Leaves words (c ∷ s) rest capital_words e)
            some_letter in
        rw (e, replace_clause)
          (letters-append text _
            ∙ ap₂ (λ x y. x ++ y) same
                (replace_clause-letters (length s - length rest) s ∙ ap letters d)
            ∙ sym l)
  ]

formatted-letters : (sql : Text) → letters (formatted sql) ≡ letters sql
unfolding formatted is_space capital
formatted-letters sql =
    let from = replace_clause (lit "FROM" ∷ []) (10 ∷ lit "FROM ") 0 sql in
    let filtered = replace_clause (lit "WHERE" ∷ []) (10 ∷ lit "WHERE ") 0 from in
    let ordered = replace_clause (lit "ORDER" ∷ lit "BY" ∷ []) (10 ∷ lit "ORDER BY ") 0 filtered in
    replace_clause-letters (lit "LIMIT" ∷ []) (10 ∷ lit "LIMIT ") refl refl (λ h. cc) 0 ordered
    ∙ replace_clause-letters (lit "ORDER" ∷ lit "BY" ∷ []) (10 ∷ lit "ORDER BY ") refl refl
        (λ h. cc) 0 filtered
    ∙ replace_clause-letters (lit "WHERE" ∷ []) (10 ∷ lit "WHERE ") refl refl (λ h. cc) 0 from
    ∙ replace_clause-letters (lit "FROM" ∷ []) (10 ∷ lit "FROM ") refl refl (λ h. cc) 0 sql

module _ (e : Env) where
  first_tab-editor : (tabs : List QueryTab) (s : Session) → (first_tab e tabs s).1.editor ≡ s.editor
  unfolding first_tab
  first_tab-editor [] s = refl
  first_tab-editor (t ∷ tabs) s = refl

  active_query_tab-editor : (s : Session) → (active_query_tab e s).1.editor ≡ s.editor
  unfolding active_query_tab
  active_query_tab-editor s =
      elim (Option-cases (find (has_tab s.active_query_tab_id) s.query_tabs)) [
        | inl h ↦ rw (h, active_query_tab) (first_tab-editor s.query_tabs s)
        | inr (t, h) ↦ rw (h, active_query_tab)
      ]

  edit_document-editor :
      (doc old : Text) (s : Session)
      → s.editor ≡ some old
      → ((edit_document e doc s).editor ≡ some doc)
        × ((edit_document e doc s).query_sql ≡ take sql_limit doc)
  unfolding edit_document sync_active_query edit_active
  edit_document-editor doc old s h = (
    rw (h, edit_document)
        (active_query_tab-editor (record s { editor = some doc; query_sql = doc })),
    rw (h, edit_document),
  )

-- "Format" leaves the editor with a document that differs from the one before in white space and
-- in small and capital letters only, and that document, up to the limit, becomes the SQL to be run.
pub format_query-letters :
    (e : Env) (s : Session) (doc : Text)
    → s.editor ≡ some doc
    → ((format_query e s).editor ≡ some (formatted doc))
      × ((format_query e s).query_sql ≡ take sql_limit (formatted doc))
      × (letters (formatted doc) ≡ letters doc)
unfolding format_query
format_query-letters e s doc open_editor =
    let (editor, sql) = edit_document-editor e (formatted doc) doc s open_editor in
    (
      rw (open_editor, format_query) editor,
      rw (open_editor, format_query) sql,
      formatted-letters doc,
    )
