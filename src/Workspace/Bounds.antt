-- ===== src/Workspace/Bounds.antt =====
-- What is read back from storage is within the program's limits.
use rowake.Prelude.{
  ℕ, ◌+◌, ◌≤◌, Text, ◌≡◌, refl, inl, inr, Bool, true, false, Option, none, some, List, [], ◌∷◌,
  arith, if◌then◌else◌, length, any, All, length-take-le, Bool-cases, ◌==◌, subst, sym, lit, ==_iff,
  ==_refl,
}
use rowake.Json.{Num, nat, other, Json, get, text_or, str, is_text}
use rowake.Workspace.{
  QueryTab, Workspace, Platform, tab_limit, name_limit, sql_limit, scope_limit, row_limits,
  statement_timeouts, elem_nat, number_in, normalize_tab, normalize_tabs, active_id, has_id,
  number_of, get_in, normalize_object, normalize_parsed, normalize_workspace,
}

pub record TabFits (t : QueryTab) : Type 0 where
  pub name : length t.name ≤ name_limit
  pub sql : length t.sql ≤ sql_limit
  pub scope : length t.connection_scope ≤ scope_limit

-- The active tab is one of the tabs, if there are any.
abbrev pub HasActive : List QueryTab → Text → Type 0
HasActive [] id = id ≡ []
HasActive (t ∷ ts) id = any (λ tab. tab.id == id) (t ∷ ts) ≡ true

pub record IsBounded (w : Workspace) : Type 0 where
  pub tab_count : length w.query_tabs ≤ tab_limit
  pub tabs : All TabFits w.query_tabs
  pub active : HasActive w.query_tabs w.active_query_tab_id
  pub history : length w.query_history ≤ 100
  pub saved : length w.saved_queries ≤ 100
  pub recent : length w.recent_objects ≤ 50
  pub pinned : length w.pinned_objects ≤ 50
  pub snapshots : length w.schema_snapshots ≤ 10
  pub row_limit : elem_nat w.settings.row_limit row_limits ≡ true
  pub timeout : elem_nat w.settings.statement_timeout statement_timeouts ≡ true

normalize_tab-TabFits : (i : ℕ) (tab : Json) → TabFits (normalize_tab i tab)
unfolding normalize_tab
normalize_tab-TabFits i tab = record {
  name = length-take-le name_limit _;
  sql = length-take-le sql_limit _;
  scope = length-take-le scope_limit _;
}

normalize_tabs-TabFits : (i : ℕ) (tabs : List Json) → All TabFits (normalize_tabs i tabs)
unfolding normalize_tabs
normalize_tabs-TabFits i [] = tt
normalize_tabs-TabFits i (tab ∷ tabs) =
    (normalize_tab-TabFits i tab, normalize_tabs-TabFits (i + 1) tabs)

length-normalize_tabs : (i : ℕ) (tabs : List Json) → length (normalize_tabs i tabs) ≡ length tabs
unfolding normalize_tabs
length-normalize_tabs i [] = refl
length-normalize_tabs i (tab ∷ tabs) = omega (arith, length-normalize_tabs (i + 1) tabs)

number_in-allowed :
    (allowed : List ℕ) (fallback : ℕ) (n : Num)
    → elem_nat fallback allowed ≡ true
    → elem_nat (number_in allowed fallback n) allowed ≡ true
unfolding number_in
number_in-allowed allowed fallback (nat n) h = elim (Bool-cases (elem_nat n allowed)) [
  | inl e ↦ rw (e, if◌then◌else◌) e
  | inr e ↦ rw (e, if◌then◌else◌) h
]
number_in-allowed allowed fallback (other t) h = h

pub any_mono {ℓ} :
    {A : Type ℓ} (p q : A → Bool)
    → ((x : A) → p x ≡ true → q x ≡ true)
    → (xs : List A) → any p xs ≡ true
    → any q xs ≡ true
any_mono p q imp [] h = cc
any_mono p q imp (x ∷ xs) h = ground (arith, imp x, any_mono p q imp xs)

-- A stored id that a tab has is a string, and the tab has it as a string.
eq_of_has_id :
    (stored : Option Json) (tab : QueryTab)
    → has_id stored tab ≡ true
    → (tab.id == text_or stored []) ≡ true
unfolding has_id is_text text_or
eq_of_has_id none tab h = cc
eq_of_has_id (some (str [])) tab h = ground (arith, ==_iff [] tab.id, ==_iff tab.id [])
eq_of_has_id (some (str (c ∷ s))) tab h =
    ground (arith, ==_iff (c ∷ s) tab.id, ==_iff tab.id (c ∷ s))
eq_of_has_id (some j) tab h = cc

pub active_id-stored :
    (stored : Option Json) (tabs : List QueryTab)
    → any (has_id stored) tabs ≡ true
    → active_id stored tabs ≡ text_or stored []
unfolding active_id
active_id-stored stored tabs h = rw h

active_id-first :
    (stored : Option Json) (tab : QueryTab) (tabs : List QueryTab)
    → any (has_id stored) (tab ∷ tabs) ≡ false
    → active_id stored (tab ∷ tabs) ≡ tab.id
unfolding active_id
active_id-first stored tab tabs h = rw h

active_id-HasActive :
    (stored : Option Json) (tabs : List QueryTab) → HasActive tabs (active_id stored tabs)
active_id-HasActive stored [] = unfold active_id in refl
active_id-HasActive stored (t ∷ ts) = elim (Bool-cases (any (has_id stored) (t ∷ ts))) [
  | inl e ↦
      subst (HasActive (t ∷ ts)) (sym (active_id-stored stored (t ∷ ts) e))
        (any_mono (has_id stored) _ (eq_of_has_id stored) (t ∷ ts) e)
  | inr e ↦
      subst (HasActive (t ∷ ts)) (sym (active_id-first stored t ts e))
        (ground (arith, ==_refl t.id))
]

module _ (p : Platform) where
  normalize_object-IsBounded : (j : Json) → IsBounded (normalize_object p j)
  unfolding normalize_object
  normalize_object-IsBounded j = record {
    tab_count = rw (length-normalize_tabs 0) (length-take-le tab_limit _);
    tabs = normalize_tabs-TabFits 0 _;
    active = active_id-HasActive _ _;
    history = length-take-le 100 _;
    saved = length-take-le 100 _;
    recent = length-take-le 50 _;
    pinned = length-take-le 50 _;
    snapshots = length-take-le 10 _;
    row_limit = number_in-allowed row_limits 100 (setting (lit "rowLimit")) refl;
    timeout = number_in-allowed statement_timeouts 15 (setting (lit "statementTimeout")) refl;
  }
    where
      setting : Text → Num
      setting k = number_of p (get_in k (get (lit "settings") j))

  normalize_parsed-IsBounded :
      (j : Option Json) (w : Workspace) → normalize_parsed p j ≡ some w → IsBounded w
  unfolding normalize_parsed
  normalize_parsed-IsBounded none w h = cc
  normalize_parsed-IsBounded (some j) w h =
      subst IsBounded (ground arith) (normalize_object-IsBounded j)

  -- Whatever text stands in storage, a workspace that is read from it is within all limits, its
  -- active tab is one of its tabs, and its settings are among the values on offer.
  pub normalize_workspace-IsBounded :
      (raw : Option Text) (w : Workspace) → normalize_workspace p raw ≡ some w → IsBounded w
  unfolding normalize_workspace
  normalize_workspace-IsBounded none w h = cc
  normalize_workspace-IsBounded (some raw) w h = normalize_parsed-IsBounded (p.parse_json raw) w h
