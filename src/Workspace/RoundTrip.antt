-- ===== src/Workspace/RoundTrip.antt =====
-- What is persisted and read back.
use rowake.Prelude.{
  ℕ, zero, suc, ◌+◌, ◌≤◌, Text, ◌≡◌, refl, ◌∙◌, ap, ap₂, true, false, Option, some, List, [], ◌∷◌,
  map, arith, if◌then◌else◌, take, take_all, length, length-map, any, All, All-take, is_empty, ◌==◌,
  ==_iff,
}
use rowake.Json.{
  nat, Json, str, arr, get, array_or_empty, text_or, of_list, to_list-of_list, is_text,
}
use rowake.Workspace.{
  QueryTab, Workspace, Platform, tab_limit, name_limit, sql_limit, scope_limit, row_limits,
  statement_timeouts, elem_nat, number_in, normalize_tab, normalize_tabs, active_id, has_id,
  normalize_object, normalize_workspace, tab_json, workspace_json,
}
use rowake.Workspace.Bounds.{TabFits, HasActive, IsBounded, any_mono, active_id-stored}

-- The tab can be told apart from an unnamed one: neither text is empty.
pub record IsNamed (t : QueryTab) : Type 0 where
  pub id : is_empty t.id ≡ false
  pub name : is_empty t.name ≡ false

take-text_or :
    (n : ℕ) (s fallback : Text)
    → length s ≤ n
    → is_empty s ≡ false
    → take n (text_or (some (str s)) fallback) ≡ s
unfolding text_or
take-text_or n [] fallback h e = cc
take-text_or n (c ∷ s) fallback h e = take_all n (c ∷ s) h

text_or_nil : (s : Text) → text_or (some (str s)) [] ≡ s
unfolding text_or
text_or_nil [] = refl
text_or_nil (c ∷ s) = refl

text_or_str : (s fallback : Text) → is_empty s ≡ false → text_or (some (str s)) fallback ≡ s
unfolding text_or
text_or_str [] fallback e = cc
text_or_str (c ∷ s) fallback e = refl

tab_path :
    (a b : QueryTab)
    → a.id ≡ b.id
    → a.name ≡ b.name
    → a.sql ≡ b.sql
    → a.connection_scope ≡ b.connection_scope
    → a ≡ b
tab_path a b p q r s = λ i. record { id = p i; name = q i; sql = r i; connection_scope = s i }

normalize_tab-tab_json :
    (i : ℕ) (t : QueryTab) → TabFits t → IsNamed t → normalize_tab i (tab_json t) ≡ t
unfolding normalize_tab tab_json get
normalize_tab-tab_json i t fits named =
    tab_path _ _ (text_or_str t.id _ named.id)
      (take-text_or name_limit t.name _ fits.name named.name)
      (ap (take sql_limit) (text_or_nil t.sql) ∙ take_all sql_limit t.sql fits.sql)
      (ap (take scope_limit) (text_or_nil t.connection_scope)
        ∙ take_all scope_limit t.connection_scope fits.scope)

normalize_tabs-map :
    (i : ℕ) (ts : List QueryTab)
    → All TabFits ts
    → All IsNamed ts
    → normalize_tabs i (map tab_json ts) ≡ ts
unfolding normalize_tabs
normalize_tabs-map i [] fits named = refl
normalize_tabs-map i (t ∷ ts) fits named =
    ap₂ (λ a l. a ∷ l) (normalize_tab-tab_json i t fits.0 named.0)
      (normalize_tabs-map (i + 1) ts fits.1 named.1)

take-stored :
    (n : ℕ) (xs : List Json)
    → length xs ≤ n
    → take n (array_or_empty (some (arr (of_list xs)))) ≡ xs
unfolding array_or_empty
take-stored n xs h = rw to_list-of_list (take_all n xs h)

any_id-has_id :
    (id : Text) (ts : List QueryTab)
    → any (λ tab. tab.id == id) ts ≡ true
    → any (has_id (some (str id))) ts ≡ true
any_id-has_id id ts h = any_mono (λ tab. tab.id == id) _ same ts h
  where
    same : (t : QueryTab) → (t.id == id) ≡ true → has_id (some (str id)) t ≡ true
    same t e = unfold has_id is_text in ground (arith, ==_iff t.id id, ==_iff id t.id)

active_id-str :
    (id : Text) (ts : List QueryTab) → HasActive ts id → active_id (some (str id)) ts ≡ id
active_id-str id [] h = unfold active_id in rw h
active_id-str id (t ∷ ts) h =
    active_id-stored (some (str id)) (t ∷ ts) (any_id-has_id id (t ∷ ts) h) ∙ text_or_nil id

number_in-nat :
    (allowed : List ℕ) (fallback n : ℕ)
    → elem_nat n allowed ≡ true
    → number_in allowed fallback (nat n) ≡ n
unfolding number_in
number_in-nat allowed fallback n h = rw (h, if◌then◌else◌)

workspace_path :
    (a b : Workspace)
    → a.query_tabs ≡ b.query_tabs
    → a.active_query_tab_id ≡ b.active_query_tab_id
    → a.query_history ≡ b.query_history
    → a.saved_queries ≡ b.saved_queries
    → a.recent_objects ≡ b.recent_objects
    → a.pinned_objects ≡ b.pinned_objects
    → a.schema_snapshots ≡ b.schema_snapshots
    → a.settings.row_limit ≡ b.settings.row_limit
    → a.settings.statement_timeout ≡ b.settings.statement_timeout
    → a ≡ b
workspace_path a b p q r s t u v w x = λ i. record {
  query_tabs = p i;
  active_query_tab_id = q i;
  query_history = r i;
  saved_queries = s i;
  recent_objects = t i;
  pinned_objects = u i;
  schema_snapshots = v i;
  settings = record { row_limit = w i; statement_timeout = x i };
}

module _ (p : Platform) (w : Workspace) (bounded : IsBounded w)
    (named : All IsNamed w.query_tabs) where
  tabs-stored :
      normalize_tabs 0
        (take tab_limit (array_or_empty (some (arr (of_list (map tab_json w.query_tabs))))))
      ≡ w.query_tabs
  tabs-stored =
      ap (normalize_tabs 0) (
        take-stored tab_limit (map tab_json w.query_tabs)
          (rw (length-map tab_json w.query_tabs) bounded.tab_count))
      ∙ normalize_tabs-map 0 w.query_tabs bounded.tabs named

  normalize_object-workspace_json : normalize_object p (workspace_json w) ≡ w
  unfolding normalize_object workspace_json
  normalize_object-workspace_json =
      workspace_path _ _ tabs-stored
        (ap (active_id (some (str w.active_query_tab_id))) tabs-stored
          ∙ active_id-str w.active_query_tab_id w.query_tabs bounded.active)
        (take-stored 100 w.query_history bounded.history)
        (take-stored 100 w.saved_queries bounded.saved)
        (take-stored 50 w.recent_objects bounded.recent)
        (take-stored 50 w.pinned_objects bounded.pinned)
        (take-stored 10 w.schema_snapshots bounded.snapshots)
        (number_in-nat row_limits 100 w.settings.row_limit bounded.row_limit)
        (number_in-nat statement_timeouts 15 w.settings.statement_timeout bounded.timeout)

  -- A workspace within the limits whose tabs all have an id and a name is read back from storage
  -- exactly as it was written, if `JSON.parse` reads the text as the value that was written.
  pub normalize_workspace-workspace_json :
      (raw : Text)
      → p.parse_json raw ≡ some (workspace_json w)
      → normalize_workspace p (some raw) ≡ some w
  unfolding normalize_workspace workspace_json
  normalize_workspace-workspace_json raw parsed =
      rw parsed (ap {B = Option Workspace} some normalize_object-workspace_json)

take-map {ℓ κ} :
    {A : Type ℓ} {B : Type κ} (f : A → B) (n : ℕ) (xs : List A)
    → take n (map f xs) ≡ map f (take n xs)
take-map f zero xs = refl
take-map f (suc n) [] = refl
take-map f (suc n) (x ∷ xs) = ap (f x ∷◌) (take-map f n xs)

module _ (p : Platform) (w : Workspace) (fits : All TabFits w.query_tabs)
    (named : All IsNamed w.query_tabs) where
  tabs-kept :
      normalize_tabs 0
        (take tab_limit (array_or_empty (some (arr (of_list (map tab_json w.query_tabs))))))
      ≡ take tab_limit w.query_tabs
  unfolding array_or_empty
  tabs-kept =
      rw (to_list-of_list, take-map tab_json tab_limit w.query_tabs)
        (normalize_tabs-map 0 (take tab_limit w.query_tabs)
          (All-take TabFits tab_limit w.query_tabs fits)
          (All-take IsNamed tab_limit w.query_tabs named))

  saved-kept :
      take 100 (array_or_empty (some (arr (of_list w.saved_queries)))) ≡ take 100 w.saved_queries
  unfolding array_or_empty
  saved-kept = rw to_list-of_list

  -- Of a workspace with any number of tabs and saved queries, where every tab has an id and a name
  -- and keeps its name, SQL and scope within the limits, what was stored gives back the first 20
  -- tabs and the first 100 saved queries, in their order, and no more, if `JSON.parse` reads the
  -- text as the value that was written.
  pub normalize_workspace-keeps :
      (raw : Text)
      → p.parse_json raw ≡ some (workspace_json w)
      → (w' : Workspace) × (normalize_workspace p (some raw) ≡ some w')
        × (w'.query_tabs ≡ take tab_limit w.query_tabs)
        × (w'.saved_queries ≡ take 100 w.saved_queries)
  unfolding normalize_workspace workspace_json
  normalize_workspace-keeps raw parsed =
      (normalize_object p (workspace_json w), rw parsed, tabs-kept, saved-kept)
