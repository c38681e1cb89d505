-- ===== src/Session/Valid/Tabs.antt =====
-- The handlers that open, choose, close and rename tabs keep the invariant of the tabs.
use rowake.Prelude.{
  ℕ, zero, suc, ◌-◌, ◌<◌, Text, lit, ◌≡◌, refl, subst, true, false, Option, none, some, List, [],
  ◌∷◌, ◌++◌, arith, if◌then◌else◌, take, find_index, find_index-lt, erase_idx, length-erase_idx,
  All-erase_idx, any, All, All-append, length, length-take-le, is_empty, or_else, ◌==◌, ==_iff,
  ==_refl, Bool-cases, Option-cases, inl, inr,
}
use rowake.Workspace.{QueryTab, name_limit, sql_limit}
use rowake.Workspace.Bounds.{TabFits}
use rowake.Workspace.RoundTrip.{IsNamed}
use rowake.Session.{Session, Env, has_tab, with_tabs, sync_editor, render_query}
use rowake.Session.Actions.{
  clear_results, new_query_tab, open_new_tab, activate_query_tab, id_at, empty_tab, remove_tab,
  close_tab, close_query_tab, rename_query,
}
use rowake.Session.Valid.{
  IsValid, IsUsable, Keeps, edit_active-IsValid, IsValid-of_workspace, active_query_tab-valid,
  sync_editor-IsValid, render_query-IsValid,
}

any-append_self :
    (id : Text) (ts : List QueryTab) (t : QueryTab)
    → t.id ≡ id
    → any (has_tab id) (ts ++ t ∷ []) ≡ true
any-append_self id [] t h = ground (arith, ==_iff t.id id)
any-append_self id (x ∷ ts) t h = ground (arith, any-append_self id ts t h)

is_empty-take : (n : ℕ) (t : Text) → is_empty t ≡ false → is_empty (take (suc n) t) ≡ false
is_empty-take n [] h = cc
is_empty-take n (c ∷ t) h = refl

is_empty-or_else : (a b : Text) → is_empty b ≡ false → is_empty (or_else a b) ≡ false
is_empty-or_else [] b h = h
is_empty-or_else (c ∷ a) b h = refl

-- A tab at an index in range has its own id among the tabs.
any-get_elem? :
    (ts : List QueryTab) (i : ℕ) (fallback : Text)
    → i < length ts
    → any (has_tab (id_at ts i fallback)) ts ≡ true
any-get_elem? [] i fallback h = elim h [ ]
any-get_elem? (t ∷ ts) zero fallback h = ground (arith, ==_refl t.id)
any-get_elem? (t ∷ ts) (suc i) fallback h =
    ground (arith, any-get_elem? ts i fallback (omega arith))

-- Removing the tab with one id leaves every tab with another.
any-erase_idx :
    (id j : Text) (ts : List QueryTab) (i : ℕ)
    → (j == id) ≡ false
    → find_index (has_tab id) ts ≡ some i
    → any (has_tab j) ts ≡ true
    → any (has_tab j) (erase_idx ts i) ≡ true
any-erase_idx id j [] i n f h = cc
any-erase_idx id j (t ∷ ts) zero n f h = ground (arith, ==_iff t.id id, ==_iff t.id j, ==_iff j id)
any-erase_idx id j (t ∷ ts) (suc i) n f h = ground (arith, any-erase_idx id j ts i n)

module _ (e : Env) (u : IsUsable e) where
  pub new_query_tab-IsValid :
      (sql name : Text) (s : Session) → IsValid s → IsValid (new_query_tab e sql name s)
  unfolding new_query_tab
  new_query_tab-IsValid sql name s v = record {
    active = any-append_self e.fresh_id s'.query_tabs _ refl;
    fits = All-append TabFits s'.query_tabs _ v'.fits (
      record {
        name = length-take-le name_limit _;
        sql = length-take-le sql_limit sql;
        scope = u.scope;
      },
      tt,
    );
    named =
        All-append IsNamed s'.query_tabs _ v'.named
          (record { id = u.fresh; name = is_empty-take 79 _ (is_empty-or_else name _ refl) }, tt);
  }
    where
      s' : Session
      s' = sync_editor e s

      v' : IsValid s'
      v' = sync_editor-IsValid e u s v

  pub open_new_tab-IsValid : (s : Session) → IsValid s → IsValid (open_new_tab e s)
  unfolding open_new_tab
  open_new_tab-IsValid s v = render_query-IsValid e u _ (new_query_tab-IsValid [] [] s v)

  with_active-IsValid :
      (id : Text) (s : Session)
      → IsValid s
      → any (has_tab id) s.query_tabs ≡ true
      → IsValid (with_tabs s.query_tabs id s)
  with_active-IsValid id s v h = record { active = h; fits = v.fits; named = v.named }

  pub activate_query_tab-IsValid :
      (id : Text) (s : Session) → IsValid s → IsValid (activate_query_tab e id s)
  unfolding activate_query_tab
  activate_query_tab-IsValid id s v = elim (Bool-cases (any (has_tab id) s'.query_tabs)) [
    | inr absent ↦ rw (absent, if◌then◌else◌) v'
    | inl present ↦
        let w = with_active-IsValid id s' v' present in
        let (t, found) = active_query_tab-valid e (with_tabs s'.query_tabs id s') w in
        rw (present, if◌then◌else◌, found)
          (render_query-IsValid e u _ (IsValid-of_workspace _ w refl))
  ]
    where
      s' : Session
      s' = sync_editor e s

      v' : IsValid s'
      v' = sync_editor-IsValid e u s v

  remove_tab-IsValid :
      (id : Text) (i : ℕ) (s : Session)
      → IsValid s
      → 1 < length s.query_tabs
      → find_index (has_tab id) s.query_tabs ≡ some i
      → IsValid (remove_tab e id i s)
  unfolding remove_tab
  remove_tab-IsValid id i s v many found = elim (Bool-cases (s.active_query_tab_id == id)) [
    | inr differs ↦
        rw (differs, if◌then◌else◌)
          (record {
            active = any-erase_idx id s.active_query_tab_id s.query_tabs i differs found v.active;
            fits = All-erase_idx TabFits s.query_tabs i v.fits;
            named = All-erase_idx IsNamed s.query_tabs i v.named;
          })
    | inl same ↦
        let w : IsValid (with_tabs tabs next s) = record {
          active =
              any-get_elem? tabs (i - 1) s.active_query_tab_id (omega (arith, shorter, in_range));
          fits = All-erase_idx TabFits s.query_tabs i v.fits;
          named = All-erase_idx IsNamed s.query_tabs i v.named;
        } in
        let (t, here) = active_query_tab-valid e (with_tabs tabs next s) w in
        rw (same, if◌then◌else◌, here) (IsValid-of_workspace _ w refl)
  ]
    where
      tabs : List QueryTab
      tabs = erase_idx s.query_tabs i

      next : Text
      next = id_at tabs (i - 1) s.active_query_tab_id

      in_range : i < length s.query_tabs
      in_range = find_index-lt (has_tab id) s.query_tabs i found

      shorter : suc (length (erase_idx s.query_tabs i)) ≡ length s.query_tabs
      shorter = length-erase_idx s.query_tabs i in_range

  empty_tab-IsValid :
      (t : QueryTab) (s : Session)
      → s.query_tabs ≡ t ∷ []
      → IsValid s
      → IsValid (with_tabs (empty_tab t ∷ []) s.active_query_tab_id s)
  empty_tab-IsValid t s only v = record {
    active =
        subst (λ (ts : List QueryTab). any (has_tab s.active_query_tab_id) ts ≡ true) only v.active;
    fits =
        let h : TabFits t = (subst (All TabFits) only v.fits).0 in
        (record { name = omega arith; sql = omega arith; scope = h.scope }, tt);
    named =
        let h : IsNamed t = (subst (All IsNamed) only v.named).0 in
        (record { id = h.id; name = refl }, tt);
  }

  close_tab-IsValid :
      (id : Text) (ts : List QueryTab) (s s' : Session)
      → s.query_tabs ≡ ts
      → IsValid s
      → close_tab e id ts s ≡ some s'
      → IsValid s'
  unfolding close_tab
  close_tab-IsValid id [] s s' at_tabs v h = cc
  close_tab-IsValid id (t ∷ []) s s' at_tabs v h = subst IsValid (ground arith) (
      IsValid-of_workspace
        (record (with_tabs (empty_tab t ∷ []) s.active_query_tab_id s) { query_sql = [] })
        (empty_tab-IsValid t s at_tabs v) refl)
  close_tab-IsValid id (t ∷ t' ∷ ts) s s' at_tabs v h =
      elim (Option-cases (find_index (has_tab id) (t ∷ t' ∷ ts))) [
        | inl absent ↦ ground (arith, absent)
        | inr (i, found) ↦
            subst IsValid (ground (arith, found))
              (remove_tab-IsValid id i s v (rw at_tabs (omega arith)) (rw at_tabs found))
      ]

  pub close_query_tab-IsValid :
      (id : Text) (s : Session) → IsValid s → IsValid (close_query_tab e id s)
  unfolding close_query_tab
  close_query_tab-IsValid id s v = after (close_tab e id s.query_tabs s) refl
    where
      after :
          (o : Option Session)
          → close_tab e id s.query_tabs s ≡ o
          → IsValid (elim o [ none ↦ s | some s' ↦ render_query e (clear_results s') ])
      after none early = v
      after (some s') closes =
          render_query-IsValid e u _
            (IsValid-of_workspace _ (close_tab-IsValid id s.query_tabs s s' refl v closes) refl)

  rename-Keeps :
      (value : Text)
      → Keeps (λ t. record t { name = take name_limit (or_else value (lit "Untitled query")) })
  rename-Keeps value = record {
    id = λ t. refl;
    fits = λ t h. record { name = length-take-le name_limit _; sql = h.sql; scope = h.scope };
    named = λ t h. record { id = h.id; name = is_empty-take 79 _ (is_empty-or_else value _ refl) };
  }

  pub rename_query-IsValid :
      (value : Text) (s : Session) → IsValid s → IsValid (rename_query e value s)
  unfolding rename_query
  rename_query-IsValid value s v =
      let (t, found) = active_query_tab-valid e s v in
      rw found (edit_active-IsValid _ (rename-Keeps value) s v)
