-- ===== src/Session/Valid.antt =====
-- The invariant of the query tabs, and that every handler keeps it.
pub mod Tabs
pub mod Handlers
pub mod Pages
use rowake.Prelude.{
  ℕ, zero, suc, ◌+◌, ◌≤◌, Text, lit, ◌≡◌, refl, sym, ap, subst, Bool, true, false, ◌||◌, Option,
  none, some, List, [], ◌∷◌, ◌++◌, arith, if◌then◌else◌, take, find, any, All, All-append, length,
  length-take-le, is_empty, or_else, ◌==◌, ==_iff, ==_refl, Bool-cases, inl, inr, find_of_any,
}
use rowake.Workspace.{QueryTab, Workspace, name_limit, sql_limit, scope_limit}
use rowake.Workspace.Bounds.{TabFits}
use rowake.Workspace.RoundTrip.{IsNamed}
use rowake.Session.{
  Session, Env, has_tab, with_tabs, active_query_tab, update_tab, edit_active, write_sql,
  sync_active_query, sync_editor, shell, render_query,
}

-- There is a tab with the active id, and every tab is within the limits and has a name and an id.
pub record IsValid (s : Session) : Type 0 where
  pub active : any (has_tab s.active_query_tab_id) s.query_tabs ≡ true
  pub fits : All TabFits s.query_tabs
  pub named : All IsNamed s.query_tabs

-- What the handlers read is within the limits too.
pub record IsUsable (e : Env) : Type 0 where
  pub scope : length e.scope ≤ scope_limit
  pub fresh : is_empty e.fresh_id ≡ false

-- A change of a tab that is allowed to be made.
pub record Keeps (f : QueryTab → QueryTab) : Type 0 where
  pub id : (t : QueryTab) → (f t).id ≡ t.id
  pub fits : (t : QueryTab) → TabFits t → TabFits (f t)
  pub named : (t : QueryTab) → IsNamed t → IsNamed (f t)

module _ (id : Text) (f : QueryTab → QueryTab) (keeps : Keeps f) where
  any-update_tab :
      (j : Text) (ts : List QueryTab) → any (has_tab j) (update_tab id f ts) ≡ any (has_tab j) ts
  unfolding update_tab
  any-update_tab j [] = refl
  any-update_tab j (t ∷ ts) = ground (arith, keeps.id t, any-update_tab j ts)

  update_tab-fits : (ts : List QueryTab) → All TabFits ts → All TabFits (update_tab id f ts)
  unfolding update_tab
  update_tab-fits [] h = h
  update_tab-fits (t ∷ ts) h = elim (Bool-cases (has_tab id t)) [
    | inl e ↦ rw (e, if◌then◌else◌) (keeps.fits t h.0, h.1)
    | inr e ↦ rw (e, if◌then◌else◌) (h.0, update_tab-fits ts h.1)
  ]

  update_tab-IsNamed : (ts : List QueryTab) → All IsNamed ts → All IsNamed (update_tab id f ts)
  unfolding update_tab
  update_tab-IsNamed [] h = h
  update_tab-IsNamed (t ∷ ts) h = elim (Bool-cases (has_tab id t)) [
    | inl e ↦ rw (e, if◌then◌else◌) (keeps.named t h.0, h.1)
    | inr e ↦ rw (e, if◌then◌else◌) (h.0, update_tab-IsNamed ts h.1)
  ]

pub edit_active-IsValid :
    (f : QueryTab → QueryTab) → Keeps f → (s : Session) → IsValid s → IsValid (edit_active f s)
unfolding edit_active
edit_active-IsValid f keeps s v = record {
  active =
      rw (any-update_tab s.active_query_tab_id f keeps s.active_query_tab_id s.query_tabs) v.active;
  fits = update_tab-fits s.active_query_tab_id f keeps s.query_tabs v.fits;
  named = update_tab-IsNamed s.active_query_tab_id f keeps s.query_tabs v.named;
}

-- Validity is about the workspace alone.
pub IsValid-of_workspace :
    {s : Session} (t : Session) → IsValid s → s.workspace ≡ t.workspace → IsValid t
IsValid-of_workspace t v e = record {
  active =
      subst (λ (w : Workspace). any (has_tab w.active_query_tab_id) w.query_tabs ≡ true) e v.active;
  fits = subst (λ (w : Workspace). All TabFits w.query_tabs) e v.fits;
  named = subst (λ (w : Workspace). All IsNamed w.query_tabs) e v.named;
}

length-or_else-le : (n : ℕ) (a b : Text) → length a ≤ n → length b ≤ n → length (or_else a b) ≤ n
length-or_else-le n [] b h k = k
length-or_else-le n (c ∷ a) b h k = h

module _ (e : Env) where
  -- Where the invariant holds, the active tab is found, and finding it changes nothing.
  pub active_query_tab-valid :
      (s : Session) → IsValid s → (t : QueryTab) × (active_query_tab e s ≡ (t, s))
  unfolding active_query_tab
  active_query_tab-valid s v =
      let (t, found) = find_of_any (has_tab s.active_query_tab_id) s.query_tabs v.active in
      (t, ground arith)

  module _ (u : IsUsable e) where
    write_sql-Keeps : (value : Text) → Keeps (write_sql e (take sql_limit value))
    unfolding write_sql
    write_sql-Keeps value = record {
      id = λ t. refl;
      fits = λ t h. record {
        name = h.name;
        sql = length-take-le sql_limit value;
        scope = length-or_else-le scope_limit t.connection_scope e.scope h.scope u.scope;
      };
      named = λ t h. record { id = h.id; name = h.name };
    }

    pub sync_active_query-IsValid :
        (value : Text) (s : Session) → IsValid s → IsValid (sync_active_query e value s)
    unfolding sync_active_query
    sync_active_query-IsValid value s v =
        let (t, found) = active_query_tab-valid s v in
        rw found (IsValid-of_workspace _ (edit_active-IsValid _ (write_sql-Keeps value) s v) refl)

    pub sync_editor-IsValid : (s : Session) → IsValid s → IsValid (sync_editor e s)
    unfolding sync_editor
    sync_editor-IsValid s v = on_editor s.editor
      where
        on_editor :
            (d : Option Text) → IsValid (elim d [ none ↦ s | some doc ↦ sync_active_query e doc s ])
        on_editor none = v
        on_editor (some doc) = sync_active_query-IsValid doc s v

    pub shell-IsValid : (s : Session) → IsValid s → IsValid (shell e s)
    unfolding shell
    shell-IsValid s v = IsValid-of_workspace _ (sync_editor-IsValid s v) refl

    pub render_query-IsValid : (s : Session) → IsValid s → IsValid (render_query e s)
    unfolding render_query
    render_query-IsValid s v = elim (Bool-cases e.connected) [
      | inr off ↦ rw off (shell-IsValid s v)
      | inl on ↦
          let (t, found) = active_query_tab-valid s v in
          rw (on, found)
            (IsValid-of_workspace _
              (shell-IsValid (record s { query_sql = t.sql }) (IsValid-of_workspace _ v refl)) refl)
    ]
