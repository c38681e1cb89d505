-- ===== src/Session/Switching.antt =====
-- What a change of tabs does to the texts of the tabs: `renderQuery` takes the text for the new
-- editor first, and then `shell` reads the old editor into the tab that has become active.
use rowake.Prelude.{
  Text, lit, ◌≡◌, refl, sym, ap, ◌∙◌, subst, Bool, true, false, Option, none, some, List, [], ◌∷◌,
  arith, if◌then◌else◌, take, find, any, or_else, ◌==◌, ==_iff, ==_refl,
}
use rowake.Workspace.{QueryTab, sql_limit}
use rowake.Session.{
  Session, Env, Panel, results, has_tab, with_tabs, active_query_tab, update_tab, edit_active,
  write_sql, sync_active_query, sync_editor, render_query,
}
use rowake.Session.Actions.{clear_results, activate_query_tab, toggle_panel, toggled}

abbrev pub default_sql : Text
default_sql = lit "SELECT 1 AS result;"

-- The stored text of the tab with this id.
abbrev pub sql_of : Text → Session → Option Text
sql_of id s = elim (find (has_tab id) s.query_tabs) [ none ↦ none | some t ↦ some t.sql ]

module _ (f : QueryTab → QueryTab) (keeps : (t : QueryTab) → (f t).id ≡ t.id) where
  find-update_tab_self :
      (id : Text) (ts : List QueryTab) (t : QueryTab)
      → find (has_tab id) ts ≡ some t
      → find (has_tab id) (update_tab id f ts) ≡ some (f t)
  unfolding update_tab
  find-update_tab_self id [] t h = cc
  find-update_tab_self id (x ∷ ts) t h = ground (arith, keeps x, find-update_tab_self id ts t)

  find-update_tab_ne :
      (id j : Text) (ts : List QueryTab)
      → (j == id) ≡ false
      → find (has_tab j) (update_tab id f ts) ≡ find (has_tab j) ts
  unfolding update_tab
  find-update_tab_ne id j [] h = refl
  find-update_tab_ne id j (x ∷ ts) h = ground (
    arith,
    keeps x,
    find-update_tab_ne id j ts h,
    ==_iff x.id id,
    ==_iff x.id j,
    ==_iff j id,
    ==_iff (f x).id j,
  )

any_of_find {ℓ} :
    {A : Type ℓ} (p : A → Bool) (xs : List A) (x : A) → find p xs ≡ some x → any p xs ≡ true
any_of_find p [] x h = cc
any_of_find p (y ∷ xs) x h = ground (arith, any_of_find p xs x)

module _ (e : Env) where
  pub active-found :
      (s : Session) (t : QueryTab)
      → find (has_tab s.active_query_tab_id) s.query_tabs ≡ some t
      → active_query_tab e s ≡ (t, s)
  unfolding active_query_tab
  active-found s t h = ground arith

  -- The state after the active tab was given the text `doc`.
  abbrev synced : Text → Session → Session
  synced doc s = record (edit_active (write_sql e (take sql_limit doc)) s) {
    query_sql = take sql_limit doc;
  }

  sync-found :
      (doc : Text) (s : Session) (t : QueryTab)
      → find (has_tab s.active_query_tab_id) s.query_tabs ≡ some t
      → sync_active_query e doc s ≡ synced doc s
  unfolding sync_active_query
  sync-found doc s t h = rw (active-found s t h)

  sync_editor-found :
      (doc : Text) (s : Session) (t : QueryTab)
      → find (has_tab s.active_query_tab_id) s.query_tabs ≡ some t
      → s.editor ≡ some doc
      → sync_editor e s ≡ synced doc s
  unfolding sync_editor
  sync_editor-found doc s t h on = on_editor s.editor on
    where
      on_editor :
          (d : Option Text)
          → d ≡ some doc
          → (elim d [ none ↦ s | some doc' ↦ sync_active_query e doc' s ]) ≡ synced doc s
      on_editor none is_none = cc
      on_editor (some doc') is_doc = sync-found doc' s t h ∙ ap (λ d. synced d s) (ground arith)

  -- A page that is drawn over a live editor: the active tab takes the document of that editor, and
  -- the new editor the text that the tab had.
  render-found :
      (doc : Text) (s : Session) (t : QueryTab)
      → e.connected ≡ true
      → find (has_tab s.active_query_tab_id) s.query_tabs ≡ some t
      → s.editor ≡ some doc
      → render_query e s
        ≡ record (synced doc s) { editor = some (e.document (or_else t.sql default_sql)) }
  unfolding render_query
  render-found doc s t on h editing =
      rw (on, if◌then◌else◌, active-found s t h)
        (ap (λ (r : Session). record r { editor = some (e.document (or_else t.sql default_sql)) })
          (sync_editor-found doc (record s { query_sql = t.sql }) t h editing))

  id-write_sql : (sql : Text) (t : QueryTab) → (write_sql e sql t).id ≡ t.id
  unfolding write_sql
  id-write_sql sql t = refl

  sql-write_sql : (sql : Text) (t : QueryTab) → (write_sql e sql t).sql ≡ sql
  unfolding write_sql
  sql-write_sql sql t = refl

  synced-id :
      (doc : Text) (s : Session) (j : Text)
      → (j == s.active_query_tab_id) ≡ false
      → find (has_tab j) (synced doc s).query_tabs ≡ find (has_tab j) s.query_tabs
  unfolding edit_active
  synced-id doc s j h =
      find-update_tab_ne (write_sql e (take sql_limit doc)) (id-write_sql (take sql_limit doc))
        s.active_query_tab_id j s.query_tabs h

  synced_self :
      (doc : Text) (s : Session) (t : QueryTab)
      → find (has_tab s.active_query_tab_id) s.query_tabs ≡ some t
      → find (has_tab s.active_query_tab_id) (synced doc s).query_tabs
        ≡ some (write_sql e (take sql_limit doc) t)
  unfolding edit_active
  synced_self doc s t h =
      find-update_tab_self (write_sql e (take sql_limit doc)) (id-write_sql (take sql_limit doc))
        s.active_query_tab_id s.query_tabs t h

-- The editor is open on the active tab `old` with the document `doc`, and the tab `t` with another
-- id is chosen.
module _ (e : Env) (s : Session) (doc : Text) (id : Text) (t old : QueryTab)
    (connected : e.connected ≡ true) (editing : s.editor ≡ some doc)
    (active : find (has_tab s.active_query_tab_id) s.query_tabs ≡ some old)
    (chosen : find (has_tab id) s.query_tabs ≡ some t)
    (differs : (id == s.active_query_tab_id) ≡ false) where
  left : Session
  left = synced e doc s

  -- the state in which `activateQueryTab` calls `renderQuery`
  chosen_state : Session
  unfolding left
  chosen_state = record (clear_results (with_tabs left.query_tabs id left)) {
    query_sql = t.sql;
    result_mode = results;
  }

  still_chosen : find (has_tab id) left.query_tabs ≡ some t
  unfolding left
  still_chosen = synced-id e doc s id differs ∙ chosen

  activate-render : activate_query_tab e id s ≡ render_query e chosen_state
  unfolding activate_query_tab chosen_state
  activate-render = rw (sync_editor-found e doc s old active editing) (
      rw (any_of_find (has_tab id) _ t still_chosen)
        (rw (active-found e (with_tabs left.query_tabs id left) t still_chosen) refl))

  -- The state after the change of tabs.
  activate-found : activate_query_tab e id s ≡ record (synced e doc chosen_state) {
    editor = some (e.document (or_else t.sql default_sql));
  }
  unfolding chosen_state left edit_active
  activate-found =
      activate-render ∙ render-found e doc chosen_state t connected still_chosen editing

  chosen-written :
      find (has_tab id) (activate_query_tab e id s).query_tabs
      ≡ some (write_sql e (take sql_limit doc) t)
  unfolding chosen_state left
  chosen-written =
      ap (λ (r : Session). find (has_tab id) r.query_tabs) activate-found
      ∙ synced_self e doc chosen_state t still_chosen

  old-written :
      find (has_tab s.active_query_tab_id) (activate_query_tab e id s).query_tabs
      ≡ some (write_sql e (take sql_limit doc) old)
  unfolding chosen_state left
  old-written =
      ap (λ (r : Session). find (has_tab s.active_query_tab_id) r.query_tabs) activate-found
      ∙ synced-id e doc chosen_state s.active_query_tab_id flipped
      ∙ synced_self e doc s old active
    where
      flipped : (s.active_query_tab_id == id) ≡ false
      flipped =
          ground
            (arith, ==_iff s.active_query_tab_id id, ==_iff id s.active_query_tab_id, ==_refl id)

  -- With a connection and an open editor, after the choice of another tab the tab that is left has
  -- the editor's document stored, up to the limit on its length, and the new editor shows the text that the chosen tab had, or the
  -- default statement if it had none.
  pub activate_query_tab-saves :
      (sql_of s.active_query_tab_id (activate_query_tab e id s) ≡ some (take sql_limit doc))
      × ((activate_query_tab e id s).editor ≡ some (e.document (or_else t.sql default_sql)))
  activate_query_tab-saves = (
    ground (arith, old-written, sql-write_sql e (take sql_limit doc) old),
    ap (λ (r : Session). r.editor) activate-found,
  )

  active-activate : (activate_query_tab e id s).active_query_tab_id ≡ id
  unfolding chosen_state left edit_active
  active-activate = ap (λ (r : Session). r.active_query_tab_id) activate-found

  -- With a connection and an open editor, after the choice of another tab the document that was left
  -- is stored in the chosen tab too, in place of its own text, up to the limit on its length;
  -- and when the page is drawn again, as by a panel's button, the editor on the chosen tab shows it.
  pub activate_query_tab-overwrites :
      (p : Panel)
      → (sql_of id (activate_query_tab e id s) ≡ some (take sql_limit doc))
        × ((toggle_panel e p (activate_query_tab e id s)).editor
            ≡ some (e.document (or_else (take sql_limit doc) default_sql)))
  unfolding toggle_panel
  activate_query_tab-overwrites p =
      (ground (arith, chosen-written, sql-write_sql e (take sql_limit doc) t), shows_again)
    where
      after : Session
      after = activate_query_tab e id s

      again : Session
      again = record after { panel = toggled p after.panel }

      written : QueryTab
      written = write_sql e (take sql_limit doc) t

      here : find (has_tab again.active_query_tab_id) again.query_tabs ≡ some written
      here =
          subst (λ (j : Text). find (has_tab j) after.query_tabs ≡ some written)
            (sym active-activate) chosen-written

      shows_again :
          (toggle_panel e p after).editor
          ≡ some (e.document (or_else (take sql_limit doc) default_sql))
      shows_again =
          ap (λ (r : Session). r.editor)
            (render-found e (e.document (or_else t.sql default_sql)) again written connected here
              (ap (λ (r : Session). r.editor) activate-found))
          ∙ ap (λ (sql : Text). some (e.document (or_else sql default_sql)))
              (sql-write_sql e (take sql_limit doc) t)
