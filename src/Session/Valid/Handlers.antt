-- ===== src/Session/Valid/Handlers.antt =====
-- The other handlers of the query page keep the invariant of the tabs.
use rowake.Prelude.{
  Text, refl, Option, none, some, List, if◌then◌else◌, is_empty, Bool-cases, inl, inr, trim,
}
use rowake.Json.{Json}
use rowake.Session.{Session, Env, ResultMode, Panel, sync_active_query, sync_editor}
use rowake.Session.Actions.{
  edit_document, persist_timer, toggle_panel, show_mode, open_item, open_query, remove_saved_query,
  save_active_query,
}
use rowake.Session.Requests.{
  cannot_run, Response, ok, error, sync_query, run_query, finish_query, explain_query,
  finish_explain,
}
use rowake.Session.Valid.{
  IsValid, IsUsable, IsValid-of_workspace, active_query_tab-valid, sync_active_query-IsValid,
  sync_editor-IsValid, render_query-IsValid,
}
use rowake.Session.Valid.Tabs.{new_query_tab-IsValid}

module _ (e : Env) (u : IsUsable e) where
  pub edit_document-IsValid :
      (doc : Text) (s : Session) → IsValid s → IsValid (edit_document e doc s)
  unfolding edit_document
  edit_document-IsValid doc s v = on_editor s.editor
    where
      on_editor :
          (d : Option Text)
          → IsValid (elim d [
            | none ↦ s
            | some old ↦ sync_active_query e doc (record s { editor = some doc; query_sql = doc })
          ])
      on_editor none = v
      on_editor (some old) = sync_active_query-IsValid e u doc _ (IsValid-of_workspace _ v refl)

  pub persist_timer-IsValid : (s : Session) → IsValid s → IsValid (persist_timer e s)
  unfolding persist_timer
  persist_timer-IsValid s v = sync_active_query-IsValid e u s.query_sql s v

  pub toggle_panel-IsValid : (p : Panel) (s : Session) → IsValid s → IsValid (toggle_panel e p s)
  unfolding toggle_panel
  toggle_panel-IsValid p s v = render_query-IsValid e u _ (IsValid-of_workspace _ v refl)

  pub show_mode-IsValid : (m : ResultMode) (s : Session) → IsValid s → IsValid (show_mode e m s)
  unfolding show_mode
  show_mode-IsValid m s v = render_query-IsValid e u _ (IsValid-of_workspace _ v refl)

  pub open_item-IsValid :
      (item : Option Json) (s : Session) → IsValid s → IsValid (open_item e item s)
  unfolding open_item
  open_item-IsValid none s v = v
  open_item-IsValid (some item) s v =
      render_query-IsValid e u _ (IsValid-of_workspace _ (new_query_tab-IsValid e u _ _ s v) refl)

  pub open_query-IsValid :
      (source : List Json) (id : Text) (s : Session)
      → IsValid s
      → IsValid (open_query e source id s)
  unfolding open_query
  open_query-IsValid source id s v = open_item-IsValid _ s v

  pub remove_saved_query-IsValid :
      (id : Text) (s : Session) → IsValid s → IsValid (remove_saved_query e id s)
  unfolding remove_saved_query
  remove_saved_query-IsValid id s v =
      render_query-IsValid e u _ (record { active = v.active; fits = v.fits; named = v.named })

  pub save_active_query-IsValid : (s : Session) → IsValid s → IsValid (save_active_query e s)
  unfolding save_active_query
  save_active_query-IsValid s v =
      let w = sync_editor-IsValid e u s v in
      let (t, found) = active_query_tab-valid e (sync_editor e s) w in
      rw found (elim (Bool-cases (is_empty (trim t.sql))) [
        | inl blank ↦ rw (blank, if◌then◌else◌) w
        | inr some_sql ↦
            rw (some_sql, if◌then◌else◌)
              (record { active = w.active; fits = w.fits; named = w.named })
      ])

  pub sync_query-IsValid : (s : Session) → IsValid s → IsValid (sync_query e s)
  unfolding sync_query
  sync_query-IsValid s v = on_editor s.editor
    where
      on_editor :
          (d : Option Text)
          → IsValid (elim d [
            | none ↦ sync_active_query e s.query_sql s
            | some doc ↦ sync_active_query e doc (record s { query_sql = doc })
          ])
      on_editor none = sync_active_query-IsValid e u s.query_sql s v
      on_editor (some doc) = sync_active_query-IsValid e u doc _ (IsValid-of_workspace _ v refl)

  pub run_query-IsValid : (s : Session) → IsValid s → IsValid (run_query e s).0
  unfolding run_query
  run_query-IsValid s v = elim (Bool-cases (cannot_run e s')) [
    | inl stop ↦ rw (stop, if◌then◌else◌) v'
    | inr go ↦ rw (go, if◌then◌else◌) (render_query-IsValid e u _ (IsValid-of_workspace _ v' refl))
  ]
    where
      s' : Session
      s' = sync_query e s

      v' : IsValid s'
      v' = sync_query-IsValid s v

  pub explain_query-IsValid : (s : Session) → IsValid s → IsValid (explain_query e s).0
  unfolding explain_query
  explain_query-IsValid s v = elim (Bool-cases (cannot_run e s')) [
    | inl stop ↦ rw (stop, if◌then◌else◌) v'
    | inr go ↦ rw (go, if◌then◌else◌) (render_query-IsValid e u _ (IsValid-of_workspace _ v' refl))
  ]
    where
      s' : Session
      s' = sync_query e s

      v' : IsValid s'
      v' = sync_query-IsValid s v

  pub finish_query-IsValid : (r : Response) (s : Session) → IsValid s → IsValid (finish_query e r s)
  unfolding finish_query
  finish_query-IsValid (error message) s v =
      render_query-IsValid e u _ (IsValid-of_workspace _ v refl)
  finish_query-IsValid (ok result) s v =
      let w : IsValid (record s { query_result = some result }) = IsValid-of_workspace _ v refl in
      let (t, found) = active_query_tab-valid e _ w in
      rw found
        (render_query-IsValid e u _ (record { active = v.active; fits = v.fits; named = v.named }))

  pub finish_explain-IsValid :
      (r : Response) (s : Session) → IsValid s → IsValid (finish_explain e r s)
  unfolding finish_explain
  finish_explain-IsValid (error message) s v =
      render_query-IsValid e u _ (IsValid-of_workspace _ v refl)
  finish_explain-IsValid (ok result) s v =
      render_query-IsValid e u _ (IsValid-of_workspace _ v refl)
