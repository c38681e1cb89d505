-- ===== src/Session/Valid/Pages.antt =====
-- The other pages and controls keep the invariant of the tabs.
use rowake.Prelude.{
  ℕ, Text, Bool, Bool-cases, true, false, none, some, Option, if◌then◌else◌, inl, inr,
}
use rowake.Quote.{table_statement}
use rowake.Workspace.{row_limits, statement_timeouts, elem_nat}
use rowake.Session.{Session, Env}
use rowake.Session.Format.{format_query, formatted}
use rowake.Session.Actions.{edit_document}
use rowake.Session.Pages.{query_table, set_row_limit, set_statement_timeout, render_route}
use rowake.Session.Valid.{IsValid, IsUsable, shell-IsValid, render_query-IsValid}
use rowake.Session.Valid.Tabs.{new_query_tab-IsValid}
use rowake.Session.Valid.Handlers.{edit_document-IsValid}

pub set_row_limit-IsValid : (limit : ℕ) (s : Session) → IsValid s → IsValid (set_row_limit limit s)
unfolding set_row_limit
set_row_limit-IsValid limit s v = elim (Bool-cases (elem_nat limit row_limits)) [
  | inl offered ↦
      rw (offered, if◌then◌else◌) (record { active = v.active; fits = v.fits; named = v.named })
  | inr other ↦ rw (other, if◌then◌else◌) v
]

pub set_statement_timeout-IsValid :
    (timeout : ℕ) (s : Session) → IsValid s → IsValid (set_statement_timeout timeout s)
unfolding set_statement_timeout
set_statement_timeout-IsValid timeout s v =
    elim (Bool-cases (elem_nat timeout statement_timeouts)) [
      | inl offered ↦
          rw (offered, if◌then◌else◌) (record { active = v.active; fits = v.fits; named = v.named })
      | inr other ↦ rw (other, if◌then◌else◌) v
    ]

module _ (e : Env) (u : IsUsable e) where
  pub query_table-IsValid :
      (schema table : Text) (s : Session) → IsValid s → IsValid (query_table e schema table s)
  unfolding query_table
  query_table-IsValid schema table s v =
      new_query_tab-IsValid e u (table_statement schema table s.settings.row_limit) _ s v

  pub render_route-IsValid :
      (query : Bool) (s : Session) → IsValid s → IsValid (render_route e query s)
  unfolding render_route
  render_route-IsValid true s v = render_query-IsValid e u s v
  render_route-IsValid false s v = shell-IsValid e u s v

  pub format_query-IsValid : (s : Session) → IsValid s → IsValid (format_query e s)
  unfolding format_query
  format_query-IsValid s v = on_editor s.editor
    where
      on_editor :
          (d : Option Text)
          → IsValid (elim d [ none ↦ s | some doc ↦ edit_document e (formatted doc) s ])
      on_editor none = v
      on_editor (some doc) = edit_document-IsValid e u (formatted doc) s v
