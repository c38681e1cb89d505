-- ===== src/Examples/Submitting.antt =====
-- The connection form, filled in for PostgreSQL.
use rowake.Prelude.{
  Text, lit, ◌≡◌, refl, true, none, some, [], ◌++◌, ◌==◌, trim, find, starts_with, includes,
}
use rowake.Schema.{lookup}
use rowake.Connect.{Draft, postgres_url, host_part, normalized_draft}
use rowake.Connect.Entry.{postgres}
use rowake.Lifecycle.{Page, failed, ok, has_connection_id, done}
use rowake.Lifecycle.Opening.{catalog_reply, resume, advice}
use rowake.Lifecycle.Form.{
  Sending, sends, postgres_request, request_of, submit, answer_submit, draft_from_form, with_draft,
}
use rowake.Lifecycle.Form.Requests.{IsComplete, submit-IsComplete, answer_submit_fails}
use rowake.Examples.{settings}
use rowake.Examples.Connecting.{draft, url_host}
use rowake.Examples.Opening.{hub, notes}

abbrev filled_in : Page
filled_in = record hub { flow = record hub.flow { draft = draft; engine = postgres } }

abbrev number : Text → Text
number t = t

abbrev sent_page : Sending → Page
sent_page (sends t r) = t
sent_page s = hub

sent_draft : Draft
unfolding postgres_url host_part trim includes starts_with ◌==◌
sent_draft = record draft { connection_url = postgres_url url_host draft }

abbrev sent : Page
sent = with_draft sent_draft filled_in

sent_request_example :
    IsComplete url_host number sent (postgres_request (request_of url_host number sent_draft))
unfolding submit draft_from_form normalized_draft sent_draft trim ◌==◌
sent_request_example =
    submit-IsComplete url_host number none filled_in sent
      (postgres_request (request_of url_host number sent_draft)) refl refl

submit_fails_example :
    let (s', w) = answer_submit settings true [] (ok notes) filled_in in
    let (t, w') = resume settings true w (catalog_reply (failed (lit "gone"))) s' in
    (find (has_connection_id (lit "c2")) t.connections ≡ some notes)
    × (t.browse.connection_id ≡ lit "c2")
    × (t.browse.catalog ≡ none)
    × (t.flow.draft.password ≡ [])
    × (t.flow.editing_connection_id ≡ [])
    × (t.form_error ≡ some (lit "gone" ++ advice postgres))
    × (w' ≡ done)
unfolding ◌==◌ lookup
submit_fails_example = answer_submit_fails settings true [] (lit "gone") notes filled_in refl
