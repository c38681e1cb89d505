-- ===== src/Lifecycle/Opening/Changing.antt =====
-- How a change of the connection ends.
use rowake.Prelude.{
  Text, lit, ◌≡◌, refl, ap, ◌∙◌, ◌==◌, Bool, true, false, Option, none, some, [], ◌∷◌, ◌++◌,
  if◌then◌else◌, is_empty, either_branch,
}
use rowake.Workspace.{Settings}
use rowake.Data.{Catalog}
use rowake.Schema.{lookup, set}
use rowake.Browse.{Browse}
use rowake.Browse.Load.{PageRequest, PageResponse, load_table}
use rowake.Browse.Handlers.{show_catalog}
use rowake.Lifecycle.{
  Page, Answer, failed, ok, toast, render_route, navigate, Change, After, changed, submitted,
  refreshed, Await, done, for_catalog, finish, arrive, opened_text, submitted_word,
}
use rowake.Lifecycle.Opening.{
  table_or_finish, catalog_here, cached_or_ask, load_catalog, catalog_failed, answer_catalog,
  catalog_reply, table_reply, resume, change_connection, change_of,
}

-- What `navigate` leaves.
pub record Keeps (s t : Page) : Type 0 where
  pub browse : t.browse ≡ s.browse
  pub connections : t.connections ≡ s.connections
  pub catalog_cache : t.catalog_cache ≡ s.catalog_cache
  pub connecting_id : t.connecting_id ≡ s.connecting_id

abbrev keeps_all :
    (s t : Page)
    → t.browse ≡ s.browse
    → t.connections ≡ s.connections
    → t.catalog_cache ≡ s.catalog_cache
    → t.connecting_id ≡ s.connecting_id
    → Keeps s t
keeps_all s t a b c d = record { browse = a; connections = b; catalog_cache = c; connecting_id = d }

pub navigate-Keeps : (route : Text) (s : Page) → Keeps s (navigate route s)
unfolding navigate render_route
navigate-Keeps route s =
    either_branch (Keeps s) _ _ _ (keeps_all s _ refl refl refl refl)
      (keeps_all s _ refl refl refl refl)

pub arrive-Keeps : (destination : Text) (s : Page) → Keeps s (arrive destination s)
unfolding arrive render_route
arrive-Keeps destination s =
    either_branch (Keeps s) _ _ _ (navigate-Keeps (lit "browse") s)
      (keeps_all s _ refl refl refl refl)

-- The catalog that is shown, for the connection that is open.
pub record Shows (id : Text) (catalog : Catalog) (b : Browse) : Type 0 where
  pub at : b.connection_id ≡ id
  pub shown : b.catalog ≡ some catalog

module _ (settings : Settings) (persistence : Bool) where
  finish-browse : (after : After) (s : Page) → (finish persistence after s).browse ≡ s.browse
  unfolding finish
  finish-browse (changed c) s = (arrive-Keeps c.destination (toast (opened_text s) s)).browse
  finish-browse (submitted u) s =
      (navigate-Keeps (lit "browse")
        (toast (submitted_word persistence u ++ lit " " ++ u.connection.name) s)).browse
  finish-browse refreshed s = refl

  load_table-Shows :
      (id cursor : Text) (catalog : Catalog) (b : Browse)
      → Shows id catalog b
      → Shows id catalog (load_table settings cursor b).0
  unfolding load_table
  load_table-Shows id cursor catalog b h =
      either_branch (λ (r : Browse × Option PageRequest). Shows id catalog r.0) _ _ _ h
        (record { at = h.at; shown = h.shown })

  show_catalog-Shows :
      (select_default : Bool) (catalog : Catalog) (b : Browse)
      → Shows b.connection_id catalog (show_catalog settings select_default catalog b).0
  unfolding show_catalog
  show_catalog-Shows select_default catalog b = load_table-Shows b.connection_id _ catalog _ (
      either_branch (Shows b.connection_id catalog) _ _ _ (record { at = refl; shown = refl })
        (record { at = refl; shown = refl }))

  abbrev ShowsHere : Page → Catalog → Page × Await → Type 0
  ShowsHere s catalog r = Shows s.browse.connection_id catalog r.0.browse

  table_or_finish-browse :
      (after : After) (request : Option PageRequest) (s : Page)
      → (table_or_finish settings persistence after request s).0.browse ≡ s.browse
  unfolding table_or_finish
  table_or_finish-browse after none s = finish-browse after s
  table_or_finish-browse after (some r) s = refl

  -- When a catalog comes, whichever connection it was asked for, it is shown under the connection
  -- that is open by then, which stays open.
  pub catalog_here-Shows :
      (select_default : Bool) (after : After) (catalog : Catalog) (s : Page)
      → Shows s.browse.connection_id catalog
          (catalog_here settings persistence select_default after catalog s).0.browse
  unfolding catalog_here
  catalog_here-Shows select_default after catalog s =
      rw (table_or_finish-browse after _ _) (show_catalog-Shows select_default catalog s.browse)

  -- The handler with both answers, the page's if it is asked for.
  unfoldable pub answered : Answer Catalog → PageResponse → Page × Await → Page × Await
  unfolding resume
  answered a p (s, w) =
      let (s', w') = resume settings persistence w (catalog_reply a) s in
      resume settings persistence w' (table_reply p) s'

  record Ended (r : Page × Await) : Type 0 where
    idle : r.1 ≡ done
    cleared : r.0.connecting_id ≡ []

  abbrev after_table : PageResponse → Page × Await → Page × Await
  after_table p r = resume settings persistence r.1 (table_reply p) r.0

  table_or_finish-Ended :
      (c : Change) (request : Option PageRequest) (p : PageResponse) (s : Page)
      → Ended (after_table p (table_or_finish settings persistence (changed c) request s))
  unfolding table_or_finish resume finish
  table_or_finish-Ended c none p s = record { idle = refl; cleared = refl }
  table_or_finish-Ended c (some r) p s = record { idle = refl; cleared = refl }

  answered-Ended :
      (c : Change) (request : Option PageRequest) (a : Answer Catalog) (p : PageResponse) (s : Page)
      → Ended (answered a p (table_or_finish settings persistence (changed c) request s))
  unfolding answered table_or_finish resume finish
  answered-Ended c none a p s = record { idle = refl; cleared = refl }
  answered-Ended c (some r) a p s = record { idle = refl; cleared = refl }

  cached_or_ask-Ended :
      (id : Text) (c : Change) (o : Option Catalog) (a : Answer Catalog) (p : PageResponse)
      (s : Page)
      → Ended (answered a p (cached_or_ask settings persistence id true (changed c) o s))
  unfolding answered cached_or_ask resume answer_catalog catalog_failed catalog_here
  cached_or_ask-Ended id c none (failed m) p s = record { idle = refl; cleared = refl }
  cached_or_ask-Ended id c none (ok catalog) p s = table_or_finish-Ended c _ p _
  cached_or_ask-Ended id c (some catalog) a p s = answered-Ended c _ a p _

  abbrev pub Idle : Page × Await → Type 0
  Idle r = (r.1 ≡ done) × (r.0.connecting_id ≡ [])

  -- Once the catalog and the page that it asks for have come, in whatever way the requests end,
  -- a change to a connection that is not the open one waits for nothing, and no connection is
  -- marked as connecting.
  pub change_connection_ends :
      (id destination : Text) (a : Answer Catalog) (p : PageResponse) (s : Page)
      → is_empty id ≡ false
      → (id == s.browse.connection_id) ≡ false
      → Idle (answered a p (change_connection settings persistence id destination s))
  unfolding change_connection load_catalog
  change_connection_ends id destination a p s named other =
      rw (named, other, if◌then◌else◌)
        (let e = cached_or_ask-Ended id _ (lookup id s.catalog_cache) a p _ in (e.idle, e.cleared))

  -- Where the catalog has to be asked for and the request fails, the change ends with the connection
  -- and the catalog that were open before, nothing marked as connecting, and the message shown.
  pub change_connection_fails :
      (id destination message : Text) (s : Page)
      → is_empty id ≡ false
      → (id == s.browse.connection_id) ≡ false
      → lookup id s.catalog_cache ≡ none
      → let (s', w) = change_connection settings persistence id destination s in
        let (t, w') = resume settings persistence w (catalog_reply (failed message)) s' in
        (s'.connecting_id ≡ id)
        × (t.browse.connection_id ≡ s.browse.connection_id)
        × (t.browse.catalog ≡ s.browse.catalog)
        × (t.connecting_id ≡ [])
        × (t.toasts ≡ message ∷ s.toasts)
        × (w' ≡ done)
  unfolding change_connection load_catalog cached_or_ask resume answer_catalog catalog_failed
  change_connection_fails id destination message s named other uncached =
      rw (named, other, uncached, if◌then◌else◌) (refl, refl, refl, refl, refl, refl)

  cached_or_ask_opens :
      (id : Text) (after : After) (o : Option Catalog) (s : Page)
      → (cached_or_ask settings persistence id true after o s).0.browse.connection_id
        ≡ s.browse.connection_id
  unfolding cached_or_ask
  cached_or_ask_opens id after none s = refl
  cached_or_ask_opens id after (some catalog) s = (catalog_here-Shows true after catalog s).at

  -- the connection is open as soon as it is chosen
  change_connection_opens :
      (id destination : Text) (s : Page)
      → is_empty id ≡ false
      → (id == s.browse.connection_id) ≡ false
      → (change_connection settings persistence id destination s).0.browse.connection_id ≡ id
  unfolding change_connection load_catalog
  change_connection_opens id destination s named other =
      rw (named, other, if◌then◌else◌) (cached_or_ask_opens id _ (lookup id s.catalog_cache) _)

  change_connection_waits :
      (id destination : Text) (s : Page)
      → is_empty id ≡ false
      → (id == s.browse.connection_id) ≡ false
      → lookup id s.catalog_cache ≡ none
      → (change_connection settings persistence id destination s).1
        ≡ for_catalog id true (changed (change_of destination s))
  unfolding change_connection load_catalog cached_or_ask
  change_connection_waits id destination s named other uncached =
      rw (named, other, uncached, if◌then◌else◌) refl

  -- While the catalog of a connection that is being opened is on its way, another connection can be
  -- opened; when the catalog comes, it is shown under that other connection.
  pub change_connection_overlap :
      (id other destination destination' : Text) (catalog : Catalog) (s : Page)
      → is_empty id ≡ false
      → is_empty other ≡ false
      → (id == s.browse.connection_id) ≡ false
      → (other == id) ≡ false
      → lookup id s.catalog_cache ≡ none
      → let (s', w) = change_connection settings persistence id destination s in
        let (s'', w') = change_connection settings persistence other destination' s' in
        let (t, w'') = resume settings persistence w (catalog_reply (ok catalog)) s'' in
        (t.browse.connection_id ≡ other) × (t.browse.catalog ≡ some catalog)
  unfolding resume answer_catalog
  change_connection_overlap id other destination destination' catalog s named named' away away'
        uncached =
      let s' = (change_connection settings persistence id destination s).0 in
      let s'' = (change_connection settings persistence other destination' s').0 in
      let opened =
        change_connection_opens other destination' s' named'
          (ap (other ==◌) (change_connection_opens id destination s named away) ∙ away') in
      rw (change_connection_waits id destination s named away uncached) (
        let shows =
          catalog_here-Shows true (changed (change_of destination s)) catalog
            (record s'' { catalog_cache = set id catalog s''.catalog_cache }) in
        (shows.at ∙ opened, shows.shown))
