-- ===== src/Examples/Opening.antt =====
-- Two connections, of which the first is open.
use rowake.Prelude.{lit, ◌≡◌, refl, true, false, none, some, [], ◌∷◌, ◌==◌, find}
use rowake.Data.{Connection, Catalog}
use rowake.Schema.{lookup}
use rowake.Connect.Entry.{reset_flow}
use rowake.Browse.Load.{aborted}
use rowake.Lifecycle.{Page, failed, ok, has_connection_id, done}
use rowake.Lifecycle.Opening.{catalog_reply, resume, change_connection, answer_remove}
use rowake.Lifecycle.Opening.Changing.{
  answered, Idle, change_connection_ends, change_connection_fails, change_connection_overlap,
}
use rowake.Lifecycle.Opening.Removal.{answer_remove_lem}
use rowake.Lifecycle.Listed.{
  IsDistinct, none_listed, one_more, stay, after_step, remove_step, Steps-IsDistinct,
}
use rowake.Lifecycle.Mapping.{
  load_topology, answer_topology, topology_due, answer_topology_settles, answer_topology_misfiled,
}
use rowake.Examples.{settings}
use rowake.Examples.Pages.{browse, topology}

abbrev pub shop : Connection
shop = record {
  id = lit "c1";
  name = lit "shop";
  engine = lit "postgres";
  address = lit "::1";
  database = lit "shop";
}

abbrev pub notes : Connection
notes = record {
  id = lit "c2";
  name = lit "notes";
  engine = lit "sqlite";
  address = [];
  database = lit "notes.db";
}

abbrev catalog : Catalog
catalog = record { schemas = [] }

abbrev pub hub : Page
hub = record {
  browse = browse;
  connections = shop ∷ notes ∷ [];
  catalog_cache = (lit "c1", catalog) ∷ [];
  topology = some topology;
  topology_cache = (lit "c1", topology) ∷ [];
  topology_loading = false;
  topology_error = [];
  topology_zoom = 10;
  topology_expanded = [];
  query_result = none;
  query_error = [];
  route = lit "connections";
  hash = lit "#/connections";
  flow = reset_flow;
  form_open = false;
  connecting_id = [];
  testing_connection = false;
  form_error = none;
  toasts = [];
}

ends_example : Idle settings true (
    answered settings true
      (ok catalog)
      aborted
      (change_connection settings true (lit "c2") (lit "connections") hub))
unfolding ◌==◌
ends_example =
    change_connection_ends settings true (lit "c2") (lit "connections") (ok catalog) aborted hub
      refl refl

fails_example :
    let (s', w) = change_connection settings true (lit "c2") (lit "connections") hub in
    let (t, w') = resume settings true w (catalog_reply (failed (lit "gone"))) s' in
    (s'.connecting_id ≡ lit "c2")
    × (t.browse.connection_id ≡ lit "c1")
    × (t.browse.catalog ≡ none)
    × (t.connecting_id ≡ [])
    × (t.toasts ≡ lit "gone" ∷ [])
    × (w' ≡ done)
unfolding ◌==◌ lookup
fails_example =
    change_connection_fails settings true (lit "c2") (lit "connections") (lit "gone") hub refl refl
      refl

overlap_example :
    let (s', w) = change_connection settings true (lit "c2") (lit "connections") hub in
    let (s'', w') = change_connection settings true (lit "c1") (lit "connections") s' in
    let (t, w'') = resume settings true w (catalog_reply (ok catalog)) s'' in
    (t.browse.connection_id ≡ lit "c1") × (t.browse.catalog ≡ some catalog)
unfolding ◌==◌ lookup
overlap_example =
    change_connection_overlap settings true (lit "c2") (lit "c1") (lit "connections")
      (lit "connections") catalog hub refl refl refl refl refl

remove_example :
    let t = answer_remove shop (lit "c1") (ok []) hub in
    (find (has_connection_id (lit "c1")) t.connections ≡ none)
    × (lookup (lit "c1") t.catalog_cache ≡ none)
    × (lookup (lit "c1") t.topology_cache ≡ none)
    × ((t.browse.connection_id == lit "c1") ≡ false)
    × (find (has_connection_id (lit "c2")) t.connections
        ≡ find (has_connection_id (lit "c2")) hub.connections)
    × (lookup (lit "c2") t.catalog_cache ≡ lookup (lit "c2") hub.catalog_cache)
    × (lookup (lit "c2") t.topology_cache ≡ lookup (lit "c2") hub.topology_cache)
unfolding ◌==◌
remove_example = answer_remove_lem shop (lit "c1") [] (lit "c2") hub refl refl

listed : IsDistinct (shop ∷ notes ∷ [])
unfolding ◌==◌
listed = one_more shop (notes ∷ []) refl (one_more notes [] refl none_listed)

distinct_example : IsDistinct (answer_remove shop (lit "c1") (ok []) hub).connections
distinct_example =
    Steps-IsDistinct settings true hub (answer_remove shop (lit "c1") (ok []) hub)
      (after_step hub (answer_remove shop (lit "c1") (ok []) hub)
        (answer_remove shop (lit "c1") (ok []) hub) (remove_step shop (lit "c1") (ok []) hub)
        (stay (answer_remove shop (lit "c1") (ok []) hub)))
      listed

settles_example :
    let s' = answer_topology (ok topology) hub in
    let (s'', request) = load_topology false s' in
    (topology_due s' ≡ false)
    × (request ≡ none)
    × (s''.topology ≡ some topology)
    × (topology_due s'' ≡ false)
unfolding ◌==◌
settles_example = answer_topology_settles topology hub refl refl

abbrev moved : Page
moved = record hub { browse = record browse { connection_id = lit "c2" } }

misfiled_example :
    let s' = answer_topology (ok topology) moved in
    let (s'', request) = load_topology false s' in
    (topology_due s' ≡ true)
    × (request ≡ none)
    × (s''.topology ≡ some topology)
    × (topology_due s'' ≡ true)
unfolding ◌==◌
misfiled_example = answer_topology_misfiled topology moved refl refl
