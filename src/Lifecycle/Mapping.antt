-- ===== src/Lifecycle/Mapping.antt =====
-- The topology of the open connection (webembed/src/app.js): `loadTopology` and the actions of the
-- topology page.
use rowake.Prelude.{
  ◌+◌, ◌-◌, min, max, Text, ◌≡◌, refl, ◌==◌, ==_refl, Bool, true, false, not, ◌||◌, ◌&&◌, Option,
  none, some, List, [], ◌∷◌, ◌++◌, map, if◌then◌else◌, is_empty, elem, filter, length, nat_eq,
  Bool-cases, inl, inr,
}
use rowake.Data.{Topology}
use rowake.Schema.{Dictionary, lookup, set}
use rowake.Lifecycle.{Page, Answer, failed, ok}
use rowake.Lifecycle.Opening.{delete}

-- `new Set(xs)`
unfoldable pub set_of : List Text → List Text
unfolding elem
set_of [] = []
set_of (x ∷ xs) = let rest = set_of xs in x ∷ filter (λ y. not (y == x)) rest

abbrev table_ids : Topology → List Text
table_ids t = map (λ u. u.id) t.tables

show_topology : Topology → Page → Page
unfolding set_of
show_topology t s = record s {
  topology = some t;
  topology_expanded = set_of (table_ids t);
  topology_loading = false;
}

topology_or_ask : Option Topology → Page → Page × Option Text
unfolding show_topology
topology_or_ask (some t) s = (show_topology t s, none)
topology_or_ask none s = (s, some s.browse.connection_id)

cached_topology : Bool → Page → Option Topology
unfolding lookup
cached_topology force s = if force then none else lookup s.browse.connection_id s.topology_cache

-- `loadTopology`, up to its request, which is for the connection with this id
unfoldable pub load_topology : Bool → Page → Page × Option Text
unfolding topology_or_ask cached_topology
load_topology force s =
    if is_empty s.browse.connection_id || s.topology_loading
    then (s, none)
    else topology_or_ask (cached_topology force s)
        (record s { topology_loading = true; topology_error = [] })

-- from the answer, which is cached for the connection that is open by then
unfoldable pub answer_topology : Answer Topology → Page → Page
unfolding show_topology set
answer_topology (failed message) s = record s {
  topology = none;
  topology_error = message;
  topology_loading = false;
}
answer_topology (ok t) s =
    show_topology t (record s { topology_cache = set s.browse.connection_id t s.topology_cache })

-- where a page that needs the topology asks for it
unfoldable pub topology_due : Page → Bool
unfolding ◌==◌
topology_due s = elim s.topology [
  | none ↦ not s.topology_loading
  | some t ↦ not (t.connection_id == s.browse.connection_id) && not s.topology_loading
]

-- `refresh-topology`, up to its request
unfoldable pub refresh_topology : Page → Page × Option Text
unfolding delete load_topology
refresh_topology s = load_topology true (record s {
  topology_cache = delete s.browse.connection_id s.topology_cache;
  topology = none;
  topology_error = [];
})

-- `toggle-topology-table`
unfoldable pub toggle_table : Text → Page → Page
unfolding elem ◌==◌
toggle_table id s = record s {
  topology_expanded =
      if elem id s.topology_expanded
      then filter (λ y. not (y == id)) s.topology_expanded
      else s.topology_expanded ++ id ∷ [];
}

-- `toggle-all-topology-tables`; without a topology the button is not there
unfoldable pub toggle_all : Page → Page
unfolding set_of
toggle_all s = elim s.topology [
  | none ↦ s
  | some t ↦ record s {
    topology_expanded =
        if nat_eq (length s.topology_expanded) (length t.tables) then [] else set_of (table_ids t);
  }
]

-- `zoom-topology`, in tenths, to which the source rounds
unfoldable pub zoom : Bool → Page → Page
zoom is_in s = record s {
  topology_zoom = min 14 (max 7 (if is_in then s.topology_zoom + 1 else s.topology_zoom - 1));
}

-- `reset-topology-zoom`
unfoldable pub reset_zoom : Page → Page
reset_zoom s = record s { topology_zoom = 10 }

lookup-set_same {ℓ} :
    {A : Type ℓ} (k : Text) (v : A) (m : Dictionary A) → lookup k (set k v m) ≡ some v
unfolding lookup set
lookup-set_same k v [] = rw (==_refl k, if◌then◌else◌) refl
lookup-set_same k v ((j, w) ∷ m) = elim (Bool-cases (j == k)) [
  | inl t ↦ rw (t, if◌then◌else◌) (rw (t, if◌then◌else◌) refl)
  | inr f ↦ rw (f, if◌then◌else◌) (rw (f, if◌then◌else◌) (lookup-set_same k v m))
]

-- Where the topology that comes is that of the open connection, no page asks for it again, and where
-- one is loaded nevertheless, it is this one, without a request.
pub answer_topology_settles :
    (t : Topology) (s : Page)
    → is_empty s.browse.connection_id ≡ false
    → (t.connection_id == s.browse.connection_id) ≡ true
    → let s' = answer_topology (ok t) s in
      let (s'', request) = load_topology false s' in
      (topology_due s' ≡ false)
      × (request ≡ none)
      × (s''.topology ≡ some t)
      × (topology_due s'' ≡ false)
unfolding answer_topology load_topology cached_topology topology_or_ask show_topology topology_due
answer_topology_settles t s named same =
    let due : (not (t.connection_id == s.browse.connection_id) && true) ≡ false = rw same refl in
    rw (named, lookup-set_same s.browse.connection_id t s.topology_cache, if◌then◌else◌)
      (due, refl, refl, due)

-- Where another connection has been opened while the topology was on its way, the topology is cached
-- for that connection: every page still finds that the topology is to be loaded, and loading it shows
-- the same one again, without a request, after which it is still to be loaded.
pub answer_topology_misfiled :
    (t : Topology) (s : Page)
    → is_empty s.browse.connection_id ≡ false
    → (t.connection_id == s.browse.connection_id) ≡ false
    → let s' = answer_topology (ok t) s in
      let (s'', request) = load_topology false s' in
      (topology_due s' ≡ true)
      × (request ≡ none)
      × (s''.topology ≡ some t)
      × (topology_due s'' ≡ true)
unfolding answer_topology load_topology cached_topology topology_or_ask show_topology topology_due
answer_topology_misfiled t s named other =
    let due : (not (t.connection_id == s.browse.connection_id) && true) ≡ true = rw other refl in
    rw (named, lookup-set_same s.browse.connection_id t s.topology_cache, if◌then◌else◌)
      (due, refl, refl, due)
