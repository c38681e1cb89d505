-- ===== src/Lifecycle/Opening/Removal.antt =====
-- After a removal, and the connections' ids, which stay distinct.
use rowake.Prelude.{
  Text, ◌≡◌, refl, ap, sym, ◌∙◌, ◌==◌, ==-eq, true, false, none, List, [], ◌∷◌, if◌then◌else◌,
  is_empty, Bool-cases, inl, inr, find,
}
use rowake.Data.{Connection}
use rowake.Schema.{Dictionary, lookup}
use rowake.Lifecycle.{Page, ok, has_connection_id}
use rowake.Lifecycle.Opening.{delete, forget, removed, without, answer_remove}

lookup-delete {ℓ} : {A : Type ℓ} (k : Text) (m : Dictionary A) → lookup k (delete k m) ≡ none
unfolding lookup delete
lookup-delete k [] = refl
lookup-delete k ((j, v) ∷ m) = elim (Bool-cases (j == k)) [
  | inl t ↦ rw (t, if◌then◌else◌) (lookup-delete k m)
  | inr f ↦ rw (f, f, if◌then◌else◌) (lookup-delete k m)
]

-- Two different texts are not both equal to a third.
two_ids : (a b c : Text) → (b == c) ≡ false → (a == c) ≡ true → (a == b) ≡ false
two_ids a b c h k = elim (Bool-cases (a == b)) [
  | inl t ↦ absurd (cc (h, sym (ap (◌== c) (==-eq a b t)) ∙ k))
  | inr f ↦ f
]

lookup-delete_other {ℓ} :
    {A : Type ℓ} (k l : Text) (m : Dictionary A)
    → (k == l) ≡ false
    → lookup k (delete l m) ≡ lookup k m
unfolding lookup delete
lookup-delete_other k l [] h = refl
lookup-delete_other k l ((j, v) ∷ m) h = elim (Bool-cases (j == l)) [
  | inl t ↦ rw (t, two_ids j k l h t, if◌then◌else◌) (lookup-delete_other k l m h)
  | inr f ↦ rw (f, lookup-delete_other k l m h, if◌then◌else◌) refl
]

find-without :
    (id : Text) (cs : List Connection) → find (has_connection_id id) (without id cs) ≡ none
unfolding without
find-without id [] = refl
find-without id (c ∷ cs) = elim (Bool-cases (c.id == id)) [
  | inl t ↦ rw (t, if◌then◌else◌) (find-without id cs)
  | inr f ↦ rw (f, f, if◌then◌else◌) (find-without id cs)
]

find-without_other :
    (k id : Text) (cs : List Connection)
    → (k == id) ≡ false
    → find (has_connection_id k) (without id cs) ≡ find (has_connection_id k) cs
unfolding without
find-without_other k id [] h = refl
find-without_other k id (c ∷ cs) h = elim (Bool-cases (c.id == id)) [
  | inl t ↦ rw (t, two_ids c.id k id h t, if◌then◌else◌) (find-without_other k id cs h)
  | inr f ↦ rw (f, find-without_other k id cs h, if◌then◌else◌) refl
]

-- What `forget` does to the page.
record Forgets (id : Text) (s t : Page) : Type 0 where
  connections : t.connections ≡ s.connections
  catalog_cache : t.catalog_cache ≡ s.catalog_cache
  topology_cache : t.topology_cache ≡ s.topology_cache
  closed : (t.browse.connection_id == id) ≡ false

named_away : (id : Text) → is_empty id ≡ false → ([] == id) ≡ false
unfolding ◌==◌
named_away [] h = cc
named_away (c ∷ id) h = refl

forget-Forgets : (id : Text) (s : Page) → is_empty id ≡ false → Forgets id s (forget id s)
unfolding forget
forget-Forgets id s named = elim (Bool-cases (s.browse.connection_id == id)) [
  | inl t ↦
      rw (t, if◌then◌else◌)
        (record {
          connections = refl;
          catalog_cache = refl;
          topology_cache = refl;
          closed = named_away id named;
        })
  | inr f ↦
      rw (f, if◌then◌else◌)
        (record { connections = refl; catalog_cache = refl; topology_cache = refl; closed = f })
]

-- After the server has removed a connection, no connection with its id is listed, nothing is cached
-- for it, and it is not open; each other id finds the same connection, catalog and topology as
-- before.
pub answer_remove_lem :
    (c : Connection) (id body k : Text) (s : Page)
    → is_empty id ≡ false
    → (k == id) ≡ false
    → let t = answer_remove c id (ok body) s in
      (find (has_connection_id id) t.connections ≡ none)
      × (lookup id t.catalog_cache ≡ none)
      × (lookup id t.topology_cache ≡ none)
      × ((t.browse.connection_id == id) ≡ false)
      × (find (has_connection_id k) t.connections ≡ find (has_connection_id k) s.connections)
      × (lookup k t.catalog_cache ≡ lookup k s.catalog_cache)
      × (lookup k t.topology_cache ≡ lookup k s.topology_cache)
unfolding answer_remove removed
answer_remove_lem c id body k s named other =
    let f = forget-Forgets id (removed id s) named in
    rw (f.connections, f.catalog_cache, f.topology_cache)
      (
        find-without id s.connections,
        lookup-delete id s.catalog_cache,
        lookup-delete id s.topology_cache,
        f.closed,
        find-without_other k id s.connections other,
        lookup-delete_other k id s.catalog_cache other,
        lookup-delete_other k id s.topology_cache other,
      )
