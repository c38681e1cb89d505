-- ===== src/Lifecycle/Listed.antt =====
-- The list of connections through all handlers of Lifecycle.
use rowake.Prelude.{
  Text, lit, ◌≡◌, refl, sym, subst, ◌==◌, ==-eq, ==_refl, Bool, true, false, Option, none, some,
  List, [], ◌∷◌, ◌++◌, if◌then◌else◌, Bool-cases, inl, inr, find, not, either_branch,
}
use rowake.Workspace.{Settings}
use rowake.Data.{Connection, Catalog}
use rowake.Schema.{lookup, set}
use rowake.Browse.Load.{PageRequest}
use rowake.Lifecycle.{
  Page, Answer, failed, ok, toast, opened_text, submitted_word, has_connection_id,
  replace_connection, connections_route, finish, After, changed, submitted, refreshed, Await, done,
  for_catalog, for_table,
}
use rowake.Lifecycle.Opening.{
  table_or_finish, catalog_here, cached_or_ask, load_catalog, catalog_failed, answer_catalog, Reply,
  catalog_reply, table_reply, resume, change_of, starting, uncached, relisted, change_connection,
  refresh_catalog, answer_reconnect, answer_disconnect, forget, without, removed, answer_remove,
}
use rowake.Lifecycle.Opening.Changing.{navigate-Keeps, arrive-Keeps}
use rowake.Lifecycle.Form.{registered, answer_submit}

-- No two connections have the same id.
pub data IsDistinct : List Connection → Type 0 where
  none_listed : IsDistinct []
  one_more :
      (c : Connection) (cs : List Connection)
      → find (has_connection_id c.id) cs ≡ none
      → IsDistinct cs
      → IsDistinct (c ∷ cs)

find-none-head :
    (k : Text) (c : Connection) (cs : List Connection)
    → find (has_connection_id k) (c ∷ cs) ≡ none
    → ((c.id == k) ≡ false) × (find (has_connection_id k) cs ≡ none)
find-none-head k c cs e = elim (Bool-cases (c.id == k)) [
  | inl t ↦
      let k : some c ≡ none =
        subst (λ b. (if b then some c else find (has_connection_id k) cs) ≡ none) t e in
      cc
  | inr f ↦ (f, subst (λ b. (if b then some c else find (has_connection_id k) cs) ≡ none) f e)
]

find-none_cons :
    (k : Text) (c : Connection) (cs : List Connection)
    → (c.id == k) ≡ false
    → find (has_connection_id k) cs ≡ none
    → find (has_connection_id k) (c ∷ cs) ≡ none
find-none_cons k c cs f e = rw (f, if◌then◌else◌) e

==_false_sym : (a b : Text) → (a == b) ≡ false → (b == a) ≡ false
==_false_sym a b h = elim (Bool-cases (b == a)) [
  | inl t ↦ absurd (cc (h, subst (λ x. (a == x) ≡ true) (sym (==-eq b a t)) (==_refl a)))
  | inr f ↦ f
]

find-none-replace :
    (k : Text) (c : Connection) (cs : List Connection)
    → (c.id == k) ≡ false
    → find (has_connection_id k) cs ≡ none
    → find (has_connection_id k) (replace_connection c cs) ≡ none
unfolding replace_connection
find-none-replace k c [] other e = rw (other, if◌then◌else◌) refl
find-none-replace k c (d ∷ cs) other e =
    let (away, rest) = find-none-head k d cs e in
    either_branch (λ (l : List Connection). find (has_connection_id k) l ≡ none)
      (has_connection_id c.id d) (c ∷ cs) (d ∷ replace_connection c cs)
      (find-none_cons k c cs other rest)
      (find-none_cons k d _ away (find-none-replace k c cs other rest))

replace_connection-IsDistinct :
    (c : Connection) (cs : List Connection) → IsDistinct cs → IsDistinct (replace_connection c cs)
unfolding replace_connection
replace_connection-IsDistinct c [] none_listed = one_more c [] refl none_listed
replace_connection-IsDistinct c (d ∷ cs) (one_more d' cs' new rest) =
    elim (Bool-cases (d.id == c.id)) [
      | inl t ↦
          rw (t, if◌then◌else◌)
            (one_more c cs
              (subst (λ k. find (has_connection_id k) cs ≡ none) (==-eq d.id c.id t) new) rest)
      | inr f ↦
          rw (f, if◌then◌else◌)
            (one_more d _ (find-none-replace d.id c cs (==_false_sym d.id c.id f) new)
              (replace_connection-IsDistinct c cs rest))
    ]

find-none-without :
    (k id : Text) (cs : List Connection)
    → find (has_connection_id k) cs ≡ none
    → find (has_connection_id k) (without id cs) ≡ none
unfolding without
find-none-without k id [] e = refl
find-none-without k id (c ∷ cs) e =
    let (away, rest) = find-none-head k c cs e in
    either_branch (λ (l : List Connection). find (has_connection_id k) l ≡ none)
      (not (has_connection_id id c)) (c ∷ without id cs) (without id cs)
      (find-none_cons k c _ away (find-none-without k id cs rest)) (find-none-without k id cs rest)

without-IsDistinct : (id : Text) (cs : List Connection) → IsDistinct cs → IsDistinct (without id cs)
unfolding without
without-IsDistinct id [] none_listed = none_listed
without-IsDistinct id (c ∷ cs) (one_more c' cs' new rest) =
    either_branch IsDistinct _ _ _
      (one_more c _ (find-none-without c.id id cs new) (without-IsDistinct id cs rest))
      (without-IsDistinct id cs rest)

module _ (settings : Settings) (persistence : Bool) where
  finish-connections :
      (after : After) (s : Page) → (finish persistence after s).connections ≡ s.connections
  unfolding finish
  finish-connections (changed c) s =
      (arrive-Keeps c.destination (toast (opened_text s) s)).connections
  finish-connections (submitted u) s =
      (navigate-Keeps (lit "browse")
        (toast (submitted_word persistence u ++ lit " " ++ u.connection.name) s)).connections
  finish-connections refreshed s = refl

  table_or_finish-connections :
      (after : After) (o : Option PageRequest) (s : Page)
      → (table_or_finish settings persistence after o s).0.connections ≡ s.connections
  unfolding table_or_finish
  table_or_finish-connections after none s = finish-connections after s
  table_or_finish-connections after (some r) s = refl

  catalog_here-connections :
      (b : Bool) (after : After) (catalog : Catalog) (s : Page)
      → (catalog_here settings persistence b after catalog s).0.connections ≡ s.connections
  unfolding catalog_here
  catalog_here-connections b after catalog s = table_or_finish-connections after _ _

  cached_or_ask-connections :
      (id : Text) (b : Bool) (after : After) (o : Option Catalog) (s : Page)
      → (cached_or_ask settings persistence id b after o s).0.connections ≡ s.connections
  unfolding cached_or_ask
  cached_or_ask-connections id b after none s = refl
  cached_or_ask-connections id b after (some catalog) s = catalog_here-connections b after catalog s

  load_catalog-connections :
      (id : Text) (b : Bool) (after : After) (s : Page)
      → (load_catalog settings persistence id b after s).0.connections ≡ s.connections
  unfolding load_catalog
  load_catalog-connections id b after s =
      cached_or_ask-connections id b after (lookup id s.catalog_cache) _

  change_connection-connections :
      (id destination : Text) (s : Page)
      → (change_connection settings persistence id destination s).0.connections ≡ s.connections
  unfolding change_connection
  change_connection-connections id destination s =
      either_branch (λ (r : Page × Await). r.0.connections ≡ s.connections) _ _ _
        (either_branch (λ (t : Page). t.connections ≡ s.connections) _ _ _
          (navigate-Keeps (lit "browse") s).connections refl)
        (load_catalog-connections id true (changed (change_of destination s))
          (starting id destination s))

  resume-connections :
      (w : Await) (r : Reply settings persistence) (s : Page)
      → (resume settings persistence w r s).0.connections ≡ s.connections
  unfolding resume answer_catalog catalog_failed
  resume-connections done r s = refl
  resume-connections (for_catalog id b (changed c)) (catalog_reply (failed m)) s = refl
  resume-connections (for_catalog id b (submitted u)) (catalog_reply (failed m)) s = refl
  resume-connections (for_catalog id b refreshed) (catalog_reply (failed m)) s = refl
  resume-connections (for_catalog id b after) (catalog_reply (ok catalog)) s =
      catalog_here-connections b after catalog
        (record s { catalog_cache = set id catalog s.catalog_cache })
  resume-connections (for_catalog id b after) (table_reply p) s = refl
  resume-connections (for_table q after) (catalog_reply a) s = refl
  resume-connections (for_table q after) (table_reply p) s = finish-connections after _

  -- One handler, or one answer of the server, of those that read or change the connections.
  pub data Step : Page → Page → Type 0 where
    change_step :
        (id destination : Text) (s : Page)
        → Step s (change_connection settings persistence id destination s).0
    reply_step :
        (w : Await) (r : Reply settings persistence) (s : Page)
        → Step s (resume settings persistence w r s).0
    refresh_step : (s : Page) → Step s (refresh_catalog settings persistence s).0
    reconnect_step :
        (id : Text) (a : Answer Connection) (s : Page)
        → Step s (answer_reconnect settings persistence id a s).0
    disconnect_step :
        (id : Text) (a : Answer Connection) (s : Page) → Step s (answer_disconnect id a s)
    remove_step :
        (c : Connection) (id : Text) (a : Answer Text) (s : Page) → Step s (answer_remove c id a s)
    submit_step :
        (editing_id : Text) (a : Answer Connection) (s : Page)
        → Step s (answer_submit settings persistence editing_id a s).0

  pub data Steps : Page → Page → Type 0 where
    stay : (s : Page) → Steps s s
    after_step : (s t u : Page) → Step s t → Steps t u → Steps s u

  keeps-IsDistinct :
      (s t : Page)
      → t.connections ≡ s.connections
      → IsDistinct s.connections
      → IsDistinct t.connections
  keeps-IsDistinct s t e d = subst IsDistinct (sym e) d

  forget-connections : (id : Text) (s : Page) → (forget id s).connections ≡ s.connections
  unfolding forget
  forget-connections id s =
      either_branch (λ (t : Page). t.connections ≡ s.connections) _ _ _ refl refl

  Step-IsDistinct : (s t : Page) → Step s t → IsDistinct s.connections → IsDistinct t.connections
  unfolding refresh_catalog answer_reconnect answer_disconnect answer_remove answer_submit removed
      registered
  Step-IsDistinct s t (change_step id destination s') d =
      keeps-IsDistinct s t (change_connection-connections id destination s) d
  Step-IsDistinct s t (reply_step w r s') d = keeps-IsDistinct s t (resume-connections w r s) d
  Step-IsDistinct s t (refresh_step s') d =
      keeps-IsDistinct s t
        (load_catalog-connections s.browse.connection_id false refreshed
          (uncached s.browse.connection_id s))
        d
  Step-IsDistinct s t (reconnect_step id (failed m) s') d = d
  Step-IsDistinct s t (reconnect_step id (ok c) s') d =
      keeps-IsDistinct (relisted c s) t
        (change_connection-connections id connections_route (relisted c s))
        (replace_connection-IsDistinct c s.connections d)
  Step-IsDistinct s t (disconnect_step id (failed m) s') d = d
  Step-IsDistinct s t (disconnect_step id (ok c) s') d =
      keeps-IsDistinct (relisted c s) t (forget-connections id (relisted c s))
        (replace_connection-IsDistinct c s.connections d)
  Step-IsDistinct s t (remove_step c id (failed m) s') d = d
  Step-IsDistinct s t (remove_step c id (ok body) s') d =
      keeps-IsDistinct (removed id s) t (forget-connections id (removed id s))
        (without-IsDistinct id s.connections d)
  Step-IsDistinct s t (submit_step id (failed m) s') d = d
  Step-IsDistinct s t (submit_step id (ok c) s') d =
      keeps-IsDistinct (registered c s) t
        (load_catalog-connections c.id true (submitted (record { editing_id = id; connection = c }))
          (registered c s))
        (replace_connection-IsDistinct c s.connections d)

  -- Whatever handlers run and whatever the server answers, in any order and also while other answers
  -- are on their way, connections that are listed under distinct ids stay so.
  pub Steps-IsDistinct :
      (s t : Page) → Steps s t → IsDistinct s.connections → IsDistinct t.connections
  Steps-IsDistinct s t (stay s') d = d
  Steps-IsDistinct s t (after_step s' u t' step steps) d =
      Steps-IsDistinct u t steps (Step-IsDistinct s u step d)
