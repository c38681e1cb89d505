-- ===== src/Topology/Laws.antt =====
-- The groups of the topology page against the relationships themselves.
use rowake.Prelude.{
  ℕ, ◌+◌, Text, ◌≡◌, refl, ap₂, fun_ext, ◌∙◌, Bool, not, ◌&&◌, some, List, [], ◌∷◌, ◌++◌, map,
  append-nil, append_assoc, arith, if◌then◌else◌, nat_eq, filter, ◌==◌, ==_iff, Bool-cases, inl,
  inr,
}
use rowake.Data.{Table, Topology}
use rowake.Schema.{Dictionary, lookup, set}
use rowake.Topology.{
  Groups, degree, zeroes, count_all, push_table, topology_table_key, from_key, to_key, push_tables,
  degrees, topology_groups,
}

-- How often a text occurs.
abbrev pub count : Text → List Text → ℕ
count k [] = 0
count k (j ∷ js) = (if j == k then 1 else 0) + count k js

lookup-set :
    (j k : Text) (v : ℕ) (m : Dictionary ℕ)
    → lookup j (set k v m) ≡ (if k == j then some v else lookup j m)
unfolding lookup set
lookup-set j k v [] = refl
lookup-set j k v ((i, w) ∷ m) =
    ground (arith, lookup-set j k v m, ==_iff i k, ==_iff i j, ==_iff k j)

degree-set :
    (j k : Text) (v : ℕ) (m : Dictionary ℕ)
    → degree j (set k v m) ≡ (if k == j then v else degree j m)
unfolding degree
degree-set j k v m = ground (arith, lookup-set j k v m)

degree-nil : (k : Text) → degree k [] ≡ 0
unfolding degree lookup
degree-nil k = refl

degree-zeroes :
    (j : Text) (ks : List Text) (m : Dictionary ℕ) → degree j m ≡ 0 → degree j (zeroes ks m) ≡ 0
unfolding zeroes
degree-zeroes j [] m h = h
degree-zeroes j (k ∷ ks) m h = degree-zeroes j ks (set k 0 m) (ground (arith, degree-set j k 0 m))

degree-count_all :
    (j : Text) (ks : List Text) (m : Dictionary ℕ)
    → degree j (count_all ks m) ≡ degree j m + count j ks
unfolding count_all
degree-count_all j [] m = omega arith
degree-count_all j (k ∷ ks) m = ground (
  arith,
  degree-count_all j ks (set k (degree k m + 1) m),
  degree-set j k (degree k m + 1) m,
  ==_iff k j,
)

module _ (encode : Text → Text) where
  degree-degrees :
      (k : Text) (keys : List Text) (tables : List Table)
      → degree k (degrees encode keys tables) ≡ count k keys
  unfolding degrees
  degree-degrees k keys tables =
      let start = zeroes (map (topology_table_key encode) tables) [] in
      omega (
        arith,
        degree-count_all k keys start,
        degree-zeroes k (map (topology_table_key encode) tables) [] (degree-nil k),
      )

  -- A table that relationships leave and none reaches, and the converse.
  abbrev one_way : ℕ → ℕ → Bool
  one_way there back = not (nat_eq there 0) && nat_eq back 0

  module _ (incoming outgoing : Table → ℕ) where
    -- The groups by three tests of the whole list of tables, behind those of `g`.
    abbrev grouped : List Table → Groups → Groups
    grouped ts g = record {
      source = g.source ++ filter (λ t. one_way (outgoing t) (incoming t)) ts;
      bridge =
          g.bridge
          ++ filter
              (λ t.
                not (one_way (outgoing t) (incoming t)) && not (one_way (incoming t) (outgoing t)))
              ts;
      target = g.target ++ filter (λ t. one_way (incoming t) (outgoing t)) ts;
    }

    grouped-nil : (g : Groups) → g ≡ grouped [] g
    grouped-nil g = simp append-nil

    grouped-push_table :
        (t : Table) (ts : List Table) (g : Groups)
        → grouped ts (push_table (incoming t) (outgoing t) t g) ≡ grouped (t ∷ ts) g
    unfolding push_table
    grouped-push_table t ts g = elim (Bool-cases (nat_eq (outgoing t) 0)) [
      | inl o ↦ elim (Bool-cases (nat_eq (incoming t) 0)) [
        | inl i ↦ rw (o, i) (simp append_assoc)
        | inr i ↦ rw (o, i) (simp append_assoc)
      ]
      | inr o ↦ elim (Bool-cases (nat_eq (incoming t) 0)) [
        | inl i ↦ rw (o, i) (simp append_assoc)
        | inr i ↦ rw (o, i) (simp append_assoc)
      ]
    ]

  -- What a map has counted for a table.
  abbrev degree_in : Dictionary ℕ → Table → ℕ
  degree_in m t = degree (topology_table_key encode t) m

  push_tables-grouped :
      (incoming outgoing : Dictionary ℕ) (ts : List Table) (g : Groups)
      → push_tables encode incoming outgoing ts g
        ≡ grouped (degree_in incoming) (degree_in outgoing) ts g
  unfolding push_tables
  push_tables-grouped incoming outgoing [] g =
      grouped-nil (degree_in incoming) (degree_in outgoing) g
  push_tables-grouped incoming outgoing (t ∷ ts) g =
      push_tables-grouped incoming outgoing ts _
      ∙ grouped-push_table (degree_in incoming) (degree_in outgoing) t ts g

  -- How many relationships leave and reach a table.
  abbrev pub out_degree : Topology → Table → ℕ
  out_degree topology t =
      count (topology_table_key encode t) (map (from_key encode) topology.relationships)

  abbrev pub in_degree : Topology → Table → ℕ
  in_degree topology t =
      count (topology_table_key encode t) (map (to_key encode) topology.relationships)

  -- The three groups, by tests on every table.
  abbrev pub groups_of : Topology → Groups
  groups_of topology =
      grouped (in_degree topology) (out_degree topology) topology.tables
        (record { source = []; bridge = []; target = [] })

  -- The first group of the topology page has exactly the tables that relationships leave and none
  -- reaches, the third those that relationships reach and none leaves, and the second all others, in
  -- the order of the tables.
  pub topology_groups-degrees :
      (topology : Topology) → topology_groups encode topology ≡ groups_of topology
  unfolding topology_groups
  topology_groups-degrees topology =
      push_tables-grouped (counted to_keys) (counted from_keys) tables none_yet
      ∙ ap₂ (λ i o. grouped i o tables none_yet) (fun_ext (λ t. exact to_keys t))
          (fun_ext (λ t. exact from_keys t))
    where
      tables : List Table
      tables = topology.tables

      to_keys : List Text
      to_keys = map (to_key encode) topology.relationships

      from_keys : List Text
      from_keys = map (from_key encode) topology.relationships

      counted : List Text → Dictionary ℕ
      counted keys = degrees encode keys tables

      none_yet : Groups
      none_yet = record { source = []; bridge = []; target = [] }

      exact :
          (keys : List Text) (t : Table)
          → degree_in (counted keys) t ≡ count (topology_table_key encode t) keys
      exact keys t = degree-degrees (topology_table_key encode t) keys tables
