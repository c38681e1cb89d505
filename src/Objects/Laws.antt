-- ===== src/Objects/Laws.antt =====
-- What the lists with the newest item first guarantee.
use rowake.Prelude.{
  ℕ, zero, suc, ◌≤◌, Text, lit, ◌≡◌, refl, Bool, true, false, not, some, List, [], ◌∷◌, map, arith,
  if◌then◌else◌, take, filter, find, any, ==_refl, ==_iff, elem, length, length-take-le,
  length-filter-le, Bool-cases, inl, inr,
}
use rowake.Json.{Json, Fields, field, end, field_of, get, is_text, put_field}
use rowake.Objects.{
  has_key, put_first, object_key, object_item, object_limit, remember_object, is_pinned, toggle_pin,
  scoped, of_scope, capture_schema, baseline,
}

-- No text occurs twice.
abbrev pub Distinct : List Text → Type 0
Distinct [] = Unit
Distinct (t ∷ ts) = (elem t ts ≡ false) × Distinct ts

module _ {ℓ} {A : Type ℓ} (key : A → Text) where
  elem-filter_self :
      (k : Text) (xs : List A) → elem k (map key (filter (λ y. not (has_key key k y)) xs)) ≡ false
  unfolding elem
  elem-filter_self k [] = refl
  elem-filter_self k (x ∷ xs) =
      ground (arith, elem-filter_self k xs, ==_iff (key x) k, ==_iff k (key x))

  elem-filter :
      (p : A → Bool) (k : Text) (xs : List A)
      → elem k (map key xs) ≡ false
      → elem k (map key (filter p xs)) ≡ false
  unfolding elem
  elem-filter p k [] h = refl
  elem-filter p k (x ∷ xs) h = ground (arith, elem-filter p k xs)

  elem-take :
      (n : ℕ) (k : Text) (xs : List A)
      → elem k (map key xs) ≡ false
      → elem k (map key (take n xs)) ≡ false
  unfolding elem
  elem-take zero k xs h = refl
  elem-take (suc n) k [] h = refl
  elem-take (suc n) k (x ∷ xs) h = ground (arith, elem-take n k xs)

  filter-Distinct :
      (p : A → Bool) (xs : List A) → Distinct (map key xs) → Distinct (map key (filter p xs))
  filter-Distinct p [] h = h
  filter-Distinct p (x ∷ xs) h = elim (Bool-cases (p x)) [
    | inl e ↦ rw (e, if◌then◌else◌) (elem-filter p (key x) xs h.0, filter-Distinct p xs h.1)
    | inr e ↦ rw (e, if◌then◌else◌) (filter-Distinct p xs h.1)
  ]

  take-Distinct : (n : ℕ) (xs : List A) → Distinct (map key xs) → Distinct (map key (take n xs))
  take-Distinct zero xs h = tt
  take-Distinct (suc n) [] h = tt
  take-Distinct (suc n) (x ∷ xs) h = (elem-take n (key x) xs h.0, take-Distinct n xs h.1)

  put_first-Distinct :
      (n : ℕ) (x : A) (xs : List A)
      → Distinct (map key xs)
      → Distinct (map key (put_first key n x xs))
  unfolding put_first
  put_first-Distinct n x xs h =
      take-Distinct n (x ∷ filter _ xs) (elem-filter_self (key x) xs, filter-Distinct _ xs h)

  any-filter_self :
      (k : Text) (xs : List A)
      → any (has_key key k) (filter (λ y. not (has_key key k y)) xs) ≡ false
  any-filter_self k [] = refl
  any-filter_self k (x ∷ xs) = ground (arith, any-filter_self k xs)

-- The list has no object twice and is within the limit.
pub record IsKept (items : List Json) : Type 0 where
  pub distinct : Distinct (map object_key items)
  pub count : length items ≤ object_limit

put_first-IsKept :
    (item : Json) (items : List Json)
    → IsKept items
    → IsKept (put_first object_key object_limit item items)
unfolding put_first
put_first-IsKept item items kept = record {
  distinct = put_first-Distinct object_key object_limit item items kept.distinct;
  count = length-take-le object_limit (item ∷ filter _ items);
}

filter-IsKept : (p : Json → Bool) (items : List Json) → IsKept items → IsKept (filter p items)
filter-IsKept p items kept = record {
  distinct = filter-Distinct object_key p items kept.distinct;
  count = omega (arith, length-filter-le p items, kept.count);
}

-- A visit puts the object first and drops its earlier entry, so that the list has every object once
-- and at most 50 of them, if this was so before.
pub remember_object-IsKept :
    (now scope schema table : Text) (items : List Json)
    → IsKept items
    → IsKept (remember_object now scope schema table items)
      × (find (λ item. true) (remember_object now scope schema table items)
          ≡ some (object_item (lit "visited_at") now scope schema table))
unfolding remember_object put_first
remember_object-IsKept now scope schema table items kept =
    (put_first-IsKept (object_item (lit "visited_at") now scope schema table) items kept, refl)

is_pinned-put_first :
    (item : Json) (items : List Json)
    → is_pinned item (put_first object_key object_limit item items) ≡ true
unfolding is_pinned put_first
is_pinned-put_first item items = rw (==_refl (object_key item)) refl

-- The button for a pin pins an object that was not pinned and unpins one that was, and the list of
-- pins has every object once and at most 50 of them, if this was so before.
pub toggle_pin-IsKept :
    (now scope schema table : Text) (items : List Json)
    → IsKept items
    → let item = object_item (lit "pinned_at") now scope schema table in
      IsKept (toggle_pin now scope schema table items)
      × (is_pinned item (toggle_pin now scope schema table items) ≡ not (is_pinned item items))
unfolding toggle_pin is_pinned put_first
toggle_pin-IsKept now scope schema table items kept = on_pinned (is_pinned item items)
  where
    item : Json
    item = object_item (lit "pinned_at") now scope schema table

    on_pinned :
        (b : Bool)
        → let after =
            if b
            then filter (λ y. not (has_key object_key (object_key item) y)) items
            else put_first object_key object_limit item items in
          IsKept after × (is_pinned item after ≡ not b)
    on_pinned true =
        (filter-IsKept _ items kept, any-filter_self object_key (object_key item) items)
    on_pinned false = (put_first-IsKept item items kept, is_pinned-put_first item items)

field_of-put_field : (k : Text) (v : Json) (fs : Fields) → field_of k (put_field k v fs) ≡ some v
unfolding field_of put_field
field_of-put_field k v end = ground (arith, ==_refl k)
field_of-put_field k v (field j w fs) = ground (arith, field_of-put_field k v fs)

of_scope-scoped : (scope : Text) (snapshot : Fields) → of_scope scope (scoped scope snapshot) ≡ true
unfolding of_scope scoped get is_text
of_scope-scoped scope snapshot = rw field_of-put_field (==_refl scope)

find-filter {ℓ} :
    {A : Type ℓ} (p q : A → Bool) (xs : List A)
    → ((x : A) → p x ≡ true → q x ≡ true)
    → find p (filter q xs) ≡ find p xs
find-filter p q [] h = refl
find-filter p q (x ∷ xs) h = ground (arith, h x, find-filter p q xs h)

-- The snapshot that was captured last for a connection is the baseline of the next comparison
-- there, whatever snapshots there were.
pub baseline-capture_schema :
    (scope : Text) (snapshot : Fields) (items : List Json)
    → baseline scope (capture_schema scope snapshot items) ≡ some (scoped scope snapshot)
unfolding baseline capture_schema
baseline-capture_schema scope snapshot items = rw (of_scope-scoped scope snapshot) refl
