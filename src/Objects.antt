-- ===== src/Objects.antt =====
-- The lists of webembed/src/app.js that keep the newest item first: recent and pinned objects, and
-- schema snapshots.
pub mod Laws
use rowake.Prelude.{
  ℕ, Text, lit, Bool, true, false, not, Option, none, some, List, [], ◌∷◌, ◌++◌, if◌then◌else◌,
  take, filter, find, any, ◌==◌,
}
use rowake.Json.{Json, str, obj, Fields, field, end, get, text_of, is_text, put_field}

-- `[item, ...items.filter(candidate => key(candidate) !== key(item))].slice(0, limit)`
abbrev pub has_key {ℓ} : {A : Type ℓ} → (A → Text) → Text → A → Bool
has_key key k x = key x == k

unfoldable pub put_first {ℓ} : {A : Type ℓ} → (A → Text) → ℕ → A → List A → List A
put_first key limit x xs = take limit (x ∷ filter (λ y. not (has_key key (key x) y)) xs)

-- `objectKey`, on an object that may come from storage
unfoldable pub object_key : Json → Text
unfolding get text_of
object_key item =
    text_of (get (lit "connection_scope") item)
    ++ lit ":"
    ++ text_of (get (lit "schema") item)
    ++ lit "."
    ++ text_of (get (lit "table") item)

-- The item for a table; `stamp` is the name of the field with the time.
unfoldable pub object_item : Text → Text → Text → Text → Text → Json
object_item stamp now scope schema table = obj (
    field (lit "connection_scope") (str scope) (
      field (lit "schema") (str schema)
        (field (lit "table") (str table) (field stamp (str now) end))))

abbrev pub object_limit : ℕ
object_limit = 50

-- `rememberObject`, on the list of recent objects
unfoldable pub remember_object : Text → Text → Text → Text → List Json → List Json
unfolding object_item object_key put_first
remember_object now scope schema table items =
    put_first object_key object_limit (object_item (lit "visited_at") now scope schema table) items

unfoldable pub is_pinned : Json → List Json → Bool
unfolding object_key
is_pinned item items = any (has_key object_key (object_key item)) items

-- `toggleSelectedObjectPin`, on the list of pinned objects
unfoldable pub toggle_pin : Text → Text → Text → Text → List Json → List Json
unfolding object_item is_pinned put_first
toggle_pin now scope schema table items =
    let item = object_item (lit "pinned_at") now scope schema table in
    if is_pinned item items
    then filter (λ y. not (has_key object_key (object_key item) y)) items
    else put_first object_key object_limit item items

-- A snapshot from the server, an object, with the scope assigned to it.
unfoldable pub scoped : Text → Fields → Json
unfolding put_field
scoped scope snapshot = obj (put_field (lit "connection_scope") (str scope) snapshot)

abbrev snapshot_limit : ℕ
snapshot_limit = 10

unfoldable pub of_scope : Text → Json → Bool
unfolding is_text get
of_scope scope item = is_text scope (get (lit "connection_scope") item)

-- `captureSchemaSnapshot`, on the list of snapshots
unfoldable pub capture_schema : Text → Fields → List Json → List Json
unfolding scoped of_scope
capture_schema scope snapshot items =
    take snapshot_limit (scoped scope snapshot ∷ filter (λ item. not (of_scope scope item)) items)

-- the baseline of `compareSchemaSnapshot`
unfoldable pub baseline : Text → List Json → Option Json
unfolding of_scope
baseline scope items = find (of_scope scope) items
