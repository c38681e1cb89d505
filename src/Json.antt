-- ===== src/Json.antt =====
-- Values of JSON data, as the browser interface reads and writes them without a schema.
use rowake.Prelude.{
  ℕ, Text, lit, Bool, true, false, Option, none, some, List, [], ◌∷◌, ◌≡◌, refl, ap, nat_eq, ◌==◌,
  not, is_empty, if◌then◌else◌, decimal, join,
}

-- A number that is a natural number (both zeros are `nat 0`), or any other under the text that
-- `String` gives it.
pub data Num : Type 0 where
  nat : ℕ → Num
  other : Text → Num

mutual
  pub data Json : Type 0 where
    null : Json
    bool : Bool → Json
    num : Num → Json
    str : Text → Json
    arr : Items → Json
    obj : Fields → Json

  pub data Items : Type 0 where
    nil : Items
    cons : Json → Items → Items

  pub data Fields : Type 0 where
    end : Fields
    field : Text → Json → Fields → Fields

unfoldable pub of_list : List Json → Items
of_list [] = nil
of_list (x ∷ xs) = cons x (of_list xs)

unfoldable pub to_list : Items → List Json
to_list nil = []
to_list (cons x xs) = x ∷ to_list xs

pub to_list-of_list : (xs : List Json) → to_list (of_list xs) ≡ xs
unfolding to_list of_list
to_list-of_list [] = refl
to_list-of_list (x ∷ xs) = ap (x ∷◌) (to_list-of_list xs)

unfoldable pub field_of : Text → Fields → Option Json
unfolding ◌==◌
field_of k end = none
field_of k (field j v fs) = if k == j then some v else field_of k fs

-- `value?.k` for a `k` that is no property of primitives and arrays; `none` is `undefined`.
unfoldable pub get : Text → Json → Option Json
unfolding field_of
get k (obj fs) = field_of k fs
get k j = none

-- `Boolean(value)`
unfoldable pub truthy : Option Json → Bool
unfolding ◌==◌
truthy none = false
truthy (some null) = false
truthy (some (bool b)) = b
truthy (some (num (nat n))) = not (nat_eq n 0)
truthy (some (num (other t))) = not (t == lit "NaN")
truthy (some (str t)) = not (is_empty t)
truthy (some (arr xs)) = true
truthy (some (obj fs)) = true

num_text : Num → Text
num_text (nat n) = decimal n
num_text (other t) = t

-- `String(value)`. An array joins its elements by commas, with nothing for `null`.
unfoldable mutual
  unfolding num_text join

  pub to_text : Json → Text
  to_text null = lit "null"
  to_text (bool true) = lit "true"
  to_text (bool false) = lit "false"
  to_text (num n) = num_text n
  to_text (str t) = t
  to_text (arr xs) = join (lit ",") (items_text xs)
  to_text (obj fs) = lit "[object Object]"

  pub items_text : Items → List Text
  items_text nil = []
  items_text (cons null xs) = [] ∷ items_text xs
  items_text (cons x xs) = to_text x ∷ items_text xs

-- `String(value)` where `undefined` is possible
unfoldable pub text_of : Option Json → Text
unfolding to_text
text_of none = lit "undefined"
text_of (some j) = to_text j

-- `Array.isArray(value) ? value : []`
unfoldable pub array_or_empty : Option Json → List Json
unfolding to_list
array_or_empty (some (arr xs)) = to_list xs
array_or_empty j = []

-- `value === t` for a string `t`
unfoldable pub is_text : Text → Option Json → Bool
unfolding ◌==◌
is_text t (some (str s)) = s == t
is_text t j = false

-- `value || fallback` as a string
unfoldable pub text_or : Option Json → Text → Text
unfolding truthy text_of
text_or j fallback = if truthy j then text_of j else fallback

-- `object.k = v`, on the fields of an object
unfoldable pub put_field : Text → Json → Fields → Fields
unfolding ◌==◌
put_field k v end = field k v end
put_field k v (field j w fs) = if k == j then field j v fs else field j w (put_field k v fs)

unfoldable pub assign_fields : Fields → Fields → Fields
unfolding put_field
assign_fields fs end = fs
assign_fields fs (field k v gs) = assign_fields (put_field k v fs) gs

-- `Object.assign(target, source)`
unfoldable pub assign : Json → Json → Json
unfolding assign_fields
assign (obj fs) (obj gs) = obj (assign_fields fs gs)
assign target source = target
