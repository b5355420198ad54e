-- ===== src/Serialize.antt =====
-- libs/gti-shared/src/serialize.ts: values that are sent between the server and its clients.
--
-- `Value` holds the values of both types of the file, Serializable and Serialized, since these
-- share most cases; `is_json` of Sendable tells those that JSON can carry. An object is the list of its
-- own properties in order, a Map the list of its entries, a Set that of its elements. Prototypes are
-- left out, and property names that are integers, which JavaScript puts first, are not set apart.
-- `deserialize` gives `none` where the code throws, and where the value does not have the type
-- that the code casts it to.
mod Values
pub mod Sendable
mod Built
pub mod Roundtrip
use Prim.Native.Nat.{ℕ}
use Prim.Native.String.{String}
use mathlib.Core.Bool.{Bool, true, false, ◌&&◌}
use mathlib.Core.Option
use mathlib.Core.Option.{Option, none, some}
use text.Mathlib.Text.{◌==◌}
use freephite.Base.{if◌then◌else◌}
unfoldable pub use Values.{
  same_number, same_key, key_of, time_of, assign, set_field, map_set, set_add, lookup_field,
  new_map, new_set,
}
pub use Values.{
  Number, whole, negative, fraction, negative_zero, nan, infinity, negative_infinity, ErrorClass,
  plain_error, other_error, Value, undefined, null, str, num, bool, array, object, js_map, js_set,
  error, date, Items, nil, cons, Fields, end, field, Entries, no_entry, entry,
}

abbrev pub tag : String
tag = "__rpcType"

-- An object with the tag `t` and the property `data`.
abbrev pub tagged : String → Value → Value
tagged t v = object (field tag (str t) (field "data" v end))

-- `UNDEFINED_SERIALIZED`.
abbrev pub undefined_serialized : Value
undefined_serialized = object (field tag (str "undefined") end)

-- A property that may be missing, as it is read.
abbrev pub or_undefined : Option String → Value
or_undefined none = undefined
or_undefined (some s) = str s

unfoldable mutual
  pub serialize : Value → Value
  serialize undefined = undefined_serialized
  serialize null = null
  serialize (str s) = str s
  serialize (num n) = num n
  serialize (bool b) = bool b
  serialize (js_map es) = tagged "Map" (array (serialize_entries es))
  serialize (js_set xs) = tagged "Set" (array (serialize_items xs))
  serialize (error class message stack) =
      tagged "Error"
        (object (field "message" (str message) (field "stack" (or_undefined stack) end)))
  serialize (date time) = tagged "Date" (num time)
  serialize (array xs) = array (serialize_items xs)
  serialize (object fs) = object (serialize_fields fs (field tag (str "object") end))

  serialize_items : Items → Items
  serialize_items nil = nil
  serialize_items (cons x xs) = cons (serialize x) (serialize_items xs)

  serialize_entries : Entries → Items
  serialize_entries no_entry = nil
  serialize_entries (entry k v es) =
      cons (array (cons (serialize k) (cons (serialize v) nil))) (serialize_entries es)

  -- The loop over the properties, which assigns to the new object.
  serialize_fields : Fields → Fields → Fields
  serialize_fields end new_obj = new_obj
  serialize_fields (field k v fs) new_obj = serialize_fields fs (set_field k (serialize v) new_obj)

-- `specific.data` of an error.
error_of : Option Value → Option Value
error_of (some (object fs)) = read (lookup_field "message" fs) (lookup_field "stack" fs)
  where
    read : Option Value → Option Value → Option Value
    read (some (str m)) (some (str s)) = some (error plain_error m (some s))
    read (some (str m)) (some undefined) = some (error plain_error m none)
    read (some (str m)) none = some (error plain_error m none)
    read _ _ = none
error_of _ = none

-- `new Date(specific.data)`, of a number or of null
date_of : Option Value → Option Value
unfolding time_of
date_of (some (num time)) = some (date (time_of time))
date_of (some null) = some (date (whole 0))
date_of _ = none

-- The switch over the tag; the branches that read the parts of `specific` are arguments.
by_tag : Option Value → Fields → Option Value → Option Value → Option Value → Option Value
unfolding error_of date_of
by_tag (some (str t)) fs as_map as_set as_object =
    if t == "undefined"
    then some undefined
    else if t == "Map"
    then as_map
    else if t == "Set"
    then as_set
    else if t == "Error"
    then error_of (lookup_field "data" fs)
    else if t == "Date"
    then date_of (lookup_field "data" fs)
    else if t == "object"
    then as_object
    else none
by_tag _ fs as_map as_set as_object = none

infixl 5 ◌>>=◌
abbrev pub ◌>>=◌ {ℓ κ} : {A : Type ℓ} {B : Type κ} → Option A → (A → Option B) → Option B
none >>= f = none
some a >>= f = f a

unfoldable mutual
  unfolding by_tag

  pub deserialize : Value → Option Value
  deserialize undefined = some undefined
  deserialize null = some null
  deserialize (str s) = some (str s)
  deserialize (num n) = some (num n)
  deserialize (bool b) = some (bool b)
  deserialize (array xs) = Option.map array (deserialize_items xs)
  deserialize (object fs) =
      by_tag (lookup_field tag fs) fs
        (Option.map (λ es. js_map (new_map es no_entry)) (map_data fs))
        (Option.map (λ xs. js_set (new_set xs nil)) (set_data fs))
        (Option.map object (deserialize_fields fs end))
  -- An instance of a class has no property with the tag.
  deserialize (js_map es) = none
  deserialize (js_set xs) = none
  deserialize (error c m s) = none
  deserialize (date t) = none

  deserialize_items : Items → Option Items
  deserialize_items nil = some nil
  deserialize_items (cons x xs) = do y ← deserialize x; ys ← deserialize_items xs; some (cons y ys)

  -- The property `data` of the fields, as the entries of a Map.
  map_data : Fields → Option Entries
  map_data end = none
  map_data (field k v fs) = let rest = map_data fs in if k == "data" then pairs_of v else rest

  pairs_of : Value → Option Entries
  pairs_of (array xs) = deserialize_pairs xs
  pairs_of _ = none

  deserialize_pairs : Items → Option Entries
  deserialize_pairs nil = some no_entry
  deserialize_pairs (cons x xs) = do
    p ← deserialize_pair x
    es ← deserialize_pairs xs
    some (entry p.0 p.1 es)

  -- `([key, value]) => [deserialize(key), deserialize(value)]`, a missing part being undefined.
  deserialize_pair : Value → Option (Value × Value)
  deserialize_pair (array nil) = some (undefined, undefined)
  deserialize_pair (array (cons k nil)) = Option.map (λ a. (a, undefined)) (deserialize k)
  deserialize_pair (array (cons k (cons v _))) = do
    a ← deserialize k
    b ← deserialize v
    some (a, b)
  deserialize_pair _ = none

  -- The property `data` of the fields, as the elements of a Set.
  set_data : Fields → Option Items
  set_data end = none
  set_data (field k v fs) = let rest = set_data fs in if k == "data" then elements_of v else rest

  elements_of : Value → Option Items
  elements_of (array xs) = deserialize_items xs
  elements_of _ = none

  -- The loop over the properties, which leaves the tag out.
  deserialize_fields : Fields → Fields → Option Fields
  deserialize_fields end new_obj = some new_obj
  deserialize_fields (field k v fs) new_obj =
      let kept = (do w ← deserialize v; deserialize_fields fs (set_field k w new_obj)) in
      let skipped = deserialize_fields fs new_obj in if k == tag then skipped else kept

-- `JSON.stringify` and `JSON.parse` are arguments, and so is the type of the texts between them.
unfoldable pub serialize_to_string : {Wire : Type 0} → (Value → Wire) → Value → Wire
serialize_to_string stringify v = stringify (serialize v)

unfoldable pub deserialize_from_string :
    {Wire : Type 0} → (Wire → Option Value) → Wire → Option Value
deserialize_from_string parse text = parse text >>= deserialize
