-- ===== src/Serialize/Roundtrip.antt =====
-- Sending a value and reading it again, for libs/gti-shared/src/serialize.ts.
use Prim.Native.String.{String}
use mathlib.Core.Bool.{true, false}
use mathlib.Core.Option.{Option, some, none}
use mathlib.Core.Path.{◌≡◌, refl, sym, ◌∙◌}
use text.Mathlib.Text.{◌==◌}
use text.Mathlib.TextEquality.{eq_iff}
use native.Mathlib.Omega.{arith}
use freephite.Serialize.Sendable.{
  is_sendable, are_sendable, are_sendable_entries, are_sendable_fields, apart_fields, is_json,
  are_json, are_json_fields, is_exact, is_time,
}
use freephite.Serialize.Built.{
  append_fields, append_fields-end, append_fields_assoc, set_field-append, apart_fields-append,
  apart_fields-end, new_map_lem, new_set_lem,
}
use freephite.Serialize.{
  Number, whole, negative, fraction, negative_zero, nan, infinity, negative_infinity, plain_error,
  other_error, time_of, Value, undefined, null, str, num, bool, array, object, js_map, js_set,
  error, date, Items, nil, cons, Fields, end, field, Entries, no_entry, entry, tag, serialize,
  serialize_items, serialize_entries, serialize_fields, deserialize, deserialize_items,
  deserialize_fields, deserialize_pairs, serialize_to_string, deserialize_from_string, lookup_field,
  by_tag, error_of, date_of,
}

abbrev plain : Fields → Fields
plain end = end
plain (field k v fs) = field k (serialize v) (plain fs)

-- Only the name of a property counts.
apart_fields-value :
    (fs : Fields) (k : String) (v w : Value)
    → apart_fields fs (field k w end) ≡ apart_fields fs (field k v end)
unfolding apart_fields
apart_fields-value end k v w = refl
apart_fields-value (field j u fs) k v w = ground (arith, apart_fields-value fs k v w)

apart_fields-tag :
    (fs : Fields) (v : Value)
    → are_sendable_fields fs ≡ true
    → apart_fields fs (field tag v end) ≡ true
unfolding apart_fields is_sendable
apart_fields-tag end v h = refl
apart_fields-tag (field k w fs) v h =
    ground (arith, apart_fields-tag fs v, eq_iff k tag, eq_iff tag k)

not_tag :
    (k : String) (v : Value) (fs : Fields)
    → are_sendable_fields (field k v fs) ≡ true
    → (k == tag) ≡ false
unfolding is_sendable
not_tag k v fs h = ground arith

not_proto :
    (k : String) (v : Value) (fs : Fields)
    → are_sendable_fields (field k v fs) ≡ true
    → (k == "__proto__") ≡ false
unfolding is_sendable
not_proto k v fs h = ground arith

time_of-is_time : (t : Number) → is_time t ≡ true → time_of t ≡ t
unfolding time_of is_time
time_of-is_time (whole n) h = ground arith
time_of-is_time (negative n) h = ground arith
time_of-is_time (fraction b n p) h = cc
time_of-is_time negative_zero h = cc
time_of-is_time nan h = refl
time_of-is_time infinity h = cc
time_of-is_time negative_infinity h = cc

is_exact-is_time : (t : Number) → is_time t ≡ true → is_exact t ≡ true
unfolding is_exact is_time
is_exact-is_time (whole n) h = refl
is_exact-is_time (negative n) h = refl
is_exact-is_time (fraction b n p) h = refl
is_exact-is_time negative_zero h = h
is_exact-is_time nan h = h
is_exact-is_time infinity h = h
is_exact-is_time negative_infinity h = h

serialize_fields-append :
    (fs acc : Fields)
    → are_sendable_fields fs ≡ true
    → apart_fields fs acc ≡ true
    → serialize_fields fs acc ≡ append_fields acc (plain fs)
unfolding serialize is_sendable apart_fields
serialize_fields-append end acc h g = sym (append_fields-end acc)
serialize_fields-append (field k v fs) acc h g =
    rw (set_field-append k (serialize v) acc (not_proto k v fs h) (ground arith)) (
      serialize_fields-append fs (append_fields acc (field k (serialize v) end)) (ground arith) (
        apart_fields-append fs acc (field k (serialize v) end) (ground arith)
          (apart_fields-value fs k v (serialize v) ∙ ground arith))
      ∙ append_fields_assoc acc (field k (serialize v) end) (plain fs))

serialize_fields_lem :
    (fs : Fields)
    → are_sendable_fields fs ≡ true
    → serialize_fields fs (field tag (str "object") end) ≡ field tag (str "object") (plain fs)
serialize_fields_lem fs h =
    serialize_fields-append fs (field tag (str "object") end) h
      (apart_fields-tag fs (str "object") h)

mutual
  unfolding deserialize serialize is_sendable apart_fields by_tag lookup_field error_of date_of

  deserialize-serialize_value :
      (v : Value) → is_sendable v ≡ true → deserialize (serialize v) ≡ some v
  deserialize-serialize_value undefined h = refl
  deserialize-serialize_value null h = refl
  deserialize-serialize_value (str s) h = refl
  deserialize-serialize_value (num n) h = refl
  deserialize-serialize_value (bool b) h = refl
  deserialize-serialize_value (date t) h = rw (time_of-is_time t h) refl
  deserialize-serialize_value (error plain_error m (some s)) h = refl
  deserialize-serialize_value (error plain_error m none) h = cc
  deserialize-serialize_value (error (other_error name) m s) h = cc
  deserialize-serialize_value (array xs) h = rw (deserialize_items-serialize_items xs h) refl
  deserialize-serialize_value (js_map es) h =
      rw (deserialize_pairs-serialize_entries es h, new_map_lem es h) refl
  deserialize-serialize_value (js_set xs) h =
      rw
        (
          deserialize_items-serialize_items xs (ground arith),
          new_set_lem xs (ground arith) (ground arith),
        )
        refl
  deserialize-serialize_value (object fs) h =
      rw (serialize_fields_lem fs h, deserialize_fields-plain fs end h (apart_fields-end fs)) refl

  deserialize_items-serialize_items :
      (xs : Items) → are_sendable xs ≡ true → deserialize_items (serialize_items xs) ≡ some xs
  deserialize_items-serialize_items nil h = refl
  deserialize_items-serialize_items (cons x xs) h =
      rw
        (
          deserialize-serialize_value x (ground arith),
          deserialize_items-serialize_items xs (ground arith),
        )
        refl

  deserialize_pairs-serialize_entries :
      (es : Entries)
      → are_sendable_entries es ≡ true
      → deserialize_pairs (serialize_entries es) ≡ some es
  deserialize_pairs-serialize_entries no_entry h = refl
  deserialize_pairs-serialize_entries (entry k v es) h =
      rw
        (
          deserialize-serialize_value k (ground arith),
          deserialize-serialize_value v (ground arith),
          deserialize_pairs-serialize_entries es (ground arith),
        )
        refl

  deserialize_fields-plain :
      (fs acc : Fields)
      → are_sendable_fields fs ≡ true
      → apart_fields fs acc ≡ true
      → deserialize_fields (plain fs) acc ≡ some (append_fields acc fs)
  deserialize_fields-plain end acc h g = rw (append_fields-end acc) refl
  deserialize_fields-plain (field k v fs) acc h g =
      rw
        (
          not_tag k v fs h,
          deserialize-serialize_value v (ground arith),
          set_field-append k v acc (not_proto k v fs h) (ground arith),
          deserialize_fields-plain fs (append_fields acc (field k v end)) (ground arith)
              (apart_fields-append fs acc (field k v end) (ground arith) (ground arith)),
        )
        (rw (append_fields_assoc acc (field k v end) fs) refl)

apart_fields-plain : (fs acc : Fields) → apart_fields (plain fs) acc ≡ apart_fields fs acc
unfolding apart_fields
apart_fields-plain end acc = refl
apart_fields-plain (field k v fs) acc = ground (arith, apart_fields-plain fs acc)

mutual
  unfolding serialize is_sendable is_json apart_fields

  serialize-is_json_value : (v : Value) → is_sendable v ≡ true → is_json (serialize v) ≡ true
  serialize-is_json_value undefined h = refl
  serialize-is_json_value null h = refl
  serialize-is_json_value (str s) h = refl
  serialize-is_json_value (num n) h = h
  serialize-is_json_value (bool b) h = refl
  serialize-is_json_value (date t) h = rw (is_exact-is_time t h) refl
  serialize-is_json_value (error plain_error m (some s)) h = refl
  serialize-is_json_value (error plain_error m none) h = cc
  serialize-is_json_value (error (other_error name) m s) h = cc
  serialize-is_json_value (array xs) h = serialize_items-are_json xs h
  serialize-is_json_value (js_map es) h = rw (serialize_entries-are_json es h) refl
  serialize-is_json_value (js_set xs) h = rw (serialize_items-are_json xs (ground arith)) refl
  serialize-is_json_value (object fs) h = rw (serialize_fields_lem fs h) (
      rw
        (apart_fields-plain fs (field tag (str "object") end), apart_fields-tag fs (str "object") h)
        (plain-are_json fs h))

  serialize_items-are_json :
      (xs : Items) → are_sendable xs ≡ true → are_json (serialize_items xs) ≡ true
  serialize_items-are_json nil h = refl
  serialize_items-are_json (cons x xs) h =
      ground (arith, serialize-is_json_value x, serialize_items-are_json xs)

  serialize_entries-are_json :
      (es : Entries) → are_sendable_entries es ≡ true → are_json (serialize_entries es) ≡ true
  serialize_entries-are_json no_entry h = refl
  serialize_entries-are_json (entry k v es) h =
      ground
        (arith, serialize-is_json_value k, serialize-is_json_value v, serialize_entries-are_json es)

  plain-are_json : (fs : Fields) → are_sendable_fields fs ≡ true → are_json_fields (plain fs) ≡ true
  plain-are_json end h = refl
  plain-are_json (field k v fs) h = ground (
    arith,
    serialize-is_json_value v,
    plain-are_json fs,
    apart_fields-plain fs (field k (serialize v) end),
    apart_fields-value fs k v (serialize v),
  )

-- The serialized form of a value that can be sent, at any depth, holds texts, numbers that are finite
-- and not -0, Booleans and null only, in arrays and plain objects whose property names are distinct.
pub serialize-is_json : (v : Value) → is_sendable v ≡ true → is_json (serialize v) ≡ true
serialize-is_json v h = serialize-is_json_value v h

-- If JSON gives back every value that it can carry, then a value that can be sent (whose objects
-- have no property with the name of the tag or the name `__proto__`, whose errors are of the class
-- Error and have a stack, whose numbers are finite and not -0, and whose Dates are valid) is read
-- again as itself, Maps, Sets, Dates, errors and undefined at any depth included.
pub deserialize_from_string-serialize_to_string :
    {Wire : Type 0} (stringify : Value → Wire) (parse : Wire → Option Value)
    → ((j : Value) → is_json j ≡ true → parse (stringify j) ≡ some j)
    → (v : Value) → is_sendable v ≡ true
    → deserialize_from_string parse (serialize_to_string stringify v) ≡ some v
unfolding serialize_to_string deserialize_from_string
deserialize_from_string-serialize_to_string stringify parse json v h =
    rw (json (serialize v) (serialize-is_json v h)) (deserialize-serialize_value v h)
