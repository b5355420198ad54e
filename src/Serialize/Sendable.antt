-- ===== src/Serialize/Sendable.antt =====
-- Which values can be sent, for libs/gti-shared/src/serialize.ts, and which ones JSON can carry.
use Prim.Native.String.{String}
use mathlib.Core.Bool.{Bool, true, false, not, ◌&&◌}
use mathlib.Core.Option.{none, some}
use Prim.Native.Nat.{suc}
use freephite.Base.{leb}
use text.Mathlib.Text.{◌==◌}
use freephite.Serialize.Values.{
  Number, whole, negative, fraction, plain_error, other_error, max_time, Value, undefined, null,
  str, num, bool, array, object, js_map, js_set, error, date, Items, nil, cons, Fields, end, field,
  Entries, no_entry, entry, same_key,
}

-- No property of the object is called `k`.
unfoldable pub absent_field : String → Fields → Bool
absent_field k end = true
absent_field k (field j v fs) = not (j == k) && absent_field k fs

-- No property of the first object is one of the second.
unfoldable pub apart_fields : Fields → Fields → Bool
unfolding absent_field
apart_fields end acc = true
apart_fields (field k v fs) acc = absent_field k acc && apart_fields fs acc

unfoldable pub absent_key : Value → Entries → Bool
absent_key k no_entry = true
absent_key k (entry j v es) = not (same_key j k) && absent_key k es

-- No key of the first Map is one of the second.
unfoldable pub apart_entries : Entries → Entries → Bool
unfolding absent_key
apart_entries no_entry acc = true
apart_entries (entry k v es) acc = absent_key k acc && apart_entries es acc

unfoldable pub absent_item : Value → Items → Bool
absent_item v nil = true
absent_item v (cons w xs) = not (same_key w v) && absent_item v xs

-- No element of the first Set is one of the second.
unfoldable pub apart_items : Items → Items → Bool
unfolding absent_item
apart_items nil acc = true
apart_items (cons v xs) acc = absent_item v acc && apart_items xs acc

unfoldable pub distinct_items : Items → Bool
unfolding apart_items
distinct_items nil = true
distinct_items (cons v xs) = apart_items xs (cons v nil) && distinct_items xs

-- JSON has the numbers that are finite and not -0, which it makes 0.
unfoldable pub is_exact : Number → Bool
is_exact (whole n) = true
is_exact (negative n) = true
is_exact (fraction below n part) = true
is_exact _ = false

-- A valid Date has as its time a whole number of milliseconds.
unfoldable pub is_time : Number → Bool
is_time (whole n) = leb n max_time
is_time (negative n) = leb (suc n) max_time
is_time _ = false

-- What every JavaScript value fulfils (the properties of an object, the keys of a Map and the
-- elements of a Set are distinct), and four conditions: no object has a property with the name
-- of the tag or with the name `__proto__`, every error is of the class Error itself and has a stack,
-- every number is finite and not -0, and every Date is valid.
unfoldable mutual
  unfolding apart_fields apart_entries distinct_items is_exact is_time

  pub is_sendable : Value → Bool
  is_sendable (js_map es) = are_sendable_entries es
  is_sendable (js_set xs) = distinct_items xs && are_sendable xs
  is_sendable (error plain_error m (some s)) = true
  is_sendable (error plain_error m none) = false
  is_sendable (error (other_error name) m s) = false
  is_sendable (array xs) = are_sendable xs
  is_sendable (object fs) = are_sendable_fields fs
  is_sendable undefined = true
  is_sendable null = true
  is_sendable (str s) = true
  is_sendable (num n) = is_exact n
  is_sendable (bool b) = true
  is_sendable (date t) = is_time t

  pub are_sendable : Items → Bool
  are_sendable nil = true
  are_sendable (cons x xs) = is_sendable x && are_sendable xs

  pub are_sendable_entries : Entries → Bool
  are_sendable_entries no_entry = true
  are_sendable_entries (entry k v es) =
      is_sendable k
      && is_sendable v
      && apart_entries es (entry k v no_entry)
      && are_sendable_entries es

  pub are_sendable_fields : Fields → Bool
  are_sendable_fields end = true
  are_sendable_fields (field k v fs) =
      not (k == "__rpcType")
      && not (k == "__proto__")
      && is_sendable v
      && apart_fields fs (field k v end)
      && are_sendable_fields fs

-- Texts, numbers that are finite and not -0, Booleans and null, in arrays and in plain objects with distinct names.
unfoldable mutual
  unfolding apart_fields is_exact

  pub is_json : Value → Bool
  is_json null = true
  is_json (str s) = true
  is_json (num n) = is_exact n
  is_json (bool b) = true
  is_json (array xs) = are_json xs
  is_json (object fs) = are_json_fields fs
  is_json undefined = false
  is_json (js_map es) = false
  is_json (js_set xs) = false
  is_json (error c m s) = false
  is_json (date t) = false

  pub are_json : Items → Bool
  are_json nil = true
  are_json (cons x xs) = is_json x && are_json xs

  pub are_json_fields : Fields → Bool
  are_json_fields end = true
  are_json_fields (field k v fs) =
      is_json v && apart_fields fs (field k v end) && are_json_fields fs
