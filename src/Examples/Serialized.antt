-- ===== src/Examples/Serialized.antt =====
-- A value at which the theorems on libs/gti-shared/src/serialize.ts are applied: the status of some
-- commits, with a Map, a Set, a Date, an error and undefined.
use mathlib.Core.Bool.{true, false}
use mathlib.Core.Path.{◌≡◌, refl}
use mathlib.Core.Option.{some}
use freephite.Serialize.{
  whole, fraction, other_error, plain_error, Value, undefined, null, str, num, bool, array, object,
  js_map, js_set, error, date, nil, cons, end, field, no_entry, entry, same_key, lookup_field,
  set_field, serialize, deserialize, serialize_to_string, deserialize_from_string,
}
use freephite.Serialize.Sendable.{is_sendable, is_json}
use freephite.Serialize.Roundtrip.{serialize-is_json, deserialize_from_string-serialize_to_string}

abbrev status : Value
status = object (
    field "commits"
      (js_map (
        entry (str "main") (js_set (cons (num (whole 1)) (cons (num (fraction true 2 5)) nil)))
          (entry undefined (array (cons null (cons (bool false) nil))) no_entry)))
      (field "fetched" (date (whole 1700))
        (field "failure" (error plain_error "no repository" (some "at line 1")) end)))

status_sendable : is_sendable status ≡ true
unfolding is_sendable same_key
status_sendable = refl

serialize-is_json_example : is_json (serialize status) ≡ true
serialize-is_json_example = serialize-is_json status status_sendable

deserialize_from_string-serialize_to_string_example :
    deserialize_from_string some (serialize_to_string (λ v. v) status) ≡ some status
deserialize_from_string-serialize_to_string_example =
    deserialize_from_string-serialize_to_string (λ v. v) some (λ j h. refl) status status_sendable

-- A property with the name of the tag replaces the tag.
tag_lost :
    deserialize (serialize (object (field "__rpcType" (str "undefined") end))) ≡ some undefined
unfolding serialize deserialize lookup_field set_field
tag_lost = refl

-- One with the name of the prototype is lost, and an error of another class becomes a plain one.
proto_lost :
    deserialize (serialize (object (field "__proto__" (str "a") (field "b" null end))))
    ≡ some (object (field "b" null end))
unfolding serialize deserialize lookup_field set_field
proto_lost = refl

class_lost :
    deserialize (serialize (error (other_error "TypeError") "m" (some "s")))
    ≡ some (error plain_error "m" (some "s"))
unfolding serialize deserialize lookup_field
class_lost = refl
