-- ===== src/Serialize/Built.antt =====
-- Objects, Maps and Sets that are built from distinct parts, for libs/gti-shared/src/serialize.ts.
use Prim.Native.String.{String}
use mathlib.Core.Bool.{true, false, ◌&&◌}
use mathlib.Core.Path.{◌≡◌, refl, sym, ◌∙◌}
use native.Mathlib.Omega.{arith}
use text.Mathlib.Text.{◌==◌}
use freephite.Serialize.Values.{
  whole, negative, fraction, negative_zero, nan, infinity, negative_infinity, Value, undefined,
  null, str, num, bool, js_map, js_set, error, date, array, object, assign, key_of, Items, nil,
  cons, Fields, end, field, Entries, no_entry, entry, set_field, map_set, set_add, new_map, new_set,
}
use freephite.Serialize.Sendable.{
  absent_field, apart_fields, absent_key, apart_entries, absent_item, apart_items, distinct_items,
  is_sendable, are_sendable, are_sendable_entries,
}

abbrev pub append_fields : Fields → Fields → Fields
append_fields end gs = gs
append_fields (field k v fs) gs = field k v (append_fields fs gs)

abbrev append_entries : Entries → Entries → Entries
append_entries no_entry gs = gs
append_entries (entry k v es) gs = entry k v (append_entries es gs)

abbrev append_items : Items → Items → Items
append_items nil ys = ys
append_items (cons x xs) ys = cons x (append_items xs ys)

pub append_fields-end : (fs : Fields) → append_fields fs end ≡ fs
append_fields-end end = refl
append_fields-end (field k v fs) = rw (append_fields-end fs) refl

pub append_fields_assoc :
    (a b c : Fields) → append_fields (append_fields a b) c ≡ append_fields a (append_fields b c)
append_fields_assoc end b c = refl
append_fields_assoc (field k v a) b c = rw (append_fields_assoc a b c) refl

append_entries-no_entry : (es : Entries) → append_entries es no_entry ≡ es
append_entries-no_entry no_entry = refl
append_entries-no_entry (entry k v es) = rw (append_entries-no_entry es) refl

append_items-nil : (xs : Items) → append_items xs nil ≡ xs
append_items-nil nil = refl
append_items-nil (cons v xs) = rw (append_items-nil xs) refl

append_entries_assoc :
    (a b c : Entries)
    → append_entries (append_entries a b) c ≡ append_entries a (append_entries b c)
append_entries_assoc no_entry b c = refl
append_entries_assoc (entry k v a) b c = rw (append_entries_assoc a b c) refl

append_items_assoc :
    (a b c : Items) → append_items (append_items a b) c ≡ append_items a (append_items b c)
append_items_assoc nil b c = refl
append_items_assoc (cons v a) b c = rw (append_items_assoc a b c) refl

assign-append :
    (k : String) (v : Value) (acc : Fields)
    → absent_field k acc ≡ true
    → assign k v acc ≡ append_fields acc (field k v end)
unfolding assign absent_field
assign-append k v end h = refl
assign-append k v (field j w acc) h = ground (arith, assign-append k v acc)

pub set_field-append :
    (k : String) (v : Value) (acc : Fields)
    → (k == "__proto__") ≡ false
    → absent_field k acc ≡ true
    → set_field k v acc ≡ append_fields acc (field k v end)
unfolding set_field
set_field-append k v acc other h = rw other (assign-append k v acc h)

key_of_sendable : (v : Value) → is_sendable v ≡ true → key_of v ≡ v
unfolding key_of is_sendable
key_of_sendable (num (whole n)) h = refl
key_of_sendable (num (negative n)) h = refl
key_of_sendable (num (fraction b n p)) h = refl
key_of_sendable (num negative_zero) h = cc
key_of_sendable (num nan) h = refl
key_of_sendable (num infinity) h = refl
key_of_sendable (num negative_infinity) h = refl
key_of_sendable undefined h = refl
key_of_sendable null h = refl
key_of_sendable (str s) h = refl
key_of_sendable (bool b) h = refl
key_of_sendable (js_map es) h = refl
key_of_sendable (js_set xs) h = refl
key_of_sendable (error c m s) h = refl
key_of_sendable (date t) h = refl
key_of_sendable (array xs) h = refl
key_of_sendable (object fs) h = refl

map_set-append :
    (k v : Value) (acc : Entries)
    → is_sendable k ≡ true
    → absent_key k acc ≡ true
    → map_set k v acc ≡ append_entries acc (entry k v no_entry)
unfolding map_set absent_key
map_set-append k v no_entry sendable h = rw (key_of_sendable k sendable) refl
map_set-append k v (entry j w acc) sendable h = ground (arith, map_set-append k v acc sendable)

set_add-append :
    (v : Value) (acc : Items)
    → is_sendable v ≡ true
    → absent_item v acc ≡ true
    → set_add v acc ≡ append_items acc (cons v nil)
unfolding set_add absent_item
set_add-append v nil sendable h = rw (key_of_sendable v sendable) refl
set_add-append v (cons w acc) sendable h = ground (arith, set_add-append v acc sendable)

absent_field-append :
    (k : String) (a b : Fields)
    → absent_field k (append_fields a b) ≡ (absent_field k a && absent_field k b)
unfolding absent_field
absent_field-append k end b = refl
absent_field-append k (field j v a) b = ground (arith, absent_field-append k a b)

absent_key-append :
    (k : Value) (a b : Entries)
    → absent_key k (append_entries a b) ≡ (absent_key k a && absent_key k b)
unfolding absent_key
absent_key-append k no_entry b = refl
absent_key-append k (entry j v a) b = ground (arith, absent_key-append k a b)

absent_item-append :
    (v : Value) (a b : Items)
    → absent_item v (append_items a b) ≡ (absent_item v a && absent_item v b)
unfolding absent_item
absent_item-append v nil b = refl
absent_item-append v (cons w a) b = ground (arith, absent_item-append v a b)

pub apart_fields-append :
    (fs a b : Fields)
    → apart_fields fs a ≡ true
    → apart_fields fs b ≡ true
    → apart_fields fs (append_fields a b) ≡ true
unfolding apart_fields
apart_fields-append end a b h g = refl
apart_fields-append (field k v fs) a b h g =
    ground (arith, absent_field-append k a b, apart_fields-append fs a b)

apart_entries-append :
    (es a b : Entries)
    → apart_entries es a ≡ true
    → apart_entries es b ≡ true
    → apart_entries es (append_entries a b) ≡ true
unfolding apart_entries
apart_entries-append no_entry a b h g = refl
apart_entries-append (entry k v es) a b h g =
    ground (arith, absent_key-append k a b, apart_entries-append es a b)

apart_items-append :
    (xs a b : Items)
    → apart_items xs a ≡ true
    → apart_items xs b ≡ true
    → apart_items xs (append_items a b) ≡ true
unfolding apart_items
apart_items-append nil a b h g = refl
apart_items-append (cons v xs) a b h g =
    ground (arith, absent_item-append v a b, apart_items-append xs a b)

pub apart_entries-no_entry : (es : Entries) → apart_entries es no_entry ≡ true
unfolding apart_entries
apart_entries-no_entry no_entry = refl
apart_entries-no_entry (entry k v es) = apart_entries-no_entry es

apart_items-nil : (xs : Items) → apart_items xs nil ≡ true
unfolding apart_items
apart_items-nil nil = refl
apart_items-nil (cons v xs) = apart_items-nil xs

pub apart_fields-end : (fs : Fields) → apart_fields fs end ≡ true
unfolding apart_fields
apart_fields-end end = refl
apart_fields-end (field k v fs) = apart_fields-end fs

new_map-append :
    (es acc : Entries)
    → are_sendable_entries es ≡ true
    → apart_entries es acc ≡ true
    → new_map es acc ≡ append_entries acc es
unfolding new_map is_sendable apart_entries
new_map-append no_entry acc h g = sym (append_entries-no_entry acc)
new_map-append (entry k v es) acc h g = rw (map_set-append k v acc (ground arith) (ground arith)) (
    new_map-append es (append_entries acc (entry k v no_entry)) (ground arith)
      (apart_entries-append es acc (entry k v no_entry) (ground arith) (ground arith))
    ∙ append_entries_assoc acc (entry k v no_entry) es)

new_set-append :
    (xs acc : Items)
    → are_sendable xs ≡ true
    → distinct_items xs ≡ true
    → apart_items xs acc ≡ true
    → new_set xs acc ≡ append_items acc xs
unfolding new_set distinct_items apart_items is_sendable
new_set-append nil acc sendable h g = sym (append_items-nil acc)
new_set-append (cons v xs) acc sendable h g =
    rw (set_add-append v acc (ground arith) (ground arith)) (
      new_set-append xs (append_items acc (cons v nil)) (ground arith) (ground arith)
        (apart_items-append xs acc (cons v nil) (ground arith) (ground arith))
      ∙ append_items_assoc acc (cons v nil) xs)

-- A Map that is built from the entries of a Map is that Map, and likewise for a Set.
pub new_map_lem : (es : Entries) → are_sendable_entries es ≡ true → new_map es no_entry ≡ es
new_map_lem es h = new_map-append es no_entry h (apart_entries-no_entry es)

pub new_set_lem :
    (xs : Items) → are_sendable xs ≡ true → distinct_items xs ≡ true → new_set xs nil ≡ xs
new_set_lem xs sendable h = new_set-append xs nil sendable h (apart_items-nil xs)
