-- ===== src/Serialize/Values.antt =====
-- libs/gti-shared/src/serialize.ts: JavaScript values, and how objects, Maps and Sets are built.
use Prim.Native.Nat.{ℕ, zero, suc}
use Prim.Native.String.{String}
use mathlib.Core.Bool.{Bool, true, false, ◌&&◌}
use mathlib.Core.Option.{Option, none, some}
use text.Mathlib.Text.{◌==◌}
use freephite.Base.{◌==◌ as nat_eq, if◌then◌else◌, leb}

-- The numbers of JavaScript, and some that a double cannot hold: `negative n` is -(n + 1), and
-- `fraction below whole part` the finite number that is not whole, below zero or above it, whose whole
-- part is given; `part` tells those with the same whole part apart.
pub data Number : Type 0 where
  whole negative : ℕ → Number
  fraction : Bool → ℕ → ℕ → Number
  negative_zero nan infinity negative_infinity : Number

-- An error of the class Error itself, with no properties of its own but the message and the stack, or
-- another one.
pub data ErrorClass : Type 0 where
  plain_error : ErrorClass
  other_error : String → ErrorClass

mutual
  pub data Value : Type 0 where
    undefined null : Value
    str : String → Value
    num : Number → Value
    bool : Bool → Value
    js_map : Entries → Value
    js_set : Items → Value
    error : ErrorClass → String → Option String → Value
    date : Number → Value
    array : Items → Value
    object : Fields → Value

  pub data Items : Type 0 where
    nil : Items
    cons : Value → Items → Items

  pub data Fields : Type 0 where
    end : Fields
    field : String → Value → Fields → Fields

  pub data Entries : Type 0 where
    no_entry : Entries
    entry : Value → Value → Entries → Entries

-- A property that is there keeps its place.
unfoldable pub assign : String → Value → Fields → Fields
assign k v end = field k v end
assign k v (field j w fs) = if j == k then field j v fs else field j w (assign k v fs)

-- `obj[k] = v`: with the name `__proto__` it sets the prototype, and no property.
unfoldable pub set_field : String → Value → Fields → Fields
unfolding assign
set_field k v fs = if k == "__proto__" then fs else assign k v fs

-- `obj[k]`.
unfoldable pub lookup_field : String → Fields → Option Value
lookup_field k end = none
lookup_field k (field j v fs) = if j == k then some v else lookup_field k fs

-- Whether two numbers are the same key: 0 and -0 are, and so is NaN with itself.
unfoldable pub same_number : Number → Number → Bool
same_number (whole m) (whole n) = nat_eq m n
same_number (whole m) negative_zero = nat_eq m 0
same_number negative_zero (whole n) = nat_eq n 0
same_number negative_zero negative_zero = true
same_number (negative m) (negative n) = nat_eq m n
same_number (fraction true m p) (fraction b n q) = b && nat_eq m n && nat_eq p q
same_number (fraction false m p) (fraction b n q) =
    (if b then false else true) && nat_eq m n && nat_eq p q
same_number nan nan = true
same_number infinity infinity = true
same_number negative_infinity negative_infinity = true
same_number m n = false

-- The largest time of a Date, in milliseconds, before 1970 and after it.
abbrev pub max_time : ℕ
max_time = 8640000000000000

abbrev pub at_time : ℕ → Number
at_time n = if leb n max_time then whole n else nan

abbrev pub before_time : ℕ → Number
before_time zero = whole 0
before_time (suc n) = if leb (suc n) max_time then negative n else nan

-- The time of `new Date(n)`, without its part of a millisecond; NaN is that of an invalid Date.
unfoldable pub time_of : Number → Number
time_of (whole n) = at_time n
time_of (negative n) = before_time (suc n)
time_of (fraction below n part) = if below then before_time n else at_time n
time_of negative_zero = whole 0
time_of _ = nan

-- A Map and a Set keep 0 for the key -0.
unfoldable pub key_of : Value → Value
key_of (num negative_zero) = num (whole 0)
key_of k = k

-- Whether a Map or a Set takes two values for one key. Two objects that were made anew differ.
unfoldable pub same_key : Value → Value → Bool
unfolding same_number
same_key undefined undefined = true
same_key null null = true
same_key (str s) (str t) = s == t
same_key (num m) (num n) = same_number m n
same_key (bool true) (bool b) = b
same_key (bool false) (bool b) = if b then false else true
same_key a b = false

-- `map.set(k, v)`.
unfoldable pub map_set : Value → Value → Entries → Entries
map_set k v no_entry = entry (key_of k) v no_entry
map_set k v (entry j w es) = if same_key j k then entry j v es else entry j w (map_set k v es)

-- `set.add(v)`.
unfoldable pub set_add : Value → Items → Items
set_add v nil = cons (key_of v) nil
set_add v (cons w xs) = if same_key w v then cons w xs else cons w (set_add v xs)

-- `new Map(entries)`, onto the entries so far.
unfoldable pub new_map : Entries → Entries → Entries
new_map no_entry acc = acc
new_map (entry k v es) acc = new_map es (map_set k v acc)

-- `new Set(values)`, onto the elements so far.
unfoldable pub new_set : Items → Items → Items
new_set nil acc = acc
new_set (cons v xs) acc = new_set xs (set_add v acc)
