-- ===== src/ServerApiState/Mirror/Known.antt =====
-- Which ids the client of apps/gti-client/src/serverAPIState.ts can look up, now and when it reads
-- the messages that are under way.
use freephite.Base.{
  ℕ, Bool, true, false, not, Option, some, none, List, [], ◌∷◌, ◌++◌, map, ◌≡◌, refl, ◌==◌, ◌&&◌,
  ◌||◌, includes, Dict, lookup, insert, delete, lookup-insert, lookup-delete, arith,
}
use freephite.OperationQueue.{OperationProgress, queue_progress, spawn_progress, exit_progress}
use freephite.ServerApiState.{Operation, known_operations}

-- Under `id` stands an operation with that id.
abbrev has_id : ℕ → Option Operation → Bool
has_id id none = false
has_id id (some op) = op.id == id

unfoldable pub knows : Dict Operation → ℕ → Bool
knows by_id id = has_id id (lookup id by_id)

unfoldable pub knows_all : Dict Operation → List ℕ → Bool
unfolding knows
knows_all by_id [] = true
knows_all by_id (id ∷ ids) = knows by_id id && knows_all by_id ids

-- No id of the second list is in the first.
unfoldable pub avoids : List ℕ → List ℕ → Bool
avoids used [] = true
avoids used (id ∷ ids) = not (includes id used) && avoids used ids

unfoldable pub distinct : List ℕ → Bool
distinct [] = true
distinct (id ∷ ids) = not (includes id ids) && distinct ids

-- The queue that a message tells.
abbrev pub queue_of : OperationProgress → List ℕ
queue_of (queue_progress id queue) = queue
queue_of (spawn_progress id queue) = queue
queue_of p = []

-- The id that the client forgets at a message.
abbrev pub exited : OperationProgress → Option ℕ
exited (exit_progress id code) = some id
exited p = none

abbrev pub forget : Option ℕ → Dict Operation → Dict Operation
forget none by_id = by_id
forget (some id) by_id = delete id by_id

abbrev pub is_other : ℕ → Option ℕ → Bool
is_other id none = true
is_other id (some j) = not (id == j)

-- Whether the client knows the ids of each message when it reads it, and those of `waiting` when
-- it has read all.
unfoldable pub knows_then : Dict Operation → List OperationProgress → List ℕ → Bool
unfolding knows_all
knows_then by_id [] waiting = knows_all by_id waiting
knows_then by_id (p ∷ ps) waiting =
    knows_all by_id (queue_of p) && knows_then (forget (exited p) by_id) ps waiting

-- No message under way makes the client forget `id`.
unfoldable pub outlives : ℕ → List OperationProgress → Bool
outlives id [] = true
outlives id (p ∷ ps) = is_other id (exited p) && outlives id ps

-- What is looked up is all there, in order.
pub map-known_operations :
    (ids : List ℕ) (by_id : Dict Operation)
    → knows_all by_id ids ≡ true
    → map (λ op. op.id) (known_operations ids by_id) ≡ ids
unfolding knows_all known_operations
map-known_operations [] by_id h = refl
map-known_operations (id ∷ ids) by_id h = ground (arith, map-known_operations ids by_id)

pub knows_all-append :
    (by_id : Dict Operation) (xs ys : List ℕ)
    → knows_all by_id (xs ++ ys) ≡ (knows_all by_id xs && knows_all by_id ys)
unfolding knows_all
knows_all-append by_id [] ys = refl
knows_all-append by_id (x ∷ xs) ys = ground (arith, knows_all-append by_id xs ys)

pub includes-append :
    (x : ℕ) (ys zs : List ℕ) → includes x (ys ++ zs) ≡ (includes x ys || includes x zs)
unfolding includes
includes-append x [] zs = refl
includes-append x (y ∷ ys) zs = ground (arith, includes-append x ys zs)

knows-insert :
    (by_id : Dict Operation) (op : Operation) (id : ℕ)
    → knows (insert op.id op by_id) id ≡ ((op.id == id) || knows by_id id)
unfolding knows
knows-insert by_id op id = ground (arith, lookup-insert op.id id op by_id)

knows-delete :
    (by_id : Dict Operation) (id j : ℕ)
    → knows (delete j by_id) id ≡ (not (j == id) && knows by_id id)
unfolding knows
knows-delete by_id id j = ground (arith, lookup-delete j id by_id)

-- More is known than before.
abbrev Extends : Dict Operation → Dict Operation → Type 0
Extends small large = (id : ℕ) → knows small id ≡ true → knows large id ≡ true

Extends-insert : (by_id : Dict Operation) (op : Operation) → Extends by_id (insert op.id op by_id)
Extends-insert by_id op id h = ground (arith, knows-insert by_id op id)

Extends-forget :
    (small large : Dict Operation) (o : Option ℕ)
    → Extends small large
    → Extends (forget o small) (forget o large)
Extends-forget small large none e = e
Extends-forget small large (some j) e =
    λ id h. ground (arith, knows-delete small id j, knows-delete large id j, e id)

knows_all-Extends :
    (small large : Dict Operation) (ids : List ℕ)
    → Extends small large
    → knows_all small ids ≡ true
    → knows_all large ids ≡ true
unfolding knows_all
knows_all-Extends small large [] e h = refl
knows_all-Extends small large (id ∷ ids) e h =
    ground (arith, e id, knows_all-Extends small large ids e)

knows_then-Extends :
    (ps : List OperationProgress) (small large : Dict Operation) (waiting : List ℕ)
    → Extends small large
    → knows_then small ps waiting ≡ true
    → knows_then large ps waiting ≡ true
unfolding knows_then
knows_then-Extends [] small large waiting e h = knows_all-Extends small large waiting e h
knows_then-Extends (p ∷ ps) small large waiting e h = ground (
  arith,
  knows_all-Extends small large (queue_of p) e,
  knows_then-Extends ps (forget (exited p) small) (forget (exited p) large) waiting
      (Extends-forget small large (exited p) e),
)

knows-forget :
    (by_id : Dict Operation) (id : ℕ) (o : Option ℕ)
    → is_other id o ≡ true
    → knows by_id id ≡ true
    → knows (forget o by_id) id ≡ true
knows-forget by_id id none h k = k
knows-forget by_id id (some j) h k = ground (arith, knows-delete by_id id j)

knows_then_more :
    (ps : List OperationProgress) (by_id : Dict Operation) (waiting : List ℕ) (id : ℕ)
    → knows by_id id ≡ true
    → outlives id ps ≡ true
    → knows_then by_id ps waiting ≡ true
    → knows_then by_id ps (waiting ++ id ∷ []) ≡ true
unfolding knows_then outlives knows_all
knows_then_more [] by_id waiting id k o h =
    rw (knows_all-append by_id waiting (id ∷ [])) (ground arith)
knows_then_more (p ∷ ps) by_id waiting id k o h = ground (
  arith,
  knows-forget by_id id (exited p),
  knows_then_more ps (forget (exited p) by_id) waiting id,
)

-- A new operation is known until it exits, which no message under way tells.
pub knows_then-insert :
    (ps : List OperationProgress) (by_id : Dict Operation) (waiting : List ℕ) (op : Operation)
    → outlives op.id ps ≡ true
    → knows_then by_id ps waiting ≡ true
    → knows_then (insert op.id op by_id) ps (waiting ++ op.id ∷ []) ≡ true
knows_then-insert ps by_id waiting op o h =
    knows_then_more ps (insert op.id op by_id) waiting op.id
      (ground (arith, knows-insert by_id op op.id)) o
      (knows_then-Extends ps by_id (insert op.id op by_id) waiting (Extends-insert by_id op) h)

pub knows_then_fewer :
    (ps : List OperationProgress) (by_id : Dict Operation) (xs ys : List ℕ)
    → ((d : Dict Operation) → knows_all d xs ≡ true → knows_all d ys ≡ true)
    → knows_then by_id ps xs ≡ true
    → knows_then by_id ps ys ≡ true
unfolding knows_then
knows_then_fewer [] by_id xs ys f h = f by_id h
knows_then_fewer (p ∷ ps) by_id xs ys f h =
    ground (arith, knows_then_fewer ps (forget (exited p) by_id) xs ys f)

-- No id of the list is the one that is forgotten.
abbrev pub none_exits : Option ℕ → List ℕ → Bool
none_exits none ids = true
none_exits (some j) ids = not (includes j ids)

knows_all-forget :
    (by_id : Dict Operation) (ids : List ℕ) (o : Option ℕ)
    → none_exits o ids ≡ true
    → knows_all by_id ids ≡ true
    → knows_all (forget o by_id) ids ≡ true
unfolding knows_all includes
knows_all-forget by_id ids none n h = h
knows_all-forget by_id [] (some j) n h = refl
knows_all-forget by_id (id ∷ ids) (some j) n h =
    ground (arith, knows-delete by_id id j, knows_all-forget by_id ids (some j))

-- The server may send a message that tells of waiting operations, or that one that does not wait
-- has exited.
pub knows_then-push :
    (ps : List OperationProgress) (by_id : Dict Operation) (waiting : List ℕ)
    (p : OperationProgress)
    → ((d : Dict Operation) → knows_all d waiting ≡ true → knows_all d (queue_of p) ≡ true)
    → none_exits (exited p) waiting ≡ true
    → knows_then by_id ps waiting ≡ true
    → knows_then by_id (ps ++ p ∷ []) waiting ≡ true
unfolding knows_then
knows_then-push [] by_id waiting p f n h =
    ground (arith, f by_id h, knows_all-forget by_id waiting (exited p))
knows_then-push (q ∷ ps) by_id waiting p f n h =
    ground (arith, knows_then-push ps (forget (exited q) by_id) waiting p f n)

pub outlives-push :
    (id : ℕ) (ps : List OperationProgress) (p : OperationProgress)
    → outlives id (ps ++ p ∷ []) ≡ (outlives id ps && is_other id (exited p))
unfolding outlives
outlives-push id [] p = ground arith
outlives-push id (q ∷ ps) p = ground (arith, outlives-push id ps p)

pub distinct-push :
    (ids : List ℕ) (id : ℕ)
    → distinct ids ≡ true
    → includes id ids ≡ false
    → distinct (ids ++ id ∷ []) ≡ true
unfolding distinct includes
distinct-push [] id h n = refl
distinct-push (j ∷ ids) id h n =
    ground (arith, distinct-push ids id, includes-append j ids (id ∷ []))

pub distinct-drop : (xs ys : List ℕ) → distinct (xs ++ ys) ≡ true → distinct ys ≡ true
unfolding distinct
distinct-drop [] ys h = h
distinct-drop (x ∷ xs) ys h = ground (arith, distinct-drop xs ys)
