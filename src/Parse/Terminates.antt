-- ===== src/Parse/Terminates.antt =====
-- The counter of `parseBranchesAndMeta`: without a cycle of parents it is never used up.
use freephite.Base.{
  ℕ, zero, suc, ◌+◌, ◌*◌, ◌/◌, ◌≤◌, ◌<◌, Bool, true, false, ◌||◌, Option, some, List, [], ◌∷◌, ◌++◌,
  ◌≡◌, refl, ap, sym, ◌∙◌, inl, inr, arith, ◌==◌, is_some, includes, length, lookup, Bool-cases,
  Option-cases, ==_iff, length-append,
}
use freephite.Base.Action.{◌>>=◌}
use freephite.Metadata.{Name}
use freephite.Git.{Git}
use freephite.Parse.{BranchToParse, Parsed, usable_parent, parse_loop, parse_queue}
use freephite.Parse.Fresh.{names_of, includes-rotate, IsFresh, push-IsFresh, parsed-IsFresh}
use freephite.Parse.Whole.{IsWhole}
use freephite.Base.Action.{Action, ok}
use freephite.Parse.Rounds.{Answers, is_ready, Adds, parse_step-ready, parse_step-waits}

-- The action returns entries for all the names, with whole links.
abbrev pub ParsesAll : {W : Type 0} → List Name → Action W Parsed → W → Type 0
ParsesAll {W} all m w =
    (parsed : Parsed) × (w' : W) × (m w ≡ (ok parsed, w'))
    × IsWhole parsed
    × ((n : Name) → includes n all ≡ true → is_some (lookup n parsed) ≡ true)

module _ (rank : Name → ℕ) (all : List Name) where
  -- The parent of an entry has a smaller rank: no chain of parents comes back to its start.
  abbrev pub IsRanked : List BranchToParse → Type 0
  IsRanked [] = Unit {0}
  IsRanked (e ∷ q) =
      ((p : Name)
        → usable_parent all e.branch_name e.meta.parent_branch_name ≡ some p
        → rank p < rank e.branch_name)
      × IsRanked q

-- Every name is parsed or still in the queue.
abbrev Covers : List Name → List BranchToParse → Parsed → Type 0
Covers all queue parsed =
    (n : Name)
    → includes n all ≡ true
    → (is_some (lookup n parsed) || includes n (names_of queue)) ≡ true

-- One of the first `d` entries is ready.
ready_within : (BranchToParse → Bool) → ℕ → List BranchToParse → Bool
ready_within ready zero q = false
ready_within ready (suc d) [] = false
ready_within ready (suc d) (e ∷ q) = ready e || ready_within ready d q

ready_within-append :
    (ready : BranchToParse → Bool) (d : ℕ) (q r : List BranchToParse)
    → ready_within ready d q ≡ true
    → ready_within ready d (q ++ r) ≡ true
unfolding ready_within
ready_within-append ready zero q r h = h
ready_within-append ready (suc d) [] r h = cc
ready_within-append ready (suc d) (e ∷ q) r h = ground (arith, ready_within-append ready d q r)

IsRanked-append :
    (rank : Name → ℕ) (all : List Name) (q r : List BranchToParse)
    → IsRanked rank all q
    → IsRanked rank all r
    → IsRanked rank all (q ++ r)
IsRanked-append rank all [] r hq hr = hr
IsRanked-append rank all (e ∷ q) r hq hr = (hq.0, IsRanked-append rank all q r hq.1 hr)

-- An entry with a given name, and that its being ready makes the queue ready.
find_entry :
    (rank : Name → ℕ) (all : List Name) (ready : BranchToParse → Bool) (n : Name)
    (q : List BranchToParse)
    → includes n (names_of q) ≡ true
    → IsRanked rank all q
    → (e : BranchToParse) × (e.branch_name ≡ n)
      × ((p : Name)
          → usable_parent all e.branch_name e.meta.parent_branch_name ≡ some p
          → rank p < rank e.branch_name)
      × (ready e ≡ true → ready_within ready (length q) q ≡ true)
unfolding includes ready_within
find_entry rank all ready n [] h r = cc
find_entry rank all ready n (x ∷ q) h r = elim (Bool-cases (n == x.branch_name)) [
  | inl same ↦ (x, sym ((==_iff n x.branch_name).0 same), r.0, λ h'. rw h')
  | inr other ↦
      let (e, name, ranked, found) = find_entry rank all ready n q (ground arith) r.1 in
      (e, name, ranked, λ h'. ground (arith, found h'))
]

-- A usable parent is one of the names.
usable_parent-includes :
    (all : List Name) (b : Name) (o : Option Name) (p : Name)
    → usable_parent all b o ≡ some p
    → includes p all ≡ true
unfolding usable_parent
usable_parent-includes all b o p h = ground arith

-- The entry of least rank is ready: its parent is not in the queue, so it has been parsed.
some_ready :
    (rank : Name → ℕ) (all : List Name) (trunk_name : Option Name) (queue : List BranchToParse)
    (parsed : Parsed) (k : ℕ) (n : Name)
    → rank n < k
    → includes n (names_of queue) ≡ true
    → IsRanked rank all queue
    → Covers all queue parsed
    → ready_within (is_ready trunk_name all parsed) (length queue) queue ≡ true
some_ready rank all trunk_name queue parsed zero n lt h r c = absurd (omega arith)
some_ready rank all trunk_name queue parsed (suc k) n lt h r c =
    let (e, name, ranked, found) =
      find_entry rank all (is_ready trunk_name all parsed) n queue h r in
    elim (Bool-cases (is_ready trunk_name all parsed e)) [
      | inl ready ↦ found ready
      | inr waits ↦
          elim (Option-cases (usable_parent all e.branch_name e.meta.parent_branch_name)) [
            | inl root ↦ absurd (ground arith)
            | inr (p, parent) ↦
                some_ready rank all trunk_name queue parsed k p
                  (omega (arith, ranked p parent, ap rank name))
                  (ground (
                    arith,
                    c p (
                        usable_parent-includes all e.branch_name e.meta.parent_branch_name p
                          parent),
                  ))
                  r c
          ]
    ]

-- 1 + 2 + … + k
rounds_for : ℕ → ℕ
rounds_for zero = 0
rounds_for (suc k) = suc k + rounds_for k

rounds_for_lem : (k : ℕ) → k * (k + 1) / 2 ≡ rounds_for k
unfolding rounds_for
rounds_for_lem k = let e = twice k in omega arith
  where
    twice : (j : ℕ) → 2 * rounds_for j ≡ j * (j + 1)
    twice zero = omega arith
    twice (suc j) = omega (arith, twice j)

-- The rounds that suffice once the first entry that is ready has been parsed.
rounds_after_one : List BranchToParse → ℕ
rounds_after_one [] = 0
rounds_after_one (e ∷ q) = rounds_for (length q)

shorter :
    (q : List BranchToParse) (d counter : ℕ)
    → suc d + rounds_for (length q) ≤ suc counter
    → length q + rounds_after_one q ≤ counter
unfolding rounds_for rounds_after_one
shorter [] d counter h = omega arith
shorter (e ∷ q) d counter h = omega arith

at_start : (q : List BranchToParse) → length q + rounds_after_one q ≤ rounds_for (length q)
unfolding rounds_for rounds_after_one
at_start [] = omega arith
at_start (e ∷ q) = omega arith

rounds_after_one-rotate :
    (e : BranchToParse) (q : List BranchToParse)
    → rounds_after_one (q ++ e ∷ []) ≡ rounds_for (length q)
unfolding rounds_after_one
rounds_after_one-rotate e [] = refl
rounds_after_one-rotate e (x ∷ q) = ap rounds_for (length-append q (e ∷ []) ∙ (omega arith))

is_empty : List BranchToParse → Bool
is_empty [] = true
is_empty (e ∷ q) = false

near-rotate :
    (ready : BranchToParse → Bool) (d : ℕ) (e : BranchToParse) (q : List BranchToParse)
    → ready_within ready d q ≡ true
    → (is_empty (q ++ e ∷ []) || ready_within ready d (q ++ e ∷ [])) ≡ true
near-rotate ready d e q h = ground (arith, ready_within-append ready d q (e ∷ []) h)

module _ (rank : Name → ℕ) (trunk_name : Option Name) (all : List Name) where
  -- The queue is empty, or holds an entry that is ready.
  near_queue :
      (queue : List BranchToParse) (parsed : Parsed)
      → IsRanked rank all queue
      → Covers all queue parsed
      → (is_empty queue || ready_within (is_ready trunk_name all parsed) (length queue) queue)
        ≡ true
  unfolding is_empty includes
  near_queue [] parsed r c = refl
  near_queue (e ∷ q) parsed r c =
      some_ready rank all trunk_name (e ∷ q) parsed (suc (rank e.branch_name)) e.branch_name
        (omega arith) (ground arith) r c

  rotate-Covers :
      (e : BranchToParse) (q : List BranchToParse) (parsed : Parsed)
      → Covers all (e ∷ q) parsed
      → Covers all (q ++ e ∷ []) parsed
  unfolding includes
  rotate-Covers e q parsed c n h = rw includes-rotate (c n h)

  parsed-Covers :
      (e : BranchToParse) (q : List BranchToParse) (parsed parsed' : Parsed)
      → Adds e.branch_name parsed parsed'
      → Covers all (e ∷ q) parsed
      → Covers all q parsed'
  unfolding includes
  parsed-Covers e q parsed parsed' adds c n h = ground (arith, adds n, c n h)

  module _ {W : Type 0} (git : Git W) (answers : Answers git) where
    -- With an entry ready among the first `d`, `d` rounds parse one, and the shorter queue is then
    -- within its own bound.
    loop-ParsesAll :
        (counter d : ℕ) (queue : List BranchToParse) (parsed : Parsed) (w : W)
        → (is_empty queue || ready_within (is_ready trunk_name all parsed) d queue) ≡ true
        → d + rounds_after_one queue ≤ counter
        → IsRanked rank all queue
        → Covers all queue parsed
        → IsFresh queue parsed
        → IsWhole parsed
        → ParsesAll all (parse_loop git trunk_name all counter queue parsed) w
    unfolding parse_loop includes ready_within rounds_after_one is_empty ◌>>=◌
    loop-ParsesAll counter d [] parsed w near enough r c f o =
        (parsed, w, refl, o, λ n h. ground (arith, c n h))
    loop-ParsesAll zero zero (e ∷ q) parsed w near enough r c f o = cc
    loop-ParsesAll zero (suc d) (e ∷ q) parsed w near enough r c f o = absurd (omega arith)
    loop-ParsesAll (suc counter) zero (e ∷ q) parsed w near enough r c f o = cc
    loop-ParsesAll (suc counter) (suc d) (e ∷ q) parsed w near enough r c f o =
        elim (Bool-cases (is_ready trunk_name all parsed e)) [
          | inl ready ↦
              let (parsed', w', step, adds, keeps) =
                parse_step-ready git answers trunk_name all e parsed w ready in
              let c' = parsed-Covers e q parsed parsed' adds c in
              let (a, s', rest, whole, after) =
                loop-ParsesAll counter (length q) q parsed' w' (near_queue q parsed' r.1 c')
                  (shorter q d counter enough) r.1 c'
                  (parsed-IsFresh e.branch_name q parsed parsed' adds f.1 f.2) (keeps f.0 o) in
              (a, s', rw step rest, whole, after)
          | inr waits ↦
              let (a, s', rest, whole, after) =
                loop-ParsesAll counter d (q ++ e ∷ []) parsed w
                  (near-rotate (is_ready trunk_name all parsed) d e q (ground arith))
                  (rw rounds_after_one-rotate (omega arith))
                  (IsRanked-append rank all q (e ∷ []) r.1 (r.0, tt)) (rotate-Covers e q parsed c)
                  (push-IsFresh e q parsed f) o in
              (
                a,
                s',
                rw (parse_step-waits git answers trunk_name all e parsed w waits) rest,
                whole,
                after,
              )
        ]

-- Where the names are distinct, no chain of usable parents comes back to its start (`rank` falls
-- from a branch to its parent), and git answers, the parser returns before its counter, which
-- starts at n(n + 1) / 2 for n branches, is used up. In its result every branch has an entry, and
-- whatever parent an entry names has an entry that lists the branch as a child.
pub parse_queue-ParsesAll :
    {W : Type 0} (git : Git W) (rank : Name → ℕ) (trunk_name : Option Name)
    (queue : List BranchToParse) (w : W)
    → Answers git
    → IsRanked rank (names_of queue) queue
    → IsFresh queue []
    → ParsesAll (names_of queue) (parse_queue git trunk_name queue) w
unfolding parse_queue lookup
parse_queue-ParsesAll git rank trunk_name queue w answers ranked fresh =
    let all = names_of queue in
    loop-ParsesAll rank trunk_name all git answers (length queue * (length queue + 1) / 2)
      (length queue) queue [] w (near_queue rank trunk_name all queue [] ranked (λ n h. h))
      (rw rounds_for_lem (at_start queue)) ranked (λ n h. h) fresh
      (record { whole = λ c p m e named. absurd (ground arith) })
