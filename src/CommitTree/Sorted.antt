-- ===== src/CommitTree/Sorted.antt =====
-- The order in which getCommitTree of apps/gti-client/src/getCommitTree.ts puts commits, described
-- by their dates alone.
use freephite.Base.{
  ℕ, ◌≤◌, Bool, true, List, [], ◌∷◌, ◌≡◌, refl, ap, ◌∙◌, ◌==◌, leb, if◌then◌else◌, filter,
  Bool-cases, inl, inr, arith,
}
use freephite.CommitTree.{BranchInfo, place, sort_by_time_decreasing}

-- What holds of every commit of a list.
abbrev pub All : (BranchInfo → Type 0) → List BranchInfo → Type 0
All P [] = Unit {0}
All P (c ∷ cs) = P c × All P cs

pub All-place :
    (P : BranchInfo → Type 0) (c : BranchInfo) (cs : List BranchInfo)
    → P c
    → All P cs
    → All P (place c cs)
unfolding place
All-place P c [] p h = (p, tt)
All-place P c (d ∷ ds) p h = elim (Bool-cases (leb d.date c.date)) [
  | inl first ↦ rw first (p, h)
  | inr later ↦ rw later (h.0, All-place P c ds p h.1)
]

pub All-sort :
    (P : BranchInfo → Type 0) (cs : List BranchInfo) → All P cs → All P (sort_by_time_decreasing cs)
unfolding sort_by_time_decreasing
All-sort P [] h = h
All-sort P (c ∷ cs) h = All-place P c (sort_by_time_decreasing cs) h.0 (All-sort P cs h.1)

-- What holds of the commits that a filter keeps, under the filter's test.
pub All-filter :
    (P Q : BranchInfo → Type 0) (test : BranchInfo → Bool) (cs : List BranchInfo)
    → ((c : BranchInfo) → P c → test c ≡ true → Q c)
    → All P cs
    → All Q (filter test cs)
All-filter P Q test [] f h = h
All-filter P Q test (c ∷ cs) f h = elim (Bool-cases (test c)) [
  | inl kept ↦ rw kept (f c h.0 kept, All-filter P Q test cs f h.1)
  | inr left ↦ rw left (All-filter P Q test cs f h.1)
]

-- The commits of one date, in order.
abbrev pub at_date : ℕ → List BranchInfo → List BranchInfo
at_date date cs = filter (λ c. c.date == date) cs

-- No commit comes before a later one.
abbrev pub IsLatestFirst : List BranchInfo → Type 0
IsLatestFirst [] = Unit {0}
IsLatestFirst (c ∷ cs) = All (λ d. d.date ≤ c.date) cs × IsLatestFirst cs

-- The second list is the first one with the latest commits first: it has the same commits of every
-- date, those of one date in the same order.
pub record IsArranged (xs cs : List BranchInfo) : Type 0 where
  pub latest_first : IsLatestFirst cs
  pub same_at : (date : ℕ) → at_date date cs ≡ at_date date xs

All-trans :
    (a b : ℕ) (cs : List BranchInfo) → a ≤ b → All (λ d. d.date ≤ a) cs → All (λ d. d.date ≤ b) cs
All-trans a b [] h k = tt
All-trans a b (c ∷ cs) h k = (omega (arith, h, k.0), All-trans a b cs h k.1)

place-IsLatestFirst :
    (c : BranchInfo) (cs : List BranchInfo) → IsLatestFirst cs → IsLatestFirst (place c cs)
unfolding place
place-IsLatestFirst c [] h = (tt, tt)
place-IsLatestFirst c (d ∷ ds) h = elim (Bool-cases (leb d.date c.date)) [
  | inl first ↦
      let le : d.date ≤ c.date = ground arith in
      rw first ((le, All-trans d.date c.date ds le h.0), h)
  | inr later ↦
      rw later
        (All-place (λ e. e.date ≤ d.date) c ds (ground arith) h.0, place-IsLatestFirst c ds h.1)
]

at_date-place :
    (date : ℕ) (c : BranchInfo) (cs : List BranchInfo)
    → at_date date (place c cs) ≡ at_date date (c ∷ cs)
unfolding place
at_date-place date c [] = refl
at_date-place date c (d ∷ ds) =
    let rest = at_date-place date c ds in
    elim (Bool-cases (leb d.date c.date)) [
      | inl first ↦ rw first refl
      | inr later ↦ rw later (rw rest (ground arith))
    ]

at_date-sort :
    (date : ℕ) (cs : List BranchInfo) → at_date date (sort_by_time_decreasing cs) ≡ at_date date cs
unfolding sort_by_time_decreasing
at_date-sort date [] = refl
at_date-sort date (c ∷ cs) =
    at_date-place date c (sort_by_time_decreasing cs)
    ∙ ap (λ l. if c.date == date then c ∷ l else l) (at_date-sort date cs)

sort-IsLatestFirst : (cs : List BranchInfo) → IsLatestFirst (sort_by_time_decreasing cs)
unfolding sort_by_time_decreasing
sort-IsLatestFirst [] = tt
sort-IsLatestFirst (c ∷ cs) =
    place-IsLatestFirst c (sort_by_time_decreasing cs) (sort-IsLatestFirst cs)

pub sort-IsArranged : (cs : List BranchInfo) → IsArranged cs (sort_by_time_decreasing cs)
sort-IsArranged cs = record {
  latest_first = sort-IsLatestFirst cs;
  same_at = λ date. at_date-sort date cs;
}

filter-IsLatestFirst :
    (test : BranchInfo → Bool) (cs : List BranchInfo)
    → IsLatestFirst cs
    → IsLatestFirst (filter test cs)
filter-IsLatestFirst test [] h = tt
filter-IsLatestFirst test (c ∷ cs) h =
    let rest = filter-IsLatestFirst test cs h.1 in
    elim (Bool-cases (test c)) [
      | inl kept ↦
          let below : BranchInfo → Type 0 = λ d. d.date ≤ c.date in
          rw kept (All-filter below below test cs (λ d k t. k) h.0, rest)
      | inr left ↦ rw left rest
    ]

filter_swap :
    (f g : BranchInfo → Bool) (cs : List BranchInfo)
    → filter f (filter g cs) ≡ filter g (filter f cs)
filter_swap f g [] = refl
filter_swap f g (c ∷ cs) =
    let rest = filter_swap f g cs in
    elim (Bool-cases (f c)) [
      | inl k ↦ elim (Bool-cases (g c)) [
        | inl k' ↦ rw (k, k') (rw k (ap (λ l. c ∷ l) rest))
        | inr k' ↦ rw (k, k') rest
      ]
      | inr k ↦ elim (Bool-cases (g c)) [
        | inl k' ↦ rw (k, k') (rw k rest)
        | inr k' ↦ rw (k, k') rest
      ]
    ]

pub filter-IsArranged :
    (test : BranchInfo → Bool) (xs cs : List BranchInfo)
    → IsArranged xs cs
    → IsArranged (filter test xs) (filter test cs)
filter-IsArranged test xs cs h = record {
  latest_first = filter-IsLatestFirst test cs h.latest_first;
  same_at = λ date.
      filter_swap (λ c. c.date == date) test cs
      ∙ (ap (filter test) (h.same_at date) ∙ filter_swap test (λ c. c.date == date) xs);
}
