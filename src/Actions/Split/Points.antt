-- ===== src/Actions/Split/Points.antt =====
-- The branch points that the user chooses fit the commits.
use freephite.Base.{
  ℕ, zero, suc, ◌+◌, ◌<◌, ◌≤◌, Bool, true, false, none, some, List, [], ◌∷◌, ◌≡◌, refl, ◌∙◌, arith,
  length, if◌then◌else◌,
}
use mathlib.Core.Path.{subst}
use freephite.Base.Action.{ok, ◌>>=◌}
use freephite.Engine.State.{Engine, on_git}
use freephite.Actions.Context.{ActionEnv}
use freephite.Actions.Split.{
  SplitPrompts, toggle_at, points_from, first_point, toggled, choose_points, get_branch_points,
}

-- Rising numbers from `i` on, below `n`.
abbrev pub IsRising : ℕ → ℕ → List ℕ → Type 0
IsRising i n [] = Unit {0}
IsRising i n (p ∷ ps) = (i ≤ p) × (p < n) × IsRising (suc p) n ps

IsRising-weaken : (i j n : ℕ) (ps : List ℕ) → i ≤ j → IsRising j n ps → IsRising i n ps
IsRising-weaken i j n [] h r = tt
IsRising-weaken i j n (p ∷ ps) h (low, high, rest) = (omega (arith, h, low), high, rest)

points_from-IsRising : (i : ℕ) (bs : List Bool) → IsRising i (i + length bs) (points_from i bs)
unfolding points_from
points_from-IsRising i [] = tt
points_from-IsRising i (b ∷ bs) =
    let rest = points_from-IsRising (suc i) bs in
    let same : suc i + length bs ≡ i + suc (length bs) = omega arith in
    let rest' = rw same at rest in go b rest'
  where
    go :
        (b : Bool)
        → IsRising (suc i) (i + suc (length bs)) (points_from (suc i) bs)
        → IsRising i
            (i + suc (length bs))
            (if b then i ∷ points_from (suc i) bs else points_from (suc i) bs)
    go true r = (omega arith, omega arith, r)
    go false r = IsRising-weaken i (suc i) _ (points_from (suc i) bs) (omega arith) r

length-toggle_at : (i : ℕ) (bs : List Bool) → length (toggle_at i bs) ≡ length bs
unfolding toggle_at
length-toggle_at i [] = refl
length-toggle_at zero (b ∷ bs) = refl
length-toggle_at (suc i) (b ∷ bs) = omega (arith, length-toggle_at i bs)

length-toggled : (i : ℕ) (bs : List Bool) → length (toggled i bs) ≡ length bs
length-toggled i bs = ground (arith, length-toggle_at i bs)

length-first_point : (n : ℕ) → length (first_point n) ≡ n
length-first_point zero = refl
length-first_point (suc zero) = refl
length-first_point (suc (suc n)) = omega (arith, length-first_point (suc n))

-- The first commit is a branch point, where there is one.
abbrev pub starts : List Bool → Bool
starts [] = true
starts (b ∷ bs) = b

starts-toggled : (i : ℕ) (bs : List Bool) → starts bs ≡ true → starts (toggled i bs) ≡ true
unfolding toggle_at
starts-toggled i [] h = ground (arith, h)
starts-toggled zero (b ∷ bs) h = h
starts-toggled (suc i) (b ∷ bs) h = ground (arith, h)

starts-first_point : (n : ℕ) → starts (first_point n) ≡ true
starts-first_point zero = refl
starts-first_point (suc n) = refl

module _ {W : Type 0} (env : ActionEnv W) (ask : SplitPrompts W) where
  -- The user toggles `n` commits and then confirms, which leads from the marks `bs` to `bs'`.
  pub data Chooses : W → List Bool → ℕ → List Bool → W → Type 0 where
    confirms : {w w' : W} {bs : List Bool} → ask.toggle bs w ≡ (ok none, w') → Chooses w bs 0 bs w'
    toggles :
        {w w₁ w' : W} {bs bs' : List Bool} {n : ℕ} (i : ℕ)
        → ask.toggle bs w ≡ (ok (some i), w₁)
        → Chooses w₁ (toggled i bs) n bs' w'
        → Chooses w bs (suc n) bs' w'

  choose_points-ends :
      (answers n : ℕ) (bs bs' : List Bool) (s : Engine W) (w' : W)
      → Chooses s.repository bs n bs' w'
      → n < answers
      → choose_points env ask answers bs s ≡ (ok bs', record s { repository = w' })
  unfolding choose_points on_git ◌>>=◌
  choose_points-ends zero n bs bs' s w' c few = absurd (omega arith)
  choose_points-ends (suc answers) n bs bs' s w' (confirms e) few = rw e refl
  choose_points-ends (suc answers) (suc n) bs bs' s w' (toggles {w₁ = w₁} i e c) few = rw e (
      choose_points-ends answers n (toggled i bs) bs' (record s { repository = w₁ }) w' c
        (omega (arith, few)))

  chosen_lem :
      (n : ℕ) (bs bs' : List Bool) (w w' : W)
      → Chooses w bs n bs' w'
      → starts bs ≡ true
      → (length bs' ≡ length bs) × (starts bs' ≡ true)
  chosen_lem n bs bs' w w' (confirms e) h = (refl, h)
  chosen_lem (suc n) bs bs' w w' (toggles i e c) h =
      let (same, first) = chosen_lem n (toggled i bs) bs' _ w' c (starts-toggled i bs h) in
      (same ∙ length-toggled i bs, first)

  points-begin :
      (bs : List Bool)
      → starts bs ≡ true
      → 0 < length bs
      → (rest : List ℕ) × (points_from 0 bs ≡ 0 ∷ rest)
  unfolding points_from
  points-begin [] h some_commit = absurd (omega arith)
  points-begin (true ∷ bs) h some_commit = (points_from 1 bs, refl)
  points-begin (false ∷ bs) h some_commit = absurd (ground (arith, h))

  -- Where the user confirms after fewer choices than are allowed for, and the branch has commits, the
  -- branch points are returned: they rise, lie below the number of commits, and begin with the first
  -- commit.
  pub get_branch_points-IsRising :
      (answers n commits : ℕ) (bs : List Bool) (s : Engine W) (w' : W)
      → 0 < commits
      → Chooses s.repository (first_point commits) n bs w'
      → n < answers
      → (rest : List ℕ) × (get_branch_points env ask answers commits s
          ≡ (ok (0 ∷ rest), record s { repository = w' }))
        × IsRising 1 commits rest
  unfolding get_branch_points ◌>>=◌
  get_branch_points-IsRising answers n commits bs s w' some_commit c few =
      let (same, first) = chosen_lem n _ bs _ w' c (starts-first_point commits) in
      let count : length bs ≡ commits = same ∙ length-first_point commits in
      let (rest, e) = points-begin bs first (omega (arith, count, some_commit)) in
      let count' : 0 + length bs ≡ commits = omega (arith, count) in
      let rising : IsRising 0 commits (points_from 0 bs) =
        subst (λ k. IsRising 0 k (points_from 0 bs)) count' (points_from-IsRising 0 bs) in
      let rising' : IsRising 0 commits (0 ∷ rest) = subst (IsRising 0 commits) e rising in
      (
        rest,
        rw (choose_points-ends answers n _ bs s w' c few)
            (λ i. (ok (e i), record s { repository = w' })),
        rising'.2,
      )
