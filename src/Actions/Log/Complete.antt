-- ===== src/Actions/Log/Complete.antt =====
-- The log shows each branch above a branch once.
use freephite.Base.{
  ℕ, zero, suc, ◌+◌, ◌-◌, Bool, true, false, none, List, [], ◌∷◌, ◌++◌, map, ◌≡◌, refl, sym, ap,
  ◌∙◌, arith, ◌==◌, if◌then◌else◌, length,
}
use freephite.Base.Action.{Result, ok, err, Action, ◌>>=◌}
use freephite.Base.Action.Keeps.{ReadOnly, bind_read-ok}
use freephite.Metadata.{Name}
use freephite.Engine.State.{Engine, get_children, flat_map_children, get_recursive_children}
use freephite.Engine.Reads.{
  get_children-ReadOnly, flat_map_children-ReadOnly, get_recursive_children-ReadOnly,
}
use freephite.Actions.Submit.{filter_action}
use freephite.Actions.Log.{
  LogArgs, Line, is_shown, lines_over, get_branch_lines, get_upstack_exclusive_lines,
  get_upstack_inclusive_lines,
}

-- How often a branch comes.
abbrev pub count : Name → List Name → ℕ
count x [] = 0
count x (y ∷ ys) = (if y == x then 1 else 0) + count x ys

count-append : (x : Name) (ys zs : List Name) → count x (ys ++ zs) ≡ count x ys + count x zs
count-append x [] zs = omega arith
count-append x (y ∷ ys) zs = omega (arith, count-append x ys zs)

abbrev pub branches_of : List Line → List Name
branches_of = map (λ l. l.branch)

branches_of-append :
    (ls ls' : List Line) → branches_of (ls ++ ls') ≡ branches_of ls ++ branches_of ls'
branches_of-append [] ls' = refl
branches_of-append (l ∷ ls) ls' = ap (λ bs. l.branch ∷ bs) (branches_of-append ls ls')

-- The same branches, each as often.
abbrev pub SameBranches : List Name → List Name → Type 0
SameBranches bs bs' = (x : Name) → count x bs ≡ count x bs'

-- The options of the selection of a branch, with no branch left out.
abbrev pub plain_args : Bool → LogArgs
plain_args reversed = record {
  reversed = reversed;
  omit_current_branch = false;
  no_style_branch_name = true;
}

module _ {W : Type 0} (reversed : Bool) where
  all_shown :
      (s : Engine W) (cs : List Name)
      → filter_action (is_shown (plain_args reversed)) cs s ≡ (ok cs, s)
  unfolding filter_action is_shown ◌>>=◌
  all_shown s [] = refl
  all_shown s (c ∷ cs) = rw (all_shown s cs) refl

  line_lem :
      (b : Name) (indent : ℕ) (cs : List Name) (s : Engine W)
      → get_children b s ≡ (ok cs, s)
      → (line : Line) × (get_branch_lines (plain_args reversed) b indent false s ≡ (ok line, s))
        × (line.branch ≡ b)
  unfolding get_branch_lines ◌>>=◌
  line_lem b indent cs s e = (
    record { branch = b; indent_level = indent; branching = length cs - 0; needs_restack = false },
    rw e refl,
    refl,
  )

abbrev value_or : {A : Type 0} → A → Result A → A
value_or a (ok b) = b
value_or a (err e) = a

-- A read that returns comes back to its state.
returned :
    {S A : Type 0} (m : Action S A) (a : A) (s : S) → ReadOnly m → (m s).0 ≡ ok a → m s ≡ (ok a, s)
returned m a s r e = λ i. (e i, r.same s i)

-- The parts of a list of descendants that is returned.
flat_map_children_parts :
    {W : Type 0} (f : Name → Action (Engine W) (List Name)) (c : Name) (cs below : List Name)
    (s : Engine W)
    → ((b : Name) → ReadOnly (f b))
    → flat_map_children f (c ∷ cs) s ≡ (ok below, s)
    → (first rest : List Name) × (f c s ≡ (ok first, s))
      × (flat_map_children f cs s ≡ (ok rest, s))
      × (below ≡ (c ∷ first) ++ rest)
unfolding flat_map_children
flat_map_children_parts f c cs below s r e =
    let (first, e₁, step) = bind_read-ok (f c) _ s below (r c) (ap (λ x. x.0) e) in
    let (rest, e₂, step') =
      bind_read-ok (flat_map_children f cs) _ s below (flat_map_children-ReadOnly f cs r)
        (ap (λ x. x.0) (sym step ∙ e)) in
    (
      first,
      rest,
      returned (f c) first s (r c) e₁,
      returned (flat_map_children f cs) rest s (flat_map_children-ReadOnly f cs r) e₂,
      ap (λ x. value_or [] x.0) (sym e ∙ step ∙ step'),
    )

placed_lem :
    (r : Bool) (line : Line) (ls : List Line) (b : Name) (below : List Name)
    → line.branch ≡ b
    → SameBranches (branches_of ls) below
    → SameBranches (branches_of (if r then line ∷ ls else ls ++ line ∷ [])) (b ∷ below)
placed_lem true line ls b below named same x = λ i. (if named i == x then 1 else 0) + same x i
placed_lem false line ls b below named same x =
    ap (count x) (branches_of-append ls (line ∷ []))
    ∙ count-append x (branches_of ls) (line.branch ∷ [])
    ∙ (λ i. same x i + ((if named i == x then 1 else 0) + 0))
    ∙ omega arith

module _ {W : Type 0} (reversed : Bool) where
  abbrev Shows :
      (Name → ℕ → Action (Engine W) (List Line)) → (Name → Action (Engine W) (List Name)) → Type 0
  Shows lines f =
      (c : Name) (indent : ℕ) (s : Engine W) (below : List Name)
      → f c s ≡ (ok below, s)
      → (ls : List Line) × (lines c indent s ≡ (ok ls, s))
        × SameBranches (branches_of ls) (c ∷ below)

  lines_over_lem :
      (lines : Name → ℕ → Action (Engine W) (List Line)) (f : Name → Action (Engine W) (List Name))
      (indent n i : ℕ) (cs below : List Name) (s : Engine W)
      → ((b : Name) → ReadOnly (f b))
      → Shows lines f
      → flat_map_children f cs s ≡ (ok below, s)
      → (ls : List Line) × (lines_over (plain_args reversed) lines indent n i cs s ≡ (ok ls, s))
        × SameBranches (branches_of ls) below
  unfolding lines_over flat_map_children ◌>>=◌
  lines_over_lem lines f indent n i [] below s r shows e =
      ([], refl, λ x. ap (λ y. count x (value_or [] y.0)) e)
  lines_over_lem lines f indent n i (c ∷ cs) below s r shows e =
      let (first, rest, e₁, e₂, whole) = flat_map_children_parts f c cs below s r e in
      let (ls, q₁, same₁) = shows c (indent + (if reversed then n - i - 1 else i)) s first e₁ in
      let (ls', q₂, same₂) = lines_over_lem lines f indent n (suc i) cs rest s r shows e₂ in
      (
        ls ++ ls',
        rw q₁ (rw q₂ refl),
        λ x.
            ap (count x) (branches_of-append ls ls')
            ∙ count-append x (branches_of ls) (branches_of ls')
            ∙ (λ j. same₁ x j + same₂ x j)
            ∙ sym (count-append x (c ∷ first) rest)
            ∙ ap (count x) (sym whole),
      )

  inclusive_lem :
      (depth : ℕ) (b : Name) (indent : ℕ) (s : Engine W) (cs : List Name) (ls : List Line)
      (line : Line)
      → get_children b s ≡ (ok cs, s)
      → lines_over
          (plain_args reversed)
          (get_upstack_inclusive_lines (plain_args reversed) depth none)
          indent
          (length cs)
          0
          cs
          s
        ≡ (ok ls, s)
      → get_branch_lines (plain_args reversed) b indent false s ≡ (ok line, s)
      → get_upstack_inclusive_lines (plain_args reversed) (suc depth) none b indent s
        ≡ (ok (if reversed then line ∷ ls else ls ++ line ∷ []), s)
  unfolding get_upstack_inclusive_lines get_upstack_exclusive_lines ◌>>=◌
  inclusive_lem depth b indent s cs ls line e q q' =
      rw e (rw (all_shown reversed s cs) (rw q (rw q' refl)))

  -- Where the descendants of a branch are returned, the log from the branch up is returned with the same
  -- depth of the stack, changes nothing, and shows the branch and each descendant as often as it is
  -- among them, in either direction.
  pub get_upstack_inclusive_lines-SameBranches :
      (depth : ℕ) (b : Name) (indent : ℕ) (s : Engine W) (below : List Name)
      → get_recursive_children depth b s ≡ (ok below, s)
      → (ls : List Line) × (get_upstack_inclusive_lines (plain_args reversed) depth none b indent s
          ≡ (ok ls, s))
        × SameBranches (branches_of ls) (b ∷ below)
  unfolding get_upstack_inclusive_lines get_upstack_exclusive_lines get_recursive_children ◌>>=◌
  get_upstack_inclusive_lines-SameBranches zero b indent s below e = absurd (ground (arith, e))
  get_upstack_inclusive_lines-SameBranches (suc depth) b indent s below e =
      let (cs, e₁, step) =
        bind_read-ok (get_children b) _ s below (get_children-ReadOnly b) (ap (λ x. x.0) e) in
      let found = returned (get_children b) cs s (get_children-ReadOnly b) e₁ in
      let (ls, q, same) =
        lines_over_lem (get_upstack_inclusive_lines (plain_args reversed) depth none)
          (get_recursive_children depth) indent (length cs) 0 cs below s
          (get_recursive_children-ReadOnly depth)
          (λ c k s' below'. get_upstack_inclusive_lines-SameBranches depth c k s' below')
          (sym step ∙ e) in
      let (line, q', named) = line_lem reversed b indent cs s found in
      (
        if reversed then line ∷ ls else ls ++ line ∷ [],
        inclusive_lem depth b indent s cs ls line found q q',
        placed_lem reversed line ls b below named same,
      )
