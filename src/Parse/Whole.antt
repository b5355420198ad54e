-- ===== src/Parse/Whole.antt =====
-- The links between the branches that `parseBranchesAndMeta` has parsed.
use freephite.Base.{
  true, none, some, List, ◌≡◌, refl, ◌≢◌, ◌∙◌, sym, arith, lookup, insert, lookup-insert_self,
  lookup-insert_ne, includes, includes-push, inl, inr, eq_cases, ==_refl,
}
use freephite.Metadata.{Name, CachedMeta, parent_of}
use freephite.Parse.{Parsed, push_child}

-- The parent that a parsed branch names is parsed too, and lists the branch as a child.
pub record IsWhole (parsed : Parsed) : Type 0 where
  pub whole :
      (c p : Name) (m : CachedMeta (List Name))
      → lookup c parsed ≡ some m
      → parent_of m.validation ≡ some p
      → (mp : CachedMeta (List Name)) × (lookup p parsed ≡ some mp)
        × (includes c mp.children ≡ true)

-- Parsing `b`, which has not been parsed yet, keeps the links whole.
abbrev pub KeepsWhole : Name → Parsed → Parsed → Type 0
KeepsWhole b parsed parsed' = lookup b parsed ≡ none → IsWhole parsed → IsWhole parsed'

pub insert-IsWhole :
    (b : Name) (m : CachedMeta (List Name)) (parsed : Parsed)
    → parent_of m.validation ≡ none
    → KeepsWhole b parsed (insert b m parsed)
insert-IsWhole b m parsed root new w = record {
  whole = λ c p mc e named. elim (eq_cases c b) [
    | inl same ↦
        let found : lookup c (insert b m parsed) ≡ some m =
          rw same (lookup-insert_self b m parsed) in
        absurd (ground arith)
    | inr other ↦
        let (mp, there, listed) =
          w.whole c p mc (sym (lookup-insert_ne b c m parsed other) ∙ e) named in
        (mp, lookup-insert_ne b p m parsed (λ q. ground (arith, new, there)) ∙ there, listed)
  ];
}

-- The push onto the children of `p` keeps what was whole, whoever is pushed.
push-IsWhole :
    (b p : Name) (parent : CachedMeta (List Name)) (parsed : Parsed)
    → lookup p parsed ≡ some parent
    → IsWhole parsed
    → IsWhole (insert p (push_child b parent) parsed)
push-IsWhole b p parent parsed e w = record {
  whole = λ c q mc found named.
      let (mc', e', named') = before c mc q found named in
      let (mq, there, listed) = w.whole c q mc' e' named' in after c q mq there listed;
}
  where
    before :
        (c : Name) (mc : CachedMeta (List Name)) (q : Name)
        → lookup c (insert p (push_child b parent) parsed) ≡ some mc
        → parent_of mc.validation ≡ some q
        → (mc' : CachedMeta (List Name)) × (lookup c parsed ≡ some mc')
          × (parent_of mc'.validation ≡ some q)
    before c mc q found named = elim (eq_cases c p) [
      | inl same ↦
          let pushed : lookup c (insert p (push_child b parent) parsed)
              ≡ some (push_child b parent) =
            rw same (lookup-insert_self p (push_child b parent) parsed) in
          (parent, rw same e, ground arith)
      | inr other ↦
          (mc, sym (lookup-insert_ne p c (push_child b parent) parsed other) ∙ found, named)
    ]

    after :
        (c q : Name) (mq : CachedMeta (List Name))
        → lookup q parsed ≡ some mq
        → includes c mq.children ≡ true
        → (mp : CachedMeta (List Name)) × (lookup q (insert p (push_child b parent) parsed)
            ≡ some mp)
          × (includes c mp.children ≡ true)
    after c q mq there listed = elim (eq_cases q p) [
      | inl same ↦
          let known : includes c parent.children ≡ true = ground arith in
          (
            push_child b parent,
            rw same (lookup-insert_self p (push_child b parent) parsed),
            rw includes-push (ground arith),
          )
      | inr other ↦ (mq, lookup-insert_ne p q (push_child b parent) parsed other ∙ there, listed)
    ]

pub insert_both-IsWhole :
    (b p : Name) (m parent : CachedMeta (List Name)) (parsed : Parsed)
    → lookup p parsed ≡ some parent
    → parent_of m.validation ≡ some p
    → KeepsWhole b parsed (insert b m (insert p (push_child b parent) parsed))
insert_both-IsWhole b p m parent parsed there under new w = record {
  whole = λ c q mc found named. elim (eq_cases c b) [
    | inl same ↦
        let mine : lookup c (insert b m pushed) ≡ some m =
          rw same (lookup-insert_self b m pushed) in
        let named' : some q ≡ some p = ground arith in
        let q=p : q ≡ p = ground arith in
        (
          push_child b parent,
          rw q=p (
              lookup-insert_ne b p m pushed ne ∙ lookup-insert_self p (push_child b parent) parsed),
          rw same (rw includes-push (rw (==_refl b) refl)),
        )
    | inr other ↦
        let (mq, there', listed) =
          (push-IsWhole b p parent parsed there w).whole c q mc
            (sym (lookup-insert_ne b c m pushed other) ∙ found) named in
        (mq, lookup-insert_ne b q m pushed (λ e. ground (arith, there', absent)) ∙ there', listed)
  ];
}
  where
    pushed : Parsed
    pushed = insert p (push_child b parent) parsed

    ne : p ≢ b
    ne e = ground (arith, new, there)

    absent : lookup b (insert p (push_child b parent) parsed) ≡ none
    absent = lookup-insert_ne p b (push_child b parent) parsed (λ e. ne (sym e)) ∙ new
