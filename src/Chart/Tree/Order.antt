-- ===== src/Chart/Tree/Order.antt =====
-- What `isDescendant` decides: chains of parent pointers, a strict order, and what
-- `properAncestors` lists.
use statecharts.Base.{
  zero, suc, ◌<◌, ◌≡◌, sym, ◌∙◌, subst, ◌↔◌, true, none, some, ◌⊎◌, inl, inr, arith, ◌==◌, ==_iff,
  ==_refl, Bool-cases, Option-cases,
}
use statecharts.Base.Sets.{elem}
use statecharts.Chart.{Chart, StateRef, state_at}
use statecharts.Chart.Tree.{IsTree, proper_ancestors, is_descendant}
use statecharts.Chart.Tree.Walks.{
  proper_ancestors_step, proper_ancestors_root, is_descendant_step, is_descendant_root,
}

-- `a` is a proper ancestor of `s`.
abbrev pub Below : Chart → StateRef → StateRef → Type 0
Below c s a = is_descendant c s (some a) ≡ true

-- `a` is reached from `s` along one or more parent pointers.
pub data ParentChain (c : Chart) : StateRef → StateRef → Type 0 where
  parent_of : {s a : StateRef} → (state_at c s).parent ≡ some a → ParentChain c s a
  parent_then :
      {s p a : StateRef} → (state_at c s).parent ≡ some p → ParentChain c p a → ParentChain c s a

module _ (c : Chart) (tree : IsTree c) where
  -- A state lies below another exactly when its parent is that state or lies below it.
  pub Below-cases :
      (s a : StateRef)
      → Below c s a
      → (p : StateRef) × ((state_at c s).parent ≡ some p) × ((p ≡ a) ⊎ Below c p a)
  Below-cases s a h = elim (Option-cases (state_at c s).parent) [
    | inl e ↦ cc (is_descendant_root c tree s a e)
    | inr (p, e) ↦
        let step = is_descendant_step c tree s p a e in
        elim (Bool-cases (p == a)) [
          | inl same ↦ (p, e, inl ((==_iff p a).0 same))
          | inr other ↦ (p, e, inr (rw other at (sym step ∙ h)))
        ]
  ]

  pub Below-parent : (s p : StateRef) → (state_at c s).parent ≡ some p → Below c s p
  Below-parent s p e = is_descendant_step c tree s p p e ∙ rw (==_refl p)

  pub Below-up : (s p a : StateRef) → (state_at c s).parent ≡ some p → Below c p a → Below c s a
  Below-up s p a e h = is_descendant_step c tree s p a e ∙ ground arith

  Below-lt_within : (k s a : StateRef) → s < k → Below c s a → a < s
  Below-lt_within zero s a k h = absurd (omega arith)
  Below-lt_within (suc k) s a lt h =
      let (p, e, rest) = Below-cases s a h in
      let less : p < s = tree.parent_lt s p e in
      elim rest [
        | inl same ↦ omega arith
        | inr up ↦ omega (arith, Below-lt_within k p a (omega arith) up)
      ]

  -- An ancestor precedes its descendants in document order.
  pub Below-lt : (s a : StateRef) → Below c s a → a < s
  Below-lt s a h = Below-lt_within (suc s) s a (omega arith) h

  Below-trans_within : (k s a b : StateRef) → s < k → Below c s a → Below c a b → Below c s b
  Below-trans_within zero s a b lt h g = absurd (omega arith)
  Below-trans_within (suc k) s a b lt h g =
      let (p, e, rest) = Below-cases s a h in
      let less : p < s = tree.parent_lt s p e in
      elim rest [
        | inl same ↦ Below-up s p b e (rw same g)
        | inr up ↦ Below-up s p b e (Below-trans_within k p a b (omega arith) up g)
      ]

  pub Below-trans : (s a b : StateRef) → Below c s a → Below c a b → Below c s b
  Below-trans s a b h g = Below-trans_within (suc s) s a b (omega arith) h g

  is_descendant_within : (k s a : StateRef) → s < k → Below c s a → ParentChain c s a
  is_descendant_within zero s a lt h = absurd (omega arith)
  is_descendant_within (suc k) s a lt h =
      let (p, e, rest) = Below-cases s a h in
      let less : p < s = tree.parent_lt s p e in
      elim rest [
        | inl same ↦ parent_of (subst (λ q. (state_at c s).parent ≡ some q) same e)
        | inr up ↦ parent_then e (is_descendant_within k p a (omega arith) up)
      ]

  Below-of_chain : (s a : StateRef) → ParentChain c s a → Below c s a
  Below-of_chain s a (parent_of e) = Below-parent s a e
  Below-of_chain s a (parent_then e h) = Below-up s _ a e (Below-of_chain _ a h)

  -- In a chart whose parents precede their children, `isDescendant(s, a)` holds exactly when `a` is
  -- reached from `s` along one or more parent pointers.
  pub is_descendant_iff : (s a : StateRef) → (is_descendant c s (some a) ≡ true) ↔ ParentChain c s a
  is_descendant_iff s a =
      (λ h. is_descendant_within (suc s) s a (omega arith) h, Below-of_chain s a)

  elem-proper_ancestors_within :
      (k s a : StateRef) → s < k → elem a (proper_ancestors c s none) ≡ is_descendant c s (some a)
  elem-proper_ancestors_within zero s a lt = absurd (omega arith)
  elem-proper_ancestors_within (suc k) s a lt = elim (Option-cases (state_at c s).parent) [
    | inl e ↦ rw (proper_ancestors_root c tree s none e, is_descendant_root c tree s a e)
    | inr (p, e) ↦
        let less : p < s = tree.parent_lt s p e in
        rw (proper_ancestors_step c tree s p none e, is_descendant_step c tree s p a e)
          (rw (elem-proper_ancestors_within k p a (omega arith)) (ground arith))
  ]

  -- In a chart whose parents precede their children, `properAncestors(s, nil)` lists exactly the states that `isDescendant` takes `s` to lie below.
  pub elem-proper_ancestors :
      (s a : StateRef) → elem a (proper_ancestors c s none) ≡ is_descendant c s (some a)
  elem-proper_ancestors s a = elem-proper_ancestors_within (suc s) s a (omega arith)
