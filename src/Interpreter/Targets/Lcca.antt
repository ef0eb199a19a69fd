-- ===== src/Interpreter/Targets/Lcca.antt =====
-- `findLCCA` finds the least common compound ancestor.
use statecharts.Base.{
  zero, suc, ◌<◌, true, ◌&&◌, List, ◌∷◌, none, some, ◌≡◌, refl, arith, inl, inr, ◌⊎◌, Bool-cases,
  &&-true,
}
use statecharts.Chart.{Chart, StateRef}
use statecharts.Chart.Tree.{IsTree, is_compound_or_root, is_descendant, proper_ancestors}
use statecharts.Chart.Tree.Walks.{proper_ancestors_step}
use statecharts.Chart.Tree.Order.{Below, Below-cases}
use statecharts.Interpreter.Targets.{all_descendants, first_common, find_lcca}

module _ (c : Chart) where
  -- A compound state, or the root, above all the states.
  abbrev pub IsCommon : List StateRef → StateRef → Type 0
  IsCommon states a = (is_compound_or_root c a && all_descendants c states a) ≡ true

  -- The state `a` is `b` or lies below it.
  abbrev pub WithinOf : StateRef → StateRef → Type 0
  WithinOf a b = (a ≡ b) ⊎ Below c a b

module _ (c : Chart) (tree : IsTree c) (states : List StateRef) where
  first_common_least :
      (k s b : StateRef)
      → s < k
      → Below c s b
      → IsCommon c states b
      → IsCommon c states (first_common c states (proper_ancestors c s none))
        × WithinOf c (first_common c states (proper_ancestors c s none)) b
  unfolding first_common
  first_common_least zero s b lt h common = absurd (omega arith)
  first_common_least (suc k) s b lt h common =
      let (p, e, rest) = Below-cases c tree s b h in
      let less : p < s = tree.parent_lt s p e in
      rw (proper_ancestors_step c tree s p none e)
        (elim (Bool-cases (is_compound_or_root c p && all_descendants c states p)) [
          | inl here ↦ rw (here, first_common) (here, rest)
          | inr lower ↦
              rw (lower, first_common)
                (elim rest [
                  | inl same ↦ cc (rw same at lower)
                  | inr up ↦ first_common_least k p b (omega arith) up common
                ])
        ])

module _ (c : Chart) (tree : IsTree c) where
  -- In a chart whose parents precede their children, when some compound state, or the root, lies
  -- above all of a list's states, `findLCCA` returns such a state, and the least one: it is, or
  -- lies below, every other.
  pub find_lcca_least :
      (s b : StateRef) (ss : List StateRef)
      → IsCommon c (s ∷ ss) b
      → (a : StateRef) × (find_lcca c (s ∷ ss) ≡ some a) × IsCommon c (s ∷ ss) a × WithinOf c a b
  unfolding find_lcca all_descendants
  find_lcca_least s b ss common =
      let (compound, above) = &&-true _ _ common in
      let (first, others) = &&-true (is_descendant c s (some b)) _ above in
      (
        first_common c (s ∷ ss) (proper_ancestors c s none),
        refl,
        (first_common_least c tree (s ∷ ss) (suc s) s b (omega arith) first common).0,
        (first_common_least c tree (s ∷ ss) (suc s) s b (omega arith) first common).1,
      )
