-- ===== src/Chart/Tree/Walks.antt =====
-- The walks to the root: their fuel is enough, and `isDescendant` is a strict order below which
-- document order lies.
use statecharts.Base.{
  ℕ, zero, suc, ◌≤◌, ◌<◌, ◌≡◌, refl, ap, true, false, if◌then◌else◌, [], ◌∷◌, Option, none, some,
  inl, inr, arith, ◌==◌, Option-cases,
}
use statecharts.Chart.{Chart, StateRef, state_at}
use statecharts.Chart.Tree.{
  IsTree, is_ref, ancestors_from, proper_ancestors, climbs_to, is_descendant,
}

-- A pointer that is nil or lies below the fuel.
abbrev Within : Option StateRef → ℕ → Type 0
Within none f = Unit
Within (some p) f = p < f

module _ (c : Chart) (tree : IsTree c) where
  parent-Within : (s f : ℕ) → s ≤ f → Within (state_at c s).parent f
  parent-Within s f h = elim (Option-cases (state_at c s).parent) [
    | inl e ↦ rw e tt
    | inr (p, e) ↦ let below : p < s = tree.parent_lt s p e in rw e (omega arith)
  ]

  -- More fuel than the pointer's place changes nothing.
  ancestors_from_stable :
      (stop : Option StateRef) (f g : ℕ) (o : Option StateRef)
      → Within o f
      → Within o g
      → ancestors_from c stop f o ≡ ancestors_from c stop g o
  unfolding ancestors_from
  ancestors_from_stable stop zero zero o h k = refl
  ancestors_from_stable stop zero (suc g) none h k = refl
  ancestors_from_stable stop zero (suc g) (some p) h k = absurd (omega arith)
  ancestors_from_stable stop (suc f) zero none h k = refl
  ancestors_from_stable stop (suc f) zero (some p) h k = absurd (omega arith)
  ancestors_from_stable stop (suc f) (suc g) none h k = refl
  ancestors_from_stable stop (suc f) (suc g) (some p) h k =
      ap (λ l. if is_ref stop p then [] else p ∷ l)
        (ancestors_from_stable stop f g (state_at c p).parent (parent-Within p f (omega arith))
          (parent-Within p g (omega arith)))

  climbs_to_stable :
      (a : StateRef) (f g : ℕ) (o : Option StateRef)
      → Within o f
      → Within o g
      → climbs_to c a f o ≡ climbs_to c a g o
  unfolding climbs_to
  climbs_to_stable a zero zero o h k = refl
  climbs_to_stable a zero (suc g) none h k = refl
  climbs_to_stable a zero (suc g) (some p) h k = absurd (omega arith)
  climbs_to_stable a (suc f) zero none h k = refl
  climbs_to_stable a (suc f) zero (some p) h k = absurd (omega arith)
  climbs_to_stable a (suc f) (suc g) none h k = refl
  climbs_to_stable a (suc f) (suc g) (some p) h k =
      ap (λ b. if p == a then true else b)
        (climbs_to_stable a f g (state_at c p).parent (parent-Within p f (omega arith))
          (parent-Within p g (omega arith)))

  -- The loop of `properAncestors` takes one parent after another until it meets nil or `stop`:
  -- its fuel does not run out.
  pub proper_ancestors_step :
      (s p : StateRef) (stop : Option StateRef)
      → (state_at c s).parent ≡ some p
      → proper_ancestors c s stop ≡ (if is_ref stop p then [] else p ∷ proper_ancestors c p stop)
  unfolding proper_ancestors
  proper_ancestors_step s p stop e = rw e (step s (tree.parent_lt s p e))
    where
      step :
          (s : ℕ)
          → p < s
          → ancestors_from c stop s (some p)
            ≡ (if is_ref stop p then [] else p ∷ ancestors_from c stop p (state_at c p).parent)
      step zero h = absurd (omega arith)
      step (suc f) h =
          unfold ancestors_from in
          ap (λ l. if is_ref stop p then [] else p ∷ l)
            (ancestors_from_stable stop f p (state_at c p).parent (parent-Within p f (omega arith))
              (parent-Within p p (omega arith)))

  pub proper_ancestors_root :
      (s : StateRef) (stop : Option StateRef)
      → (state_at c s).parent ≡ none
      → proper_ancestors c s stop ≡ []
  unfolding proper_ancestors
  proper_ancestors_root s stop e = rw e (none_nil s)
    where
      none_nil : (f : ℕ) → ancestors_from c stop f none ≡ []
      none_nil zero = unfold ancestors_from in refl
      none_nil (suc f) = unfold ancestors_from in refl

  pub is_descendant_step :
      (s p a : StateRef)
      → (state_at c s).parent ≡ some p
      → is_descendant c s (some a) ≡ (if p == a then true else is_descendant c p (some a))
  unfolding is_descendant
  is_descendant_step s p a e = rw e (step s (tree.parent_lt s p e))
    where
      step :
          (s : ℕ)
          → p < s
          → climbs_to c a s (some p)
            ≡ (if p == a then true else climbs_to c a p (state_at c p).parent)
      step zero h = absurd (omega arith)
      step (suc f) h =
          unfold climbs_to in
          ap (λ b. if p == a then true else b)
            (climbs_to_stable a f p (state_at c p).parent (parent-Within p f (omega arith))
              (parent-Within p p (omega arith)))

  pub is_descendant_root :
      (s a : StateRef) → (state_at c s).parent ≡ none → is_descendant c s (some a) ≡ false
  unfolding is_descendant
  is_descendant_root s a e = rw e (none_false s)
    where
      none_false : (f : ℕ) → climbs_to c a f none ≡ false
      none_false zero = unfold climbs_to in refl
      none_false (suc f) = unfold climbs_to in refl
