-- ===== src/Chart/Tree.antt =====
-- interpreter.go: the state tree, walked from a state to the root.
--
-- A parent stands before its children in document order (`IsTree`), so a walk that starts at a
-- state takes fewer steps than the state's place: that is the fuel.
pub mod Walks
pub mod Order
use statecharts.Base.{
  ℕ, zero, suc, ◌≡◌, ◌<◌, Bool, true, false, ◌&&◌, ◌||◌, not, if◌then◌else◌, List, [], ◌∷◌, Option,
  none, some, keep, ◌==◌,
}
use statecharts.Chart.{Chart, StateRef, StateKind, atomic, compound, parallel, final, history}
use statecharts.Chart.{State, state_at, root}

abbrev pub is_atomic : StateKind → Bool
is_atomic atomic = true
is_atomic final = true
is_atomic _ = false

abbrev pub is_compound : StateKind → Bool
is_compound compound = true
is_compound _ = false

abbrev pub is_parallel : StateKind → Bool
is_parallel parallel = true
is_parallel _ = false

abbrev pub is_final : StateKind → Bool
is_final final = true
is_final _ = false

abbrev pub is_history : StateKind → Bool
is_history history = true
is_history _ = false

unfoldable pub is_atomic_kind : Chart → StateRef → Bool
is_atomic_kind c s = is_atomic (state_at c s).kind

unfoldable pub real_children : Chart → StateRef → List StateRef
real_children c s = keep (λ d. not (is_history (state_at c d).kind)) (state_at c s).children

abbrev pub is_ref : Option StateRef → StateRef → Bool
is_ref none s = false
is_ref (some a) s = s == a

-- The loop of `properAncestors`, at the pointer `p`.
unfoldable pub ancestors_from : Chart → Option StateRef → ℕ → Option StateRef → List StateRef
ancestors_from c stop zero p = []
ancestors_from c stop (suc fuel) none = []
ancestors_from c stop (suc fuel) (some p) =
    let rest = p ∷ ancestors_from c stop fuel (state_at c p).parent in
    if is_ref stop p then [] else rest

-- The ancestors of a state, nearest first, up to and without `stop`.
unfoldable pub proper_ancestors : Chart → StateRef → Option StateRef → List StateRef
unfolding ancestors_from
proper_ancestors c s stop = ancestors_from c stop s (state_at c s).parent

-- The loop of `isDescendant`.
unfoldable pub climbs_to : Chart → StateRef → ℕ → Option StateRef → Bool
climbs_to c a zero p = false
climbs_to c a (suc fuel) none = false
climbs_to c a (suc fuel) (some p) =
    let rest = climbs_to c a fuel (state_at c p).parent in if p == a then true else rest

unfoldable pub is_descendant : Chart → StateRef → Option StateRef → Bool
unfolding climbs_to
is_descendant c s none = false
is_descendant c s (some a) = climbs_to c a s (state_at c s).parent

unfoldable pub is_compound_or_root : Chart → StateRef → Bool
is_compound_or_root c s = is_compound (state_at c s).kind || s == root

-- A parent precedes its children in document order.
pub record IsTree (c : Chart) : Type 0 where
  pub parent_lt : (s p : StateRef) → (state_at c s).parent ≡ some p → p < s
