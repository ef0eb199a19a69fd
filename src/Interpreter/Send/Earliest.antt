-- ===== src/Interpreter/Send/Earliest.antt =====
-- The sort of `replayTimerFire` puts the earliest pending send first.
use statecharts.Base.{
  ◌<◌, ◌≤◌, Bool, true, false, List, [], ◌∷◌, ◌≡◌, refl, arith, inl, inr, Bool-cases, All,
  All-weaken, ◌⊎◌, keep, is_empty,
}
use statecharts.Interpreter.{PendingSend}
use statecharts.Interpreter.Send.{fires_before, insert_pending, sort_pending}

abbrev pub Precedes : PendingSend → PendingSend → Type 0
Precedes r p = (r.fire_at < p.fire_at) ⊎ ((r.fire_at ≡ p.fire_at) × (r.order ≤ p.order))

-- The record is one of the list's.
abbrev pub OneOf : List PendingSend → PendingSend → Type 0
OneOf [] r = ⊥
OneOf (p ∷ ps) r = (r ≡ p) ⊎ OneOf ps r

-- It is one of the list's, and none of them fires before it.
abbrev pub IsFirst : List PendingSend → PendingSend → Type 0
IsFirst ps r = OneOf ps r × All (λ p. fires_before p r ≡ false) ps

pub Precedes-of : (r p : PendingSend) → fires_before p r ≡ false → Precedes r p
unfolding fires_before
Precedes-of r p h = ground arith

fires_before_refl : (p : PendingSend) → fires_before p p ≡ false
unfolding fires_before
fires_before_refl p = ground arith

fires_before_asym : (p q : PendingSend) → fires_before q p ≡ true → fires_before p q ≡ false
unfolding fires_before
fires_before_asym p q h = ground arith

fires_before_trans :
    (p q r : PendingSend)
    → fires_before p q ≡ false
    → fires_before q r ≡ false
    → fires_before p r ≡ false
unfolding fires_before
fires_before_trans p q r h g = ground arith

-- The first of a sorted list is the earliest; an empty one comes from an empty list.
abbrev pub HeadEarliest : List PendingSend → List PendingSend → Type 0
HeadEarliest ps [] = ps ≡ []
HeadEarliest ps (r ∷ rs) = IsFirst ps r

insert_pending-head :
    (p : PendingSend) (ps sorted : List PendingSend)
    → HeadEarliest ps sorted
    → HeadEarliest (p ∷ ps) (insert_pending p sorted)
unfolding insert_pending
insert_pending-head p ps [] h = rw h (inl refl, (fires_before_refl p, tt))
insert_pending-head p ps (q ∷ qs) (one, least) = elim (Bool-cases (fires_before q p)) [
  | inl before ↦ rw (before, insert_pending) (inr one, (fires_before_asym p q before, least))
  | inr not_before ↦
      rw (not_before, insert_pending)
        (
          inl refl,
          (
            fires_before_refl p,
            All-weaken (λ x. fires_before x q ≡ false) (λ x. fires_before x p ≡ false) ps
                (λ x h. fires_before_trans x q p h not_before) least,
          ),
        )
]

pub sort_pending-head : (ps : List PendingSend) → HeadEarliest ps (sort_pending ps)
unfolding sort_pending
sort_pending-head [] = refl
sort_pending-head (p ∷ ps) = insert_pending-head p ps (sort_pending ps) (sort_pending-head ps)

pub keep-OneOf :
    (f : PendingSend → Bool) (r : PendingSend) (ps : List PendingSend)
    → OneOf (keep f ps) r
    → OneOf ps r × (f r ≡ true)
keep-OneOf f r [] h = absurd h
keep-OneOf f r (p ∷ ps) h = elim (Bool-cases (f p)) [
  | inr q ↦ let (one, holds) = keep-OneOf f r ps (rw q at h) in (inr one, holds)
  | inl q ↦ elim (rw q at h) [
    | inl same ↦ (inl same, rw same q)
    | inr one ↦ let (one', holds) = keep-OneOf f r ps one in (inr one', holds)
  ]
]

pub All-of_keep :
    (f : PendingSend → Bool) (P : PendingSend → Type 0) (ps : List PendingSend)
    → All P (keep f ps)
    → All (λ p. f p ≡ true → P p) ps
All-of_keep f P [] h = tt
All-of_keep f P (p ∷ ps) h = elim (Bool-cases (f p)) [
  | inr q ↦ ((λ holds. cc), All-of_keep f P ps (rw q at h))
  | inl q ↦ let both = rw q at h in ((λ holds. both.0), All-of_keep f P ps both.1)
]

pub none_kept :
    (f : PendingSend → Bool) (ps : List PendingSend) → keep f ps ≡ [] → All (λ p. f p ≡ false) ps
none_kept f [] h = tt
none_kept f (p ∷ ps) h = elim (Bool-cases (f p)) [
  | inr q ↦ (q, none_kept f ps (rw q at h))
  | inl q ↦ cc (rw q at h)
]

pub empty_cases : (ps : List PendingSend) → (ps ≡ []) ⊎ (is_empty ps ≡ false)
empty_cases [] = inl refl
empty_cases (p ∷ ps) = inr refl
