-- ===== src/Identifier/Matching.antt =====
-- What `Identifier.Matches` decides: equality, or a prefix that ends at a dot.
use statecharts.Base.{
  ℕ, List, [], ◌∷◌, ◌++◌, true, false, ◌≡◌, refl, ap, sym, ◌∙◌, ◌⊎◌, inl, inr, ◌↔◌, arith,
  append-nil, append_assoc, ◌==◌, Bool-cases, &&-true, ==_iff,
}
use statecharts.Base.Bytes.{Bytes, codes, bytes_eq, bytes_eq_refl, eq_of_bytes_eq}
use statecharts.Identifier.{
  Identifier, dot, push_first, segments, trim_dot, trim_dot_star, tokens_match, is_nil, matches,
}

-- The segments, with dots between them.
join : List Bytes → Bytes
join [] = []
join (s ∷ []) = s
join (s ∷ t ∷ ts) = s ++ (dot ∷ join (t ∷ ts))

join-push_first : (c : ℕ) (ss : List Bytes) → join (push_first c ss) ≡ c ∷ join ss
unfolding join
join-push_first c [] = refl
join-push_first c (s ∷ []) = refl
join-push_first c (s ∷ t ∷ ts) = refl

segments_cons : (s : Bytes) → (t : Bytes) × (ts : List Bytes) × (segments s ≡ t ∷ ts)
unfolding segments
segments_cons [] = ([], [], refl)
segments_cons (c ∷ cs) = elim (Bool-cases (c == dot)) [
  | inl e ↦ ([], segments cs, rw e)
  | inr e ↦ let (t, ts, p) = segments_cons cs in (c ∷ t, ts, rw (e, p))
]

join_nil_cons : (s : Bytes) → join ([] ∷ segments s) ≡ dot ∷ join (segments s)
unfolding join
join_nil_cons s = let (t, ts, p) = segments_cons s in rw p

-- Splitting at the dots and joining again is the identity.
join-segments : (s : Bytes) → join (segments s) ≡ s
unfolding segments
join-segments [] = unfold join in refl
join-segments (c ∷ cs) = elim (Bool-cases (c == dot)) [
  | inl e ↦ rw e (join_nil_cons cs ∙ ground (arith, join-segments cs, (==_iff c dot).0 e))
  | inr e ↦ rw e (join-push_first c (segments cs) ∙ ap (◌∷◌ c) (join-segments cs))
]

push_first-append :
    (c : ℕ) (t : Bytes) (ts us : List Bytes)
    → push_first c ((t ∷ ts) ++ us) ≡ push_first c (t ∷ ts) ++ us
push_first-append c t ts us = refl

-- A dot ends a segment.
segments-append_dot : (s t : Bytes) → segments (s ++ (dot ∷ t)) ≡ segments s ++ segments t
unfolding segments
segments-append_dot [] t = refl
segments-append_dot (c ∷ cs) t = elim (Bool-cases (c == dot)) [
  | inl e ↦ rw e (ap (◌∷◌ []) (segments-append_dot cs t))
  | inr e ↦
      let (u, us, p) = segments_cons cs in
      rw e (
        ap (push_first c) (segments-append_dot cs t) ∙ rw p (push_first-append c u us (segments t)))
]

tokens_match_prefix : (ds ns : List Bytes) → tokens_match ds (ds ++ ns) ≡ true
unfolding tokens_match
tokens_match_prefix [] ns = refl
tokens_match_prefix (d ∷ ds) ns = rw (bytes_eq_refl d) (tokens_match_prefix ds ns)

prefix_of_tokens_match :
    (ds ns : List Bytes) → tokens_match ds ns ≡ true → (rest : List Bytes) × (ns ≡ ds ++ rest)
unfolding tokens_match
prefix_of_tokens_match [] ns h = (ns, refl)
prefix_of_tokens_match (d ∷ ds) [] h = cc
prefix_of_tokens_match (d ∷ ds) (n ∷ ns) h =
    let (p, q) = &&-true (bytes_eq d n) (tokens_match ds ns) h in
    let (rest, e) = prefix_of_tokens_match ds ns q in (rest, cc (eq_of_bytes_eq d n p))

join-append :
    (d : Bytes) (ds : List Bytes) (n : Bytes) (ns : List Bytes)
    → join ((d ∷ ds) ++ (n ∷ ns)) ≡ join (d ∷ ds) ++ (dot ∷ join (n ∷ ns))
unfolding join
join-append d [] n ns = refl
join-append d (e ∷ ds) n ns =
    ap (λ t. d ++ (dot ∷ t)) (join-append e ds n ns) ∙ sym (append_assoc d _ _)

-- A descriptor with no wildcard sugar: not empty, not `*`, and with no `.` or `.*` at its end.
pub record IsPlain (id : Identifier) : Type 0 where
  pub not_nil : is_nil id ≡ false
  pub not_star : bytes_eq id (codes "*") ≡ false
  pub no_dot : trim_dot id ≡ id
  pub no_dot_star : trim_dot_star id ≡ id

matches_plain :
    (id n : Identifier) → IsPlain id → matches id n ≡ tokens_match (segments id) (segments n)
unfolding matches
matches_plain id n h = rw (h.not_star, h.no_dot_star, h.no_dot, h.not_nil)

-- The event name is the descriptor, or the descriptor, a dot and more.
pub IsTokenPrefix : Identifier → Identifier → Type 0
IsTokenPrefix id n = (n ≡ id) ⊎ ((t : Bytes) × (n ≡ id ++ (dot ∷ t)))

IsTokenPrefix-of_segments :
    (id n : Identifier) (rest : List Bytes) → segments n ≡ segments id ++ rest → IsTokenPrefix id n
unfolding IsTokenPrefix
IsTokenPrefix-of_segments id n [] h =
    inl (sym (join-segments n) ∙ ap join (h ∙ append-nil (segments id)) ∙ join-segments id)
IsTokenPrefix-of_segments id n (r ∷ rs) h =
    let (d, ds, p) = segments_cons id in
    inr (
      join (r ∷ rs),
      sym (join-segments n)
          ∙ ap join (rw p at h)
          ∙ join-append d ds r rs
          ∙ ap (λ s. s ++ (dot ∷ join (r ∷ rs))) (ap join (sym p) ∙ join-segments id),
    )

segments_of_IsTokenPrefix :
    (id n : Identifier) → IsTokenPrefix id n → tokens_match (segments id) (segments n) ≡ true
unfolding IsTokenPrefix
segments_of_IsTokenPrefix id n (inl e) =
    rw e (rw (append-nil (segments id)) at (tokens_match_prefix (segments id) []))
segments_of_IsTokenPrefix id n (inr (t, e)) =
    rw (e, segments-append_dot id t) (tokens_match_prefix (segments id) (segments t))

-- A descriptor without wildcard sugar matches exactly the event names that are the descriptor
-- itself, or that continue it after a dot: never a mere prefix of a token.
pub matches-IsTokenPrefix :
    (id n : Identifier) → IsPlain id → (matches id n ≡ true) ↔ IsTokenPrefix id n
matches-IsTokenPrefix id n h = (
  λ m.
      let (rest, e) =
        prefix_of_tokens_match (segments id) (segments n) (sym (matches_plain id n h) ∙ m) in
      IsTokenPrefix-of_segments id n rest e,
  λ p. matches_plain id n h ∙ segments_of_IsTokenPrefix id n p,
)

trim_dot_star-append : (s : Bytes) → trim_dot_star (s ++ codes ".*") ≡ s
unfolding trim_dot_star
trim_dot_star-append [] = refl
trim_dot_star-append (c ∷ []) = ground arith
trim_dot_star-append (c ∷ d ∷ []) = ground arith
trim_dot_star-append (c ∷ d ∷ e ∷ s) = ground (arith, trim_dot_star-append (d ∷ e ∷ s))

trim_dot-append : (s : Bytes) → trim_dot (s ++ codes ".") ≡ s
unfolding trim_dot
trim_dot-append [] = refl
trim_dot-append (c ∷ []) = ground arith
trim_dot-append (c ∷ d ∷ s) = ground (arith, trim_dot-append (d ∷ s))

trim_dot_star-append_dot : (s : Bytes) → trim_dot_star (s ++ codes ".") ≡ s ++ codes "."
unfolding trim_dot_star
trim_dot_star-append_dot [] = refl
trim_dot_star-append_dot (c ∷ []) = ground arith
trim_dot_star-append_dot (c ∷ d ∷ []) = ground arith
trim_dot_star-append_dot (c ∷ d ∷ e ∷ s) = ground (arith, trim_dot_star-append_dot (d ∷ e ∷ s))

not_star_append_dot : (s : Bytes) → bytes_eq (s ++ codes ".") (codes "*") ≡ false
not_star_append_dot [] = refl
not_star_append_dot (c ∷ []) = ground arith
not_star_append_dot (c ∷ d ∷ s) = ground arith

not_star_append_dot_star : (s : Bytes) → bytes_eq (s ++ codes ".*") (codes "*") ≡ false
not_star_append_dot_star [] = refl
not_star_append_dot_star (c ∷ []) = ground arith
not_star_append_dot_star (c ∷ d ∷ s) = ground arith

-- For a plain descriptor, a trailing `.*` and a trailing `.` change nothing: both match the same
-- event names as the descriptor they follow.
pub matches_suffix_sugar :
    (id n : Identifier)
    → IsPlain id
    → (matches (id ++ codes ".*") n ≡ matches id n) × (matches (id ++ codes ".") n ≡ matches id n)
unfolding matches
matches_suffix_sugar id n h = (
  rw (not_star_append_dot_star id, trim_dot_star-append id, h.not_star, h.no_dot_star, h.no_dot),
  rw (
    not_star_append_dot id,
    trim_dot_star-append_dot id,
    trim_dot-append id,
    h.not_star,
    h.no_dot_star,
    h.no_dot,
  ),
)
