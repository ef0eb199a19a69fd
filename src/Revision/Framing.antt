-- ===== src/Revision/Framing.antt =====
-- The envelope's framing loses nothing: its parts can be read back from its bytes.
use statecharts.Base.{
  ℕ, zero, suc, ◌/◌, ◌%◌, ◌^◌, ◌<◌, [], ◌∷◌, ◌++◌, length, length-append, append_inj, append-nil,
  append_assoc, ◌≡◌, refl, sym, ap, ◌∙◌, All, arith, ◌⊎◌, inl, inr, ◌≢◌, Bool-cases,
}
use native.Mathlib.Nat.{pow-suc}
use statecharts.Base.Bytes.{Bytes, codes, bytes_eq, bytes_eq_refl, eq_of_bytes_eq}
use statecharts.Revision.{
  big_endian, write_revision_field, envelope, hex_digit, hex_encode, derive_revision,
  revision_envelope_magic, revision_envelope_version,
}

length-big_endian : (k n : ℕ) → length (big_endian k n) ≡ k
unfolding big_endian
length-big_endian zero n = refl
length-big_endian (suc k) n =
    omega (
      arith,
      length-append (big_endian k (n / 256)) ((n % 256) ∷ []),
      length-big_endian k (n / 256),
    )

-- A number below 256 ^ k is determined by its k big-endian bytes.
big_endian_injective :
    (k m n : ℕ) → m < 256 ^ k → n < 256 ^ k → big_endian k m ≡ big_endian k n → m ≡ n
unfolding big_endian
big_endian_injective zero m n p q e = omega arith
big_endian_injective (suc k) m n p q e =
    let (high, low) =
      append_inj (big_endian k (m / 256)) (big_endian k (n / 256))
        (length-big_endian k (m / 256) ∙ sym (length-big_endian k (n / 256))) e in
    let same : m / 256 ≡ n / 256 =
      big_endian_injective k (m / 256) (n / 256) (omega (arith, pow-suc 256 k))
        (omega (arith, pow-suc 256 k)) high in
    let digit : m % 256 ≡ n % 256 = cc in omega arith

-- A length-prefixed field is separated from whatever follows it.
write_revision_field_inj :
    (x y : Bytes) {u v : Bytes}
    → length x < 256 ^ 8
    → length y < 256 ^ 8
    → write_revision_field x ++ u ≡ write_revision_field y ++ v
    → (x ≡ y) × (u ≡ v)
unfolding write_revision_field
write_revision_field_inj x y {u} {v} p q e =
    let (size, rest) =
      append_inj (big_endian 8 (length x)) (big_endian 8 (length y))
        (length-big_endian 8 (length x) ∙ sym (length-big_endian 8 (length y)))
        (sym (append_assoc (big_endian 8 (length x)) x u)
          ∙ e
          ∙ append_assoc (big_endian 8 (length y)) y v) in
    append_inj x y (big_endian_injective 8 (length x) (length y) p q size) rest

-- Chart revisions are derived from unambiguous material: two envelopes are equal only if the
-- canonical definitions, the datamodel names and the program fingerprints are equal, provided
-- that every part is shorter than 2 ^ 64 bytes, as Go's lengths are.
pub envelope_injective :
    (c d f c' d' f' : Bytes)
    → All (λ s. length s < 256 ^ 8) (c ∷ d ∷ f ∷ c' ∷ d' ∷ f' ∷ [])
    → envelope c d f ≡ envelope c' d' f'
    → (c ≡ c') × (d ≡ d') × (f ≡ f')
unfolding envelope
envelope_injective c d f c' d' f' h e =
    let (_, fields) = append_inj revision_envelope_magic revision_envelope_magic refl e in
    let (_, fields') =
      append_inj (big_endian 4 revision_envelope_version) (big_endian 4 revision_envelope_version)
        refl fields in
    let (same_c, rest) = write_revision_field_inj c c' h.0 h.1.1.1.0 fields' in
    let (same_d, rest') = write_revision_field_inj d d' h.1.0 h.1.1.1.1.0 rest in
    let (same_f, _) =
      write_revision_field_inj f f' {u = []} {v = []} h.1.1.0 h.1.1.1.1.1.0
        (append-nil _ ∙ rest' ∙ sym (append-nil _)) in
    (same_c, same_d, same_f)

abbrev pub AreBytes : Bytes → Type 0
AreBytes = All (λ b. b < 256)

hex_digit_injective : (m n : ℕ) → m < 16 → n < 16 → hex_digit m ≡ hex_digit n → m ≡ n
hex_digit_injective m n p q e = ground arith

hex_encode_injective : (x y : Bytes) → AreBytes x → AreBytes y → hex_encode x ≡ hex_encode y → x ≡ y
unfolding hex_encode
hex_encode_injective [] [] p q e = refl
hex_encode_injective [] (b ∷ y) p q e = cc
hex_encode_injective (a ∷ x) [] p q e = cc
hex_encode_injective (a ∷ x) (b ∷ y) p q e =
    let high : a / 16 ≡ b / 16 =
      hex_digit_injective (a / 16) (b / 16) (omega arith) (omega arith) cc in
    let low : a % 16 ≡ b % 16 =
      hex_digit_injective (a % 16) (b % 16) (omega arith) (omega arith) cc in
    let head : a ≡ b = omega arith in let tail : x ≡ y = hex_encode_injective x y p.1 q.1 cc in cc

-- Two charts with the same revision have the same canonical definition, datamodel name and
-- fingerprint, or they exhibit a collision of the digest: two distinct envelopes with one
-- digest. (The digest yields bytes, and every part is shorter than 2 ^ 64 bytes.)
pub derive_revision_identifies :
    (digest : Bytes → Bytes) (c d f c' d' f' : Bytes)
    → ((x : Bytes) → AreBytes (digest x))
    → All (λ s. length s < 256 ^ 8) (c ∷ d ∷ f ∷ c' ∷ d' ∷ f' ∷ [])
    → derive_revision digest c d f ≡ derive_revision digest c' d' f'
    → ((c ≡ c') × (d ≡ d') × (f ≡ f'))
      ⊎ ((envelope c d f ≢ envelope c' d' f')
          × (digest (envelope c d f) ≡ digest (envelope c' d' f')))
unfolding derive_revision
derive_revision_identifies digest c d f c' d' f' bytes h e =
    let same =
      hex_encode_injective (digest (envelope c d f)) (digest (envelope c' d' f'))
        (bytes (envelope c d f)) (bytes (envelope c' d' f'))
        (append_inj (codes "sha256:") (codes "sha256:") refl e).1 in
    elim (Bool-cases (bytes_eq (envelope c d f) (envelope c' d' f'))) [
      | inl yes_eq ↦ inl (
          envelope_injective c d f c' d' f' h
            (eq_of_bytes_eq (envelope c d f) (envelope c' d' f') yes_eq))
      | inr no_eq ↦
          inr (
            λ p. cc (no_eq, ap (bytes_eq (envelope c d f)) p, bytes_eq_refl (envelope c d f)),
            same,
          )
    ]
