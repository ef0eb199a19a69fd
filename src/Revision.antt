-- ===== src/Revision.antt =====
-- revision.go: the envelope whose digest is a chart's revision. `sha256.Sum` is the parameter
-- `digest`.
pub mod Framing
use statecharts.Base.{ℕ, zero, suc, ◌/◌, ◌%◌, List, [], ◌∷◌, ◌++◌, length, if◌then◌else◌, ltb, ◌+◌}
use statecharts.Base.Bytes.{Bytes, codes}

abbrev pub revision_envelope_version : ℕ
revision_envelope_version = 1

abbrev pub revision_envelope_magic : Bytes
revision_envelope_magic = codes "statecharts-revision" ++ (0 ∷ [])

-- `binary.BigEndian.PutUint32` at 4 bytes and `PutUint64` at 8.
unfoldable pub big_endian : ℕ → ℕ → Bytes
big_endian zero n = []
big_endian (suc k) n = big_endian k (n / 256) ++ ((n % 256) ∷ [])

-- `writeRevisionField`: the bytes that it adds to the digest.
unfoldable pub write_revision_field : Bytes → Bytes
unfolding big_endian
write_revision_field value = big_endian 8 (length value) ++ value

-- All that `deriveRevisionFromCanonical` writes to the digest, in its order.
unfoldable pub envelope : Bytes → Bytes → Bytes → Bytes
unfolding write_revision_field
envelope canonical datamodel fingerprint =
    revision_envelope_magic
    ++ (big_endian 4 revision_envelope_version
        ++ (write_revision_field canonical
            ++ (write_revision_field datamodel ++ write_revision_field fingerprint)))

abbrev hex_digit : ℕ → ℕ
hex_digit n = if ltb n 10 then b'0' + n else 87 + n

-- `hex.EncodeToString`
unfoldable pub hex_encode : Bytes → Bytes
hex_encode [] = []
hex_encode (b ∷ bs) = hex_digit (b / 16) ∷ hex_digit (b % 16) ∷ hex_encode bs

unfoldable pub derive_revision : (Bytes → Bytes) → Bytes → Bytes → Bytes → Bytes
unfolding envelope hex_encode
derive_revision digest canonical datamodel fingerprint =
    codes "sha256:" ++ hex_encode (digest (envelope canonical datamodel fingerprint))
