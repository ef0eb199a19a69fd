-- ===== src/Validate/Canonical.antt =====
-- definition_canonical.go: the bytes that stand for a definition. `json.Marshal` of a definition is the
-- parameter `codec`: package encoding/json, as the tags of the fields and the `MarshalJSON` methods
-- direct it. How a definition is decoded is not modelled.
use statecharts.Base.{ℕ, Bool, [], ◌∷◌, ◌++◌, Option, none, some}
use statecharts.Base.Bytes.{Bytes, codes}
use statecharts.Revision.{big_endian}
use statecharts.Definition.{Definition}
use statecharts.Definition.Checked.{without_path, Checked, pass, fail, ◌>>=◌}
use statecharts.Validate.{normalize_definition}

-- The encoding of a definition as JSON.
pub record Codec : Type 0 where
  pub marshal : Definition → Option Bytes

abbrev pub definition_canonical_version : ℕ
definition_canonical_version = 2

abbrev pub definition_canonical_magic : Bytes
definition_canonical_magic = codes "statecharts-definition" ++ (0 ∷ [])

-- The magic and the version.
unfoldable pub canonical_header : Bytes
unfolding big_endian
canonical_header = definition_canonical_magic ++ big_endian 4 definition_canonical_version

-- An error without a path.
abbrev pub or_error {ℓ} : {A : Type ℓ} → Option A → Checked A
or_error none = fail without_path
or_error (some a) = pass a

module _ (valid_utf8 : Bytes → Bool) (codec : Codec) where
  unfoldable pub canonical_bytes : Definition → Checked Bytes
  unfolding normalize_definition canonical_header
  canonical_bytes d = do
    n ← normalize_definition valid_utf8 d
    body ← or_error (codec.marshal n)
    pass (canonical_header ++ body)
