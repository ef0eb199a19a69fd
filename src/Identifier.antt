-- ===== src/Identifier.antt =====
-- identifier.go: dot-segmented names and the matching of event descriptors.
pub mod Matching
use statecharts.Base.{
  ℕ, List, [], ◌∷◌, Bool, true, false, ◌&&◌, ◌||◌, if◌then◌else◌, leb, ◌==◌, all,
}
use statecharts.Base.Bytes.{Bytes, codes, bytes_eq}

abbrev pub Identifier : Type 0
Identifier = Bytes

abbrev pub dot : ℕ
dot = b'.'

abbrev push_first : ℕ → List Bytes → List Bytes
push_first c [] = (c ∷ []) ∷ []
push_first c (s ∷ ss) = (c ∷ s) ∷ ss

-- `strings.Split(id, ".")`, the body of `Segments`.
unfoldable pub segments : Identifier → List Bytes
segments [] = [] ∷ []
segments (c ∷ cs) = let rest = segments cs in if c == dot then [] ∷ rest else push_first c rest

-- `strings.TrimSuffix(d, ".*")`
unfoldable pub trim_dot_star : Bytes → Bytes
trim_dot_star [] = []
trim_dot_star (c ∷ cs) =
    let rest = c ∷ trim_dot_star cs in if bytes_eq (c ∷ cs) (codes ".*") then [] else rest

-- `strings.TrimSuffix(d, ".")`
unfoldable pub trim_dot : Bytes → Bytes
trim_dot [] = []
trim_dot (c ∷ cs) = let rest = c ∷ trim_dot cs in if bytes_eq (c ∷ cs) (codes ".") then [] else rest

-- The length test and the loop of `Matches`: each descriptor token equals the name's token.
unfoldable pub tokens_match : List Bytes → List Bytes → Bool
tokens_match [] ns = true
tokens_match (d ∷ ds) [] = false
tokens_match (d ∷ ds) (n ∷ ns) = bytes_eq d n && tokens_match ds ns

abbrev pub is_nil : Bytes → Bool
is_nil [] = true
is_nil (c ∷ cs) = false

unfoldable pub matches : Identifier → Identifier → Bool
unfolding segments trim_dot_star trim_dot tokens_match
matches id event_name =
    let d = trim_dot (trim_dot_star id) in
    if bytes_eq id (codes "*")
    then true
    else if is_nil d
    then true
    else tokens_match (segments d) (segments event_name)

-- One byte of `^[A-Za-z0-9_-]+$`.
abbrev pub is_segment_byte : ℕ → Bool
is_segment_byte c =
    (leb b'A' c && leb c b'Z')
    || (leb b'a' c && leb c b'z')
    || (leb b'0' c && leb c b'9')
    || (c == b'_')
    || (c == b'-')

unfoldable pub segment_ok : Bytes → Bool
segment_ok [] = false
segment_ok (c ∷ cs) = all is_segment_byte (c ∷ cs)

-- The loop of `NewIdentifier`: only the last segment may be `*` or empty.
unfoldable pub segments_ok : List Bytes → Bool
unfolding segment_ok
segments_ok [] = true
segments_ok (s ∷ []) = bytes_eq s (codes "*") || is_nil s || segment_ok s
segments_ok (s ∷ t ∷ ts) = segment_ok s && segments_ok (t ∷ ts)

-- `strings.TrimPrefix(s, "#")`
unfoldable pub trim_hash : Bytes → Bytes
trim_hash [] = []
trim_hash (c ∷ cs) = if c == b'#' then cs else c ∷ cs

-- Whether `NewIdentifier` accepts the string.
unfoldable pub new_identifier : Bytes → Bool
unfolding segments segments_ok trim_hash
new_identifier s =
    let check = trim_hash s in
    if is_nil s || is_nil check
    then false
    else if bytes_eq check (codes "*")
    then true
    else segments_ok (segments check)
