-- ===== src/Event/Details.antt =====
-- Platform errors are read as they were written.
use statecharts.Base.{Bool, true, all, ltb, ◌≡◌, refl, some}
use statecharts.Base.Bytes.{Bytes, codes}
use statecharts.Identifier.{Identifier}
use statecharts.Value.{text, keys_valid, map_value, string_value, string_or_null}
use statecharts.Value.Wire.{tagged_value}
use statecharts.Event.{
  Error, platform_error_value, platform_error_details, platform_error_value_tag,
}

abbrev pub is_ascii : Bytes → Bool
is_ascii = all (λ b. ltb b 128)

module _ (valid_utf8 : Bytes → Bool) (to_valid_utf8 : Bytes → Bytes) where
  string_or_null_valid : (s : Bytes) → valid_utf8 s ≡ true → string_or_null valid_utf8 s ≡ text s
  unfolding string_or_null string_value
  string_or_null_valid s h = rw (h, string_or_null) refl

  -- Where `strings.ToValidUTF8` returns valid UTF-8, and ASCII is valid UTF-8,
  -- `PlatformErrorDetails` reads from the value that `PlatformErrorValue` makes the classification and
  -- the message, as `strings.ToValidUTF8` left them: none of the checks of `StringValue`, `MapValue`
  -- and `TaggedValue` fails.
  pub platform_error_details-platform_error_value :
      (classification : Identifier) (e : Error)
      → ((s : Bytes) → valid_utf8 (to_valid_utf8 s) ≡ true)
      → ((s : Bytes) → is_ascii s ≡ true → valid_utf8 s ≡ true)
      → platform_error_details (platform_error_value valid_utf8 to_valid_utf8 classification e)
        ≡ some (to_valid_utf8 classification, to_valid_utf8 e.message)
  unfolding platform_error_details platform_error_value map_value keys_valid tagged_value
  platform_error_details-platform_error_value classification e valid ascii =
      rw
        (
          string_or_null_valid (to_valid_utf8 classification) (valid classification),
          string_or_null_valid (to_valid_utf8 e.message) (valid e.message),
          ascii (codes "classification") refl,
          ascii (codes "message") refl,
          ascii platform_error_value_tag refl,
        )
        refl
