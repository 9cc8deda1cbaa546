-- ===== src/Tokens/Format.antt =====
-- tokens/format.py: `rheo_<kind>_<43 base64url characters>`. The random bytes and base64 are
-- parameters; a byte is a number.
pub mod RoundTrip
use rheo_stream.Prelude.{
  ℕ, zero, suc, Char, code, String, Bool, true, false, ◌&&◌, ◌||◌, List, Option, none, some, ◌==◌,
  leb, if◌then◌else◌,
}
use Prim.Native.String.{[], ◌∷◌, ◌++◌}
use rheo_stream.Prelude.Text.{is_lower, is_digit}

-- `base64.urlsafe_b64encode(raw).rstrip(b"=")`, and `base64.urlsafe_b64decode` of a text with its
-- padding restored, `none` where it raises `ValueError`.
pub record Base64 : Type 0 where
  pub encode : List ℕ → String
  pub decode : String → Option (List ℕ)

pub record ParsedToken : Type 0 where
  pub kind : String
  pub raw : List ℕ

-- The string of `mint`, for the bytes drawn
unfoldable pub render : Base64 → String → List ℕ → String
render base64 kind raw = "rheo_" ++ (kind ++ ("_" ++ base64.encode raw))

-- `[A-Za-z0-9_-]`
abbrev is_url_char : ℕ → Bool
is_url_char c = is_lower c || is_digit c || (leb b'A' c && leb c b'Z') || c == b'_' || c == b'-'

-- `[A-Za-z0-9_-]{n}\Z`
unfoldable pub is_value : ℕ → String → Bool
is_value zero [] = true
is_value (suc n) (c ∷ s) = is_url_char (code c) && is_value n s
is_value _ _ = false

-- `(?P<kind>[a-z]+)_(?P<value>…)`, from the second letter of the kind on
unfoldable pub parse_kind : String → Option (String × String)
parse_kind [] = none
parse_kind (c ∷ s) =
    let rest = parse_kind s in
    if code c == b'_'
    then some ([], s)
    else if is_lower (code c)
    then elim rest [ none ↦ none | some (k, v) ↦ some (c ∷ k, v) ]
    else none

-- `s.removeprefix(prefix)` where it is one
unfoldable pub after_prefix : String → String → Option String
after_prefix [] s = some s
after_prefix (p ∷ prefix) [] = none
after_prefix (p ∷ prefix) (c ∷ s) =
    let rest = after_prefix prefix s in if code p == code c then rest else none

abbrev pub byte_count : List ℕ → ℕ
byte_count List.[] = 0
byte_count (List.◌∷◌ b bs) = suc (byte_count bs)

parse_raw : String → Option (List ℕ) → Option ParsedToken
parse_raw kind none = none
parse_raw kind (some raw) =
    if byte_count raw == 32 then some (record { kind = kind; raw = raw }) else none

parse_parts : Base64 → Option (String × String) → Option ParsedToken
parse_parts base64 none = none
parse_parts base64 (some ([], value)) = none
parse_parts base64 (some (c ∷ kind, value)) =
    if is_value 43 value then parse_raw (c ∷ kind) (base64.decode value) else none

parse_after : Base64 → Option String → Option ParsedToken
parse_after base64 none = none
parse_after base64 (some s) = parse_parts base64 (parse_kind s)

unfoldable pub parse : Base64 → String → Option ParsedToken
unfolding parse_raw parse_parts parse_after
parse base64 token = parse_after base64 (after_prefix "rheo_" token)
