-- ===== src/Tokens/Format/RoundTrip.antt =====
-- A rendered token parses.
use rheo_stream.Prelude.{
  ℕ, Char, code, String, Bool, true, false, ◌&&◌, List, some, ◌==◌, ==_refl, ◌≡◌, refl, ◌∙◌, ap,
  arith,
}
use Prim.Native.String.{[], ◌∷◌, ◌++◌}
use text.Mathlib.TextLemmas.{nil-append, cons-append}
use rheo_stream.Prelude.Text.{is_lower}
use rheo_stream.Tokens.Format.{
  Base64, render, is_value, parse_kind, after_prefix, byte_count, parse, parse_raw, parse_parts,
  parse_after,
}

-- `[a-z]*`
unfoldable pub all_lower : String → Bool
all_lower [] = true
all_lower (c ∷ s) = is_lower (code c) && all_lower s

-- `[a-z]+`
abbrev pub is_kind : String → Bool
is_kind [] = false
is_kind (c ∷ s) = all_lower (c ∷ s)

after_prefix-append : (p s : String) → after_prefix p (p ++ s) ≡ some s
unfolding after_prefix
after_prefix-append [] s = ap some (nil-append s)
after_prefix-append (c ∷ p) s = rw (cons-append, after_prefix-append p s, ==_refl (code c)) refl

parse_kind-append :
    (kind value : String) (d : Char)
    → all_lower kind ≡ true
    → (code d == b'_') ≡ true
    → parse_kind (kind ++ ((d ∷ []) ++ value)) ≡ some (kind, value)
unfolding parse_kind all_lower
parse_kind-append [] value d h e = rw (nil-append, cons-append, nil-append, e) refl
parse_kind-append (c ∷ kind) value d h e =
    rw (cons-append, parse_kind-append kind value d (ground arith) e) (ground arith)

is_bar : String → Bool
is_bar (c ∷ []) = code c == b'_'
is_bar _ = false

parse_kind-bar :
    (bar kind value : String)
    → all_lower kind ≡ true
    → is_bar bar ≡ true
    → parse_kind (kind ++ (bar ++ value)) ≡ some (kind, value)
unfolding is_bar
parse_kind-bar [] kind value h e = ground arith
parse_kind-bar (d ∷ []) kind value h e = parse_kind-append kind value d h e
parse_kind-bar (d ∷ c ∷ s) kind value h e = ground arith

-- A token that is rendered from a kind of lower-case letters and 32 bytes parses as them, where
-- base64 gives the bytes 43 characters of its alphabet and decodes these again.
pub parse-render :
    (base64 : Base64) (kind : String) (raw : List ℕ)
    → is_kind kind ≡ true
    → byte_count raw ≡ 32
    → is_value 43 (base64.encode raw) ≡ true
    → base64.decode (base64.encode raw) ≡ some raw
    → parse base64 (render base64 kind raw) ≡ some (record { kind = kind; raw = raw })
unfolding parse render is_bar parse_after parse_parts parse_raw
parse-render base64 [] raw k n v d = ground arith
parse-render base64 (c ∷ kind) raw k n v d =
    ap (parse_after base64) (after_prefix-append "rheo_" ((c ∷ kind) ++ ("_" ++ base64.encode raw)))
    ∙ ap (parse_parts base64) (parse_kind-bar "_" (c ∷ kind) (base64.encode raw) k refl)
    ∙ rw (v, d, n) refl
