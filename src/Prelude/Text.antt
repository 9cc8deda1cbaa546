-- ===== src/Prelude/Text.antt =====
-- Walking a text by its characters: the `str` methods that the code calls. Case mapping is that of
-- the ASCII letters; `is_space` has every character that Python's `str.strip` removes.
pub mod Strip
pub mod Split
use Prim.Native.Nat.{ℕ, zero, suc}
use Prim.Native.Char.{Char, code}
use Prim.Native.String.{String, [], ◌∷◌, ◌++◌}
use mathlib.Core.Path.{◌≡◌, refl}
use mathlib.Core.Bool.{Bool, true, false, ◌&&◌, ◌||◌}
use mathlib.Core.List.{List}
use text.Mathlib.Text.{◌==◌ as str_eq}
use rheo_stream.Prelude.Tests.{◌==◌, leb, if◌then◌else◌}

abbrev pub is_lower : ℕ → Bool
is_lower c = leb b'a' c && leb c b'z'

abbrev pub is_digit : ℕ → Bool
is_digit c = leb b'0' c && leb c b'9'

unfoldable pub is_space : ℕ → Bool
is_space c =
    (leb 9 c && leb c 13)
    || (leb 28 c && leb c 32)
    || c == 133
    || c == 160
    || c == 5760
    || (leb 8192 c && leb c 8202)
    || c == 8232
    || c == 8233
    || c == 8239
    || c == 8287
    || c == 12288

-- The character of `to` at the place of `c` in `from`, or `c`.
translate : String → String → Char → Char
translate (f ∷ from) (t ∷ to) c =
    let rest = translate from to c in if code c == code f then t else rest
translate _ _ c = c

-- `s.lower()`
unfoldable pub lower : String → String
unfolding translate
lower [] = []
lower (c ∷ s) = translate "ABCDEFGHIJKLMNOPQRSTUVWXYZ" "abcdefghijklmnopqrstuvwxyz" c ∷ lower s

-- `s.upper()`
unfoldable pub upper : String → String
unfolding translate
upper [] = []
upper (c ∷ s) = translate "abcdefghijklmnopqrstuvwxyz" "ABCDEFGHIJKLMNOPQRSTUVWXYZ" c ∷ upper s

-- `s.replace(".", "__")`
unfoldable pub dots_to_bars : String → String
dots_to_bars [] = []
dots_to_bars (c ∷ s) = (if code c == b'.' then "__" else c ∷ []) ++ dots_to_bars s

-- `s.replace("__", ".")`
unfoldable pub bars_to_dots : String → String
bars_to_dots [] = []
bars_to_dots (c ∷ []) = c ∷ []
bars_to_dots (c ∷ d ∷ s) =
    let both = "." ++ bars_to_dots s in
    let one = c ∷ bars_to_dots (d ∷ s) in if code c == b'_' && code d == b'_' then both else one

-- `s[n:]`
abbrev pub drop_chars : ℕ → String → String
drop_chars zero s = s
drop_chars (suc n) [] = []
drop_chars (suc n) (c ∷ s) = drop_chars n s

unfoldable pub strip_left : String → String
strip_left [] = []
strip_left (c ∷ s) = let rest = strip_left s in if is_space (code c) then rest else c ∷ s

unfoldable pub strip_right : String → String
strip_right [] = []
strip_right (c ∷ s) =
    let rest = strip_right s in if is_space (code c) && str_eq rest "" then "" else c ∷ rest

-- `s.strip()`
unfoldable pub strip : String → String
unfolding strip_left strip_right is_space
strip s = strip_right (strip_left s)

abbrev pub push_head : Char → List String → List String
push_head c List.[] = List.◌∷◌ (c ∷ []) List.[]
push_head c (List.◌∷◌ w ws) = List.◌∷◌ (c ∷ w) ws

-- `s.split(sep)`, for a separator of one character
unfoldable pub split : ℕ → String → List String
split sep [] = List.◌∷◌ [] List.[]
split sep (c ∷ s) =
    let rest = split sep s in if code c == sep then List.◌∷◌ [] rest else push_head c rest

-- `sep.join(words)`
unfoldable pub join : String → List String → String
join sep List.[] = ""
join sep (List.◌∷◌ w List.[]) = w
join sep (List.◌∷◌ w (List.◌∷◌ v ws)) = w ++ (sep ++ join sep (List.◌∷◌ v ws))

strip_test : strip "  on \n" ≡ "on"
unfolding strip
strip_test = refl

split_test : split b',' ",a,b " ≡ List.◌∷◌ "" (List.◌∷◌ "a" (List.◌∷◌ "b " List.[]))
unfolding split
split_test = refl

upper_test : upper "identity.x_1" ≡ "IDENTITY.X_1"
unfolding upper
upper_test = refl

bars_test : bars_to_dots "identity__x_y" ≡ "identity.x_y"
unfolding bars_to_dots
bars_test = refl

-- `[a-z0-9_]*`
abbrev pub is_word_char : ℕ → Bool
is_word_char c = is_lower c || is_digit c || c == b'_'

unfoldable pub all_word : String → Bool
all_word [] = true
all_word (c ∷ s) = is_word_char (code c) && all_word s

-- `[a-z][a-z0-9_]*`
unfoldable pub is_segment : String → Bool
unfolding all_word
is_segment [] = false
is_segment (c ∷ s) = is_lower (code c) && all_word s

-- The characters of a text, counted.
unfoldable pub count : String → ℕ
count [] = 0
count (c ∷ s) = suc (count s)

-- `[a-z_][a-z0-9_]{0,62}`
unfoldable pub is_database_name : String → Bool
unfolding all_word count
is_database_name [] = false
is_database_name (c ∷ s) = (is_lower (code c) || code c == b'_') && all_word s && leb (count s) 62
