-- ===== src/Settings/Codec/Decimal.antt =====
-- Python's `int(text)` and `str(n)` in base ten, over the ASCII digits.
pub mod RoundTrip
use Prim.Native.Char.{Char}
use Prim.Native.String.{[], ◌∷◌}
use rheo_stream.Prelude.{
  ℕ, zero, suc, ◌+◌, ◌-◌, ◌*◌, ◌/◌, ◌%◌, code, String, Bool, true, false, ◌&&◌, Option, none, some,
  ◌≡◌, refl, ◌==◌, if◌then◌else◌,
}
use rheo_stream.Prelude.Int.{ℤ, pos, negsuc}
use rheo_stream.Prelude.Text.{is_digit}

-- The digits with single underscores between them; `after` tells whether a digit was last.
scan : ℕ → Bool → String → Option ℕ
scan n after [] = if after then some n else none
scan n after (c ∷ s) =
    let next = scan (n * 10 + (code c - b'0')) true s in
    let skip = scan n false s in
    if is_digit (code c) then next else if after && code c == b'_' then skip else none

negate : ℕ → ℤ
negate zero = pos 0
negate (suc n) = negsuc n

abbrev to_pos : Option ℕ → Option ℤ
to_pos none = none
to_pos (some n) = some (pos n)

abbrev to_neg : Option ℕ → Option ℤ
to_neg none = none
to_neg (some n) = some (negate n)

-- `int(text)`, on a text with no space around it
unfoldable pub parse_int : String → Option ℤ
unfolding scan negate
parse_int [] = none
parse_int (c ∷ s) =
    if code c == b'-'
    then to_neg (scan 0 false s)
    else if code c == b'+'
    then to_pos (scan 0 false s)
    else to_pos (scan 0 false (c ∷ s))

digit : ℕ → Char
digit zero = "0"
digit (suc zero) = "1"
digit (suc (suc zero)) = "2"
digit (suc (suc (suc zero))) = "3"
digit (suc (suc (suc (suc zero)))) = "4"
digit (suc (suc (suc (suc (suc zero))))) = "5"
digit (suc (suc (suc (suc (suc (suc zero)))))) = "6"
digit (suc (suc (suc (suc (suc (suc (suc zero))))))) = "7"
digit (suc (suc (suc (suc (suc (suc (suc (suc zero)))))))) = "8"
digit (suc (suc (suc (suc (suc (suc (suc (suc (suc n))))))))) = "9"

-- One round for each digit: the fuel `suc n` is enough, since n / 10 < n.
emit : ℕ → ℕ → String → String
emit zero n out = out
emit (suc f) n out =
    let more = emit f (n / 10) (digit (n % 10) ∷ out) in if n == 0 then out else more

unfoldable pub show_ℕ : ℕ → String
unfolding emit digit
show_ℕ zero = "0"
show_ℕ (suc n) = emit (suc (suc n)) (suc n) ""

-- `str(n)`
unfoldable pub show_int : ℤ → String
unfolding show_ℕ
show_int (pos n) = show_ℕ n
show_int (negsuc n) = "-" ∷ show_ℕ (suc n)

show_test : show_int (negsuc 1233) ≡ "-1234"
unfolding show_int
show_test = refl

parse_test : parse_int "-1_234" ≡ some (negsuc 1233)
unfolding parse_int
parse_test = refl
