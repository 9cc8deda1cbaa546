-- ===== src/Settings/Codec/Decimal/RoundTrip.antt =====
-- `int(str(n)) == n`.
use Prim.Native.String.{◌∷◌}
use rheo_stream.Prelude.{
  ℕ, zero, suc, ◌+◌, ◌*◌, ◌/◌, ◌%◌, ◌<◌, code, String, Bool, true, false, some, ◌≡◌, refl, ◌∙◌, ap,
  arith, ◌==◌, Bool-cases, inl, inr,
}
use rheo_stream.Prelude.Int.{ℤ, pos, negsuc}
use rheo_stream.Prelude.Text.{is_digit, is_space, strip}
use rheo_stream.Prelude.Text.Strip.{NoSpace, strip-NoSpace}
use rheo_stream.Settings.Codec.Decimal.{
  scan, to_pos, to_neg, parse_int, digit, emit, show_ℕ, show_int,
}

code-digit : (k : ℕ) → k < 10 → code (digit k) ≡ 48 + k
unfolding digit
code-digit zero h = refl
code-digit (suc zero) h = refl
code-digit (suc (suc zero)) h = refl
code-digit (suc (suc (suc zero))) h = refl
code-digit (suc (suc (suc (suc zero)))) h = refl
code-digit (suc (suc (suc (suc (suc zero))))) h = refl
code-digit (suc (suc (suc (suc (suc (suc zero)))))) h = refl
code-digit (suc (suc (suc (suc (suc (suc (suc zero))))))) h = refl
code-digit (suc (suc (suc (suc (suc (suc (suc (suc zero)))))))) h = refl
code-digit (suc (suc (suc (suc (suc (suc (suc (suc (suc zero))))))))) h = refl
code-digit (suc (suc (suc (suc (suc (suc (suc (suc (suc (suc k)))))))))) h = absurd (omega arith)

scan-digit :
    (m : ℕ) (after : Bool) (k : ℕ) (out : String)
    → k < 10
    → scan m after (digit k ∷ out) ≡ scan (m * 10 + k) true out
unfolding scan
scan-digit m after k out h =
    let e = code-digit k h in
    let is : is_digit (code (digit k)) ≡ true = ground (arith, e) in
    rw is (ap (λ v. scan (m * 10 + v) true out) (omega (arith, e)))

scan-emit :
    (f n : ℕ) (after : Bool) (out : String)
    → 0 < n
    → n < f
    → scan 0 after (emit f n out) ≡ scan n true out
unfolding emit
scan-emit zero n after out p h = absurd (omega arith)
scan-emit (suc zero) n after out p h = absurd (omega arith)
scan-emit (suc (suc f)) n after out p h =
    let nonzero : (n == 0) ≡ false = ground arith in
    rw nonzero (elim (Bool-cases (n / 10 == 0)) [
      | inl last ↦
          rw last (
            scan-digit 0 after (n % 10) out (omega arith)
            ∙ ap (λ v. scan v true out) (ground arith))
      | inr more ↦
          scan-emit (suc f) (n / 10) after (digit (n % 10) ∷ out) (ground arith) (omega arith)
          ∙ scan-digit (n / 10) true (n % 10) out (omega arith)
          ∙ ap (λ v. scan v true out) (omega arith)
    ])

-- A text that begins with a digit.
abbrev Begins : String → Type 0
Begins s = (k : ℕ) × (k < 10) × (rest : String) × (s ≡ digit k ∷ rest)

emit-Begins : (f n : ℕ) (out : String) → 0 < n → n < f → Begins (emit f n out)
unfolding emit
emit-Begins zero n out p h = absurd (omega arith)
emit-Begins (suc zero) n out p h = absurd (omega arith)
emit-Begins (suc (suc f)) n out p h =
    let nonzero : (n == 0) ≡ false = ground arith in
    rw nonzero (elim (Bool-cases (n / 10 == 0)) [
      | inl last ↦ rw last (n % 10, omega arith, out, refl)
      | inr more ↦ emit-Begins (suc f) (n / 10) (digit (n % 10) ∷ out) (ground arith) (omega arith)
    ])

parse_int-Begins : (s : String) → Begins s → parse_int s ≡ to_pos (scan 0 false s)
unfolding parse_int
parse_int-Begins s (k, small, rest, e) = rw e (ground (arith, code-digit k small))

NoSpace-digit : (k : ℕ) → k < 10 → is_space (code (digit k)) ≡ false
unfolding is_space
NoSpace-digit k h = ground (arith, code-digit k h)

emit-NoSpace : (f n : ℕ) (out : String) → NoSpace out → NoSpace (emit f n out)
unfolding emit
emit-NoSpace zero n out h = h
emit-NoSpace (suc f) n out h = elim (Bool-cases (n == 0)) [
  | inl done ↦ rw done h
  | inr more ↦
      rw more
        (emit-NoSpace f (n / 10) (digit (n % 10) ∷ out) (NoSpace-digit (n % 10) (omega arith), h))
]

show_ℕ-NoSpace : (n : ℕ) → NoSpace (show_ℕ n)
unfolding show_ℕ is_space
show_ℕ-NoSpace zero = (refl, tt)
show_ℕ-NoSpace (suc n) = emit-NoSpace (suc (suc n)) (suc n) "" tt

show_int-NoSpace : (n : ℤ) → NoSpace (show_int n)
unfolding show_int is_space
show_int-NoSpace (pos n) = show_ℕ-NoSpace n
show_int-NoSpace (negsuc n) = (refl, show_ℕ-NoSpace (suc n))

scan-show_ℕ : (n : ℕ) → scan 0 false (show_ℕ n) ≡ some n
unfolding show_ℕ scan
scan-show_ℕ zero = refl
scan-show_ℕ (suc n) = scan-emit (suc (suc n)) (suc n) false "" (omega arith) (omega arith)

parse_int-show_int : (n : ℤ) → parse_int (show_int n) ≡ some n
unfolding show_int
parse_int-show_int (pos zero) = unfold parse_int show_ℕ in refl
parse_int-show_int (pos (suc n)) =
    parse_int-Begins (show_ℕ (suc n))
      (unfold show_ℕ in emit-Begins (suc (suc n)) (suc n) "" (omega arith) (omega arith))
    ∙ ap to_pos (scan-show_ℕ (suc n))
parse_int-show_int (negsuc n) = unfold parse_int in ap to_neg (scan-show_ℕ (suc n))

-- Printing an integer, stripping the text and reading it gives the integer back.
pub parse_int-strip-show_int : (n : ℤ) → parse_int (strip (show_int n)) ≡ some n
parse_int-strip-show_int n =
    ap parse_int (strip-NoSpace (show_int n) (show_int-NoSpace n)) ∙ parse_int-show_int n
