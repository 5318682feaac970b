-- ===== src/Text/Decimal/RoundTrip.antt =====
-- Reading back what `toString` printed.
use soro_lend.Prelude.{
  ℕ, zero, suc, ◌+◌, ◌-◌, ◌*◌, ◌/◌, ◌%◌, ◌≤◌, ◌<◌, ◌≡◌, ◌≢◌, refl, ap, ◌∙◌, false, some, List, [],
  ◌∷◌, arith, ltb, Bool-cases, inl, inr,
}
use soro_lend.Prelude.Int.{ℤ, pos, negsuc}
use soro_lend.Text.Decimal.{
  is_blank, trim_start, trim_end, digit_value, scan, numeral, unsigned, literal, bigint, emit,
  digits, to_text,
}

abbrev pub IsDigit : ℕ → Type 0
IsDigit c = (b'0' ≤ c) × (c ≤ b'9')

abbrev pub AllDigits : List ℕ → Type 0
AllDigits [] = Unit {0}
AllDigits (c ∷ s) = IsDigit c × AllDigits s

is_blank-digit : (c : ℕ) → b'-' ≤ c → c ≤ b'9' → is_blank c ≡ false
unfolding is_blank
is_blank-digit c h k = ground arith

digit_value-digit : (c : ℕ) → IsDigit c → digit_value c ≡ c - b'0'
unfolding digit_value
digit_value-digit c h = ground arith

trim_end-digits : (s : List ℕ) → AllDigits s → trim_end s ≡ s
unfolding trim_end
trim_end-digits [] h = refl
trim_end-digits (c ∷ []) h = rw (is_blank-digit c (omega arith) h.0.1)
trim_end-digits (c ∷ d ∷ s) h = rw (trim_end-digits (d ∷ s) h.1)

emit-digits : (f n : ℕ) (out : List ℕ) → AllDigits out → AllDigits (emit f n out)
unfolding emit
emit-digits zero n out h = h
emit-digits (suc f) n out h = ground (arith, emit-digits f (n / 10) ((b'0' + n % 10) ∷ out))

emit-cons : (f n : ℕ) (out : List ℕ) → n < f → emit f n out ≢ []
unfolding emit
emit-cons zero n out h = elim h [ ]
emit-cons (suc f) n out h = ground (arith, emit-cons f (n / 10) ((b'0' + n % 10) ∷ out))

scan_digit :
    (c n : ℕ) (s : List ℕ) → IsDigit c → scan 10 (c ∷ s) n ≡ scan 10 s (n * 10 + (c - b'0'))
unfolding scan
scan_digit c n s h = ground (arith, digit_value-digit c h)

scan-emit : (f n : ℕ) (out : List ℕ) → n < f → scan 10 (emit f n out) 0 ≡ scan 10 out n
unfolding emit
scan-emit zero n out h = elim h [ ]
scan-emit (suc f) n out h = elim (Bool-cases (ltb n 10)) [
  | inl small ↦
      rw small (scan_digit (b'0' + n) 0 out (ground arith) ∙ ap (scan 10 out) (omega arith))
  | inr large ↦ rw large (
      scan-emit f (n / 10) ((b'0' + n % 10) ∷ out) (ground arith)
      ∙ (scan_digit (b'0' + n % 10) (n / 10) out (omega arith) ∙ ap (scan 10 out) (omega arith)))
]

numeral-eq-scan : (s : List ℕ) → s ≢ [] → numeral 10 s ≡ scan 10 s 0
unfolding numeral
numeral-eq-scan [] h = absurd (h refl)
numeral-eq-scan (c ∷ s) h = refl

-- `digits n` through its fuel.
abbrev printed : ℕ → List ℕ
printed n = emit (suc n) n []

digits-eq : (n : ℕ) → digits n ≡ printed n
unfolding digits
digits-eq n = refl

numeral-printed : (n : ℕ) → numeral 10 (printed n) ≡ some n
unfolding scan
numeral-printed n =
    numeral-eq-scan (printed n) (emit-cons (suc n) n [] (omega arith))
    ∙ scan-emit (suc n) n [] (omega arith)

unsigned-digits : (s : List ℕ) → AllDigits s → unsigned s ≡ numeral 10 s
unfolding unsigned numeral
unsigned-digits [] h = refl
unsigned-digits (c ∷ []) h = refl
unsigned-digits (c ∷ d ∷ s) h = ground arith

trim_start-cons : (c : ℕ) (s : List ℕ) → is_blank c ≡ false → trim_start (c ∷ s) ≡ c ∷ s
unfolding trim_start
trim_start-cons c s h = rw h

trim_digits : (s : List ℕ) → AllDigits s → trim_end (trim_start s) ≡ s
unfolding trim_start
trim_digits [] h = trim_end-digits [] h
trim_digits (c ∷ s) h = rw (is_blank-digit c (omega arith) h.0.1) (trim_end-digits (c ∷ s) h)

literal-digits :
    (s : List ℕ) (n : ℕ) → AllDigits s → s ≢ [] → numeral 10 s ≡ some n → literal s ≡ some (pos n)
unfolding literal
literal-digits [] n h e p = absurd (e refl)
literal-digits (c ∷ s) n h e p = ground (arith, unsigned-digits (c ∷ s) h)

trim_end-minus : (s : List ℕ) → AllDigits s → s ≢ [] → trim_end (b'-' ∷ s) ≡ b'-' ∷ s
unfolding trim_end
trim_end-minus [] h e = absurd (e refl)
trim_end-minus (c ∷ s) h e = rw (trim_end-digits (c ∷ s) h)

bigint-eq : (t : List ℕ) → bigint t ≡ literal (trim_end (trim_start t))
unfolding bigint
bigint-eq t = refl

printed-digits : (n : ℕ) → AllDigits (printed n)
printed-digits n = emit-digits (suc n) n [] tt

printed-ne-nil : (n : ℕ) → printed n ≢ []
printed-ne-nil n = emit-cons (suc n) n [] (omega arith)

to_text-pos : (n : ℕ) → to_text (pos n) ≡ printed n
unfolding to_text
to_text-pos n = refl

to_text-negsuc : (n : ℕ) → to_text (negsuc n) ≡ b'-' ∷ printed (suc n)
unfolding to_text
to_text-negsuc n = refl

literal-minus : (n : ℕ) → literal (b'-' ∷ printed (suc n)) ≡ some (negsuc n)
unfolding literal
literal-minus n = rw (numeral-printed (suc n))

-- `BigInt(z.toString())` is `z`.
pub bigint-to_text : (z : ℤ) → bigint (to_text z) ≡ some z
bigint-to_text (pos n) =
    rw (to_text-pos n, bigint-eq, trim_digits (printed n) (printed-digits n))
      (literal-digits (printed n) n (printed-digits n) (printed-ne-nil n) (numeral-printed n))
bigint-to_text (negsuc n) =
    let ds = printed-digits (suc n) in
    rw
      (
        to_text-negsuc n,
        bigint-eq,
        trim_start-cons b'-' (printed (suc n)) (is_blank-digit b'-' (omega arith) (omega arith)),
        trim_end-minus (printed (suc n)) ds (printed-ne-nil (suc n)),
      )
      (literal-minus n)
