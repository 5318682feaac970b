-- ===== src/Text/Decimal/Points.antt =====
-- Decimal numbers with a point, as `BigInt(text)` reads them.
use soro_lend.Prelude.{
  ℕ, ◌+◌, ◌*◌, ◌≤◌, ◌≡◌, ◌≢◌, refl, Bool, true, false, not, ◌||◌, Option, none, some, List, [], ◌∷◌,
  arith, ◌==◌, Bool-cases, inl, inr,
}
use soro_lend.Prelude.Int.{pos}
use soro_lend.Text.Decimal.{
  is_blank, trim_start, trim_end, digit_value, scan, numeral, unsigned, literal, bigint,
}
use mathlib.Core.Option

abbrev pub has_point : List ℕ → Bool
has_point [] = false
has_point (c ∷ s) = c == b'.' || has_point s

-- Whether `BigInt` reads the text, and not throws.
abbrev pub is_read {ℓ} : {A : Type ℓ} → Option A → Bool
is_read none = false
is_read (some a) = true

-- Digits and points.
abbrev pub Plain : List ℕ → Type 0
Plain [] = Unit {0}
Plain (c ∷ s) = (b'.' ≤ c) × (c ≤ b'9') × (c ≢ b'/') × Plain s

not_blank : (c : ℕ) → b'.' ≤ c → c ≤ b'9' → is_blank c ≡ false
unfolding is_blank
not_blank c h k = ground arith

trim_end-Plain : (s : List ℕ) → Plain s → trim_end s ≡ s
unfolding trim_end
trim_end-Plain [] h = refl
trim_end-Plain (c ∷ []) h = rw (not_blank c h.0 h.1)
trim_end-Plain (c ∷ d ∷ s) h = rw (trim_end-Plain (d ∷ s) h.3)

trim_start-Plain : (s : List ℕ) → Plain s → trim_start s ≡ s
unfolding trim_start
trim_start-Plain [] h = refl
trim_start-Plain (c ∷ s) h = rw (not_blank c h.0 h.1)

digit_value_point : (c : ℕ) → c ≡ b'.' → digit_value c ≡ 36
unfolding digit_value
digit_value_point c h = ground arith

digit_value_digit : (c : ℕ) → b'0' ≤ c → c ≤ b'9' → digit_value c ≤ 9
unfolding digit_value
digit_value_digit c h k = ground arith

scan-Plain : (s : List ℕ) (n : ℕ) → Plain s → is_read (scan 10 s n) ≡ not (has_point s)
unfolding scan
scan-Plain [] n h = refl
scan-Plain (c ∷ s) n h = elim (Bool-cases (c == b'.')) [
  | inl point ↦ ground (arith, digit_value_point c (ground arith))
  | inr digit ↦
      ground
        (arith, digit_value_digit c (ground arith) h.1, scan-Plain s (n * 10 + digit_value c) h.3)
]

literal-Plain :
    (c : ℕ) (s : List ℕ)
    → b'0' ≤ c
    → Plain (c ∷ s)
    → literal (c ∷ s) ≡ Option.map pos (scan 10 (c ∷ s) 0)
unfolding literal unsigned numeral
literal-Plain c [] h k = ground arith
literal-Plain c (d ∷ s) h k = ground arith

is_read-map : (o : Option ℕ) → is_read (Option.map pos o) ≡ is_read o
is_read-map none = refl
is_read-map (some n) = refl

-- A text of digits and points that starts with a digit is read if it has no point.
pub bigint-Plain :
    (c : ℕ) (s : List ℕ)
    → b'0' ≤ c
    → Plain (c ∷ s)
    → is_read (bigint (c ∷ s)) ≡ not (has_point (c ∷ s))
unfolding bigint
bigint-Plain c s h k =
    rw
      (
        trim_start-Plain (c ∷ s) k,
        trim_end-Plain (c ∷ s) k,
        literal-Plain c s h k,
        is_read-map (scan 10 (c ∷ s) 0),
      )
      (scan-Plain (c ∷ s) 0 k)
