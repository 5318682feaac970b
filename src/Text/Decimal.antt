-- ===== src/Text/Decimal.antt =====
-- `BigInt(text)` and `toString` of a BigInt. `BigInt` trims white space, reads an empty text as 0,
-- a sign with decimal digits, or hexadecimal, octal or binary digits behind their mark; on any other
-- text it throws a SyntaxError, here `none`.
pub mod RoundTrip
pub mod Points
use soro_lend.Prelude.{
  ℕ, zero, suc, ◌+◌, ◌-◌, ◌*◌, ◌/◌, ◌%◌, ◌≡◌, refl, Bool, true, false, ◌&&◌, ◌||◌, Option, none,
  some, List, [], ◌∷◌, arith, leb, ltb, ◌==◌, if◌then◌else◌,
}
use soro_lend.Prelude.Int.{ℤ, pos, negsuc}
use mathlib.Core.Option

-- White space and line ends.
pub is_blank : ℕ → Bool
is_blank c =
    (leb 9 c && leb c 13)
    || c == 0x20
    || c == 0xa0
    || c == 0x1680
    || (leb 0x2000 c && leb c 0x200a)
    || c == 0x2028
    || c == 0x2029
    || c == 0x202f
    || c == 0x205f
    || c == 0x3000
    || c == 0xfeff

pub trim_start : List ℕ → List ℕ
trim_start [] = []
trim_start (c ∷ s) = if is_blank c then trim_start s else c ∷ s

pub trim_end : List ℕ → List ℕ
trim_end [] = []
trim_end (c ∷ s) = elim (trim_end s) [ [] ↦ if is_blank c then [] else c ∷ [] | d ∷ r ↦ c ∷ d ∷ r ]

-- The value of a digit, or a number too large for any base.
pub digit_value : ℕ → ℕ
digit_value c =
    if leb b'0' c && leb c b'9'
    then c - b'0'
    else if leb b'a' c && leb c b'z'
    then c - b'a' + 10
    else if leb b'A' c && leb c b'Z'
    then c - b'A' + 10
    else 36

pub scan : ℕ → List ℕ → ℕ → Option ℕ
scan base [] n = some n
scan base (c ∷ s) n =
    let rest = scan base s (n * base + digit_value c) in
    if ltb (digit_value c) base then rest else none

-- One digit or more.
pub numeral : ℕ → List ℕ → Option ℕ
numeral base [] = none
numeral base (c ∷ s) = scan base (c ∷ s) 0

abbrev pub negated : ℕ → ℤ
negated zero = pos 0
negated (suc n) = negsuc n

-- A base mark, or decimal digits.
pub unsigned : List ℕ → Option ℕ
unsigned [] = none
unsigned (c ∷ []) = numeral 10 (c ∷ [])
unsigned (c ∷ d ∷ s) =
    if c == b'0' && (d == b'x' || d == b'X')
    then numeral 16 s
    else if c == b'0' && (d == b'o' || d == b'O')
    then numeral 8 s
    else if c == b'0' && (d == b'b' || d == b'B')
    then numeral 2 s
    else numeral 10 (c ∷ d ∷ s)

pub literal : List ℕ → Option ℤ
literal [] = some (pos 0)
literal (c ∷ s) =
    if c == b'-'
    then Option.map negated (numeral 10 s)
    else if c == b'+'
    then Option.map pos (numeral 10 s)
    else Option.map pos (unsigned (c ∷ s))

-- `BigInt(text)`

unfoldable pub bigint : List ℕ → Option ℤ
unfolding literal unsigned numeral scan digit_value trim_start trim_end is_blank
bigint t = literal (trim_end (trim_start t))

-- The decimal digits of `n` before `out`; the first argument is fuel, more than `n`.
pub emit : ℕ → ℕ → List ℕ → List ℕ
emit zero n out = out
emit (suc f) n out =
    let rest = emit f (n / 10) ((b'0' + n % 10) ∷ out) in
    if ltb n 10 then (b'0' + n) ∷ out else rest

pub digits : ℕ → List ℕ
unfolding emit
digits n = emit (suc n) n []

-- `z.toString()`
unfoldable pub to_text : ℤ → List ℕ
unfolding digits
to_text (pos n) = digits n
to_text (negsuc n) = b'-' ∷ digits (suc n)
