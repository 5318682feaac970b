-- ===== src/Oracle/Weights.antt =====
-- The weights of the time-weighted average.
use soro_lend.Prelude.{ℕ, zero, suc, ◌+◌, ◌*◌, ◌≤◌, ◌≡◌, List, [], ◌∷◌, arith, length}
use soro_lend.Schema.{PriceFeed}
use soro_lend.Oracle.Twap.{weights_from, total_weight, take}

-- 1 + 2 + … + n
abbrev pub triangle : ℕ → ℕ
triangle zero = 0
triangle (suc n) = suc n + triangle n

weights_from-triangle :
    (sum : ℕ) (feeds : List PriceFeed) → weights_from sum feeds ≡ sum + triangle (length feeds)
unfolding weights_from
weights_from-triangle sum [] = omega arith
weights_from-triangle sum (f ∷ fs) = omega (arith, weights_from-triangle (sum + length (f ∷ fs)) fs)

triangle_twice : (n : ℕ) → 2 * triangle n ≡ n * (n + 1)
triangle_twice zero = omega arith
triangle_twice (suc n) = grind (arith, triangle_twice n)

-- The weights n, n - 1, …, 1 of n feeds add up to n (n + 1) / 2.
pub total_weight-length :
    (feeds : List PriceFeed) → 2 * total_weight feeds ≡ length feeds * (length feeds + 1)
unfolding total_weight
total_weight-length feeds =
    omega (arith, weights_from-triangle 0 feeds, triangle_twice (length feeds))

-- At most `n` rows are taken.
pub length-take {ℓ} : {A : Type ℓ} (n : ℕ) (xs : List A) → length (take n xs) ≤ n
unfolding take
length-take zero xs = omega arith
length-take (suc n) [] = omega arith
length-take (suc n) (x ∷ xs) = omega (arith, length-take n xs)
