-- ===== src/Oracle/Twap.antt =====
-- TwapService (backend/src/modules/oracle/twap.service.ts). A price feed is read newest first; the
-- i-th of n prices has the weight n - i.
use soro_lend.Prelude.{ℕ, zero, suc, ◌+◌, List, [], ◌∷◌, map, length, filter}
use soro_lend.Prelude.Int.{pos}
use soro_lend.Text.{Text, codes, text_eq}
use soro_lend.Runtime.{Number}
use soro_lend.Schema.{PriceFeed}
use soro_lend.Store.{Env, Db}

-- The first `n` rows, as `take: n` asks for.
unfoldable pub take {ℓ} : {A : Type ℓ} → ℕ → List A → List A
take zero xs = []
take (suc n) [] = []
take (suc n) (x ∷ xs) = x ∷ take n xs

-- `feeds.reduce((sum, _, i) => sum + (feeds.length - i), 0)`: the weights n, n - 1, …, 1
unfoldable pub weights_from : ℕ → List PriceFeed → ℕ
weights_from sum [] = sum
weights_from sum (f ∷ fs) = weights_from (sum + length (f ∷ fs)) fs

unfoldable pub total_weight : List PriceFeed → ℕ
unfolding weights_from
total_weight feeds = weights_from 0 feeds

module _ (N : Number) where
  open N use {Value, literal, parse_float, of_ℤ, add, sub, mul, div, abs, le, to_fixed}

  abbrev pub count_of : ℕ → Value
  count_of n = of_ℤ (pos n)

  -- `weightedSum += parseFloat(feeds[i].price) * weight`, the weight being the number of feeds left
  pub weighted_from : Value → List PriceFeed → Value
  weighted_from sum [] = sum
  weighted_from sum (f ∷ fs) =
      weighted_from (add sum (mul (parse_float f.price) (count_of (length (f ∷ fs))))) fs

  -- `prices.reduce((a, b) => a + b, 0)`
  pub sum_from : Value → List Value → Value
  sum_from sum [] = sum
  sum_from sum (p ∷ ps) = sum_from (add sum p) ps

  abbrev prices_of : List PriceFeed → List Value
  prices_of feeds = map (λ f. parse_float f.price) feeds

  abbrev pub mean : List Value → Value
  mean prices = div (sum_from (literal 0 0) prices) (count_of (length prices))

  -- `prices.filter((p) => Math.abs(p - mean) / mean <= maxDeviation)`
  unfoldable pub near : Value → Value → List Value → List Value
  near centre max_deviation = filter (λ p. le (div (abs (sub p centre)) centre) max_deviation)

  unfoldable pub weighted_average : List PriceFeed → Text
  unfolding total_weight weighted_from
  weighted_average [] = codes "0"
  weighted_average (f ∷ fs) =
      to_fixed 18 (div (weighted_from (literal 0 0) (f ∷ fs)) (count_of (total_weight (f ∷ fs))))

  unfoldable pub simple_average : List PriceFeed → Text
  unfolding sum_from
  simple_average [] = codes "0"
  simple_average (f ∷ fs) = to_fixed 18 (mean (prices_of (f ∷ fs)))

  -- The mean of the prices near the mean, or the mean itself where none is near.
  abbrev pub mean_or : Value → List Value → Value
  mean_or centre [] = centre
  mean_or centre (p ∷ ps) = mean (p ∷ ps)

  unfoldable pub trimmed_average : Value → List PriceFeed → Text
  unfolding sum_from near
  trimmed_average max_deviation [] = codes "0"
  trimmed_average max_deviation (f ∷ fs) =
      let prices = prices_of (f ∷ fs) in
      to_fixed 18 (mean_or (mean prices) (near (mean prices) max_deviation prices))

module _ (E : Env) where
  abbrev pub latest_feeds : Text → ℕ → Db E → List PriceFeed
  latest_feeds asset_id periods db =
      take periods (E.feeds.find_newest (λ f. text_eq f.asset_id asset_id) db.feeds)

  unfoldable pub calculate_twap : Text → ℕ → Db E → Text
  unfolding weighted_average take
  calculate_twap asset_id periods db = weighted_average E.num (latest_feeds asset_id periods db)

  unfoldable pub calculate_simple_twap : Text → ℕ → Db E → Text
  unfolding simple_average take
  calculate_simple_twap asset_id periods db =
      simple_average E.num (latest_feeds asset_id periods db)

  unfoldable pub calculate_twap_with_threshold : Text → ℕ → E.num.Value → Db E → Text
  unfolding trimmed_average take
  calculate_twap_with_threshold asset_id periods max_deviation db =
      trimmed_average E.num max_deviation (latest_feeds asset_id periods db)
