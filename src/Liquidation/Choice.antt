-- ===== src/Liquidation/Choice.antt =====
-- Which debt and which collateral the bot chooses.
use soro_lend.Prelude.{
  ◌≡◌, refl, sym, true, false, some, List, [], ◌∷◌, arith, if◌then◌else◌, Bool-cases, inl, inr,
}
use mathlib.Core.List.{Memᴰ}
use mathlib.Core.Path.{subst}
use soro_lend.Text.{Text}
use soro_lend.Runtime.{Number}
use soro_lend.Schema.{Asset, BorrowPosition, CollateralPosition}
use soro_lend.Store.{Env, Db, borrows_of, collaterals_of}
use soro_lend.Liquidation.Risk.{All}
use soro_lend.Liquidation.Bot.{
  Cover, largest_borrow, worth, best_collateral, cover_of, calculate_optimal_debt_cover,
}

-- The laws of `<` on doubles; they hold of NaN too, which is below nothing and above nothing.
pub record LtLaws (N : Number) : Type 0 where
  pub irreflexive : (a : N.Value) → N.lt a a ≡ false
  pub transitive : (a b c : N.Value) → N.lt a b ≡ true → N.lt b c ≡ true → N.lt a c ≡ true

module _ (N : Number) {A : Type 0} (score : A → N.Value) where
  -- One step of a `reduce` that keeps the element with the larger score, the earlier one of two equals.
  abbrev pick : A → A → A
  pick best a = if N.lt (score best) (score a) then a else best

  abbrev pick_all : A → List A → A
  pick_all best [] = best
  pick_all best (a ∷ rest) = pick_all (pick best a) rest

  -- Nothing in the list has a larger score.
  abbrev pub IsLargest : List A → A → Type 0
  IsLargest xs best = All (λ x. N.lt (score best) (score x) ≡ false) xs

  -- It is in the list, and nothing there has a larger score.
  abbrev pub IsBest : List A → A → Type 0
  IsBest xs best = Memᴰ best xs × IsLargest xs best

module _ (N : Number) (laws : LtLaws N) {A : Type 0} (score : A → N.Value) where
  pick_new : (best a : A) → N.lt (score (pick N score best a)) (score a) ≡ false
  pick_new best a = elim (Bool-cases (N.lt (score best) (score a))) [
    | inl larger ↦ rw larger (laws.irreflexive (score a))
    | inr other ↦ rw other other
  ]

  pick_old :
      (best a x : A)
      → N.lt (score best) (score x) ≡ false
      → N.lt (score (pick N score best a)) (score x) ≡ false
  pick_old best a x h = elim (Bool-cases (N.lt (score best) (score a))) [
    | inr other ↦ rw other h
    | inl larger ↦ rw larger (elim (Bool-cases (N.lt (score a) (score x))) [
      | inr below ↦ below
      | inl above ↦ cc (laws.transitive (score best) (score a) (score x) larger above, h)
    ])
  ]

  pick_all_old :
      (best x : A) (rest : List A)
      → N.lt (score best) (score x) ≡ false
      → N.lt (score (pick_all N score best rest)) (score x) ≡ false
  pick_all_old best x [] h = h
  pick_all_old best x (a ∷ rest) h = pick_all_old (pick N score best a) x rest (pick_old best a x h)

  pick_all_new : (best : A) (rest : List A) → IsLargest N score rest (pick_all N score best rest)
  pick_all_new best [] = tt
  pick_all_new best (a ∷ rest) = (
    pick_all_old (pick N score best a) a rest (pick_new best a),
    pick_all_new (pick N score best a) rest,
  )

  pick_all-mem : (best : A) (rest : List A) → Memᴰ (pick_all N score best rest) (best ∷ rest)
  pick_all-mem best [] = Memᴰ.head refl
  pick_all-mem best (a ∷ rest) = elim (Bool-cases (N.lt (score best) (score a))) [
    | inl larger ↦ rw larger (Memᴰ.tail (pick_all-mem a rest))
    | inr other ↦ rw other (elim (pick_all-mem best rest) [
      | Memᴰ.head e ↦ Memᴰ.head e
      | Memᴰ.tail m ↦ Memᴰ.tail (Memᴰ.tail m)
    ])
  ]

  pick_all-IsBest :
      (best : A) (rest : List A) → IsBest N score (best ∷ rest) (pick_all N score best rest)
  pick_all-IsBest best rest = (
    pick_all-mem best rest,
    (pick_all_old best best rest (laws.irreflexive (score best)), pick_all_new best rest),
  )

module _ (E : Env) where
  abbrev pub debt_size : BorrowPosition × Asset → E.num.Value
  debt_size b = E.num.parse_float b.0.amount

  -- The two assets are those of a largest debt and of a collateral that is worth most.
  abbrev pub IsOptimal :
      List (BorrowPosition × Asset) → List (CollateralPosition × Asset) → Cover → Type 0
  IsOptimal borrows collaterals cover =
      ((b : BorrowPosition × Asset) × IsBest E.num debt_size borrows b
        × (cover.debt_asset_code ≡ b.1.code))
      × ((c : CollateralPosition × Asset) × IsBest E.num (worth E) collaterals c
          × (cover.collateral_asset_code ≡ c.1.code))

module _ (E : Env) (laws : LtLaws E.num) where
  largest_borrow-pick_all :
      (best : BorrowPosition × Asset) (rest : List (BorrowPosition × Asset))
      → largest_borrow E best rest ≡ pick_all E.num (debt_size E) best rest
  unfolding largest_borrow
  largest_borrow-pick_all best [] = refl
  largest_borrow-pick_all best (b ∷ rest) =
      largest_borrow-pick_all (pick E.num (debt_size E) best b) rest

  best_collateral-pick_all :
      (best : CollateralPosition × Asset) (rest : List (CollateralPosition × Asset))
      → best_collateral E best rest ≡ pick_all E.num (worth E) best rest
  unfolding best_collateral
  best_collateral-pick_all best [] = refl
  best_collateral-pick_all best (c ∷ rest) =
      best_collateral-pick_all (pick E.num (worth E) best c) rest

  cover_of-IsOptimal :
      (borrows : List (BorrowPosition × Asset)) (collaterals : List (CollateralPosition × Asset))
      {cover : Cover}
      → cover_of E borrows collaterals ≡ some cover
      → IsOptimal E borrows collaterals cover
  cover_of-IsOptimal [] collaterals h = cc
  cover_of-IsOptimal (b ∷ borrows) [] h = cc
  cover_of-IsOptimal (b ∷ borrows) (c ∷ collaterals) {cover} h =
      let debt : cover.debt_asset_code ≡ (largest_borrow E b borrows).1.code = ground arith in
      let collateral : cover.collateral_asset_code ≡ (best_collateral E c collaterals).1.code =
        ground arith in
      (
        (
          largest_borrow E b borrows,
          subst (IsBest E.num (debt_size E) (b ∷ borrows)) (sym (largest_borrow-pick_all b borrows))
              (pick_all-IsBest E.num laws (debt_size E) b borrows),
          debt,
        ),
        (
          best_collateral E c collaterals,
          subst (IsBest E.num (worth E) (c ∷ collaterals))
              (sym (best_collateral-pick_all c collaterals))
              (pick_all-IsBest E.num laws (worth E) c collaterals),
          collateral,
        ),
      )

  -- Where `<` on numbers is irreflexive and transitive: a cover that the bot decides on names the
  -- asset of one of the user's debts, with no debt of a larger amount, and that of one of the
  -- user's collaterals, with no collateral worth more.
  pub calculate_optimal_debt_cover-IsOptimal :
      (user_id : Text) (db : Db E) {cover : Cover}
      → calculate_optimal_debt_cover E user_id db ≡ some cover
      → IsOptimal E (borrows_of E user_id db) (collaterals_of E user_id db) cover
  unfolding calculate_optimal_debt_cover
  calculate_optimal_debt_cover-IsOptimal user_id db h =
      cover_of-IsOptimal (borrows_of E user_id db) (collaterals_of E user_id db) h
