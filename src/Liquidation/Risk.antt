-- ===== src/Liquidation/Risk.antt =====
-- The list of positions at risk, and the choice of the bot.
use soro_lend.Prelude.{
  ◌≡◌, refl, ◌∙◌, arith, Bool, true, ◌&&◌, none, some, List, [], ◌∷◌, ◌++◌, Bool-cases, inl, inr,
  if◌then◌else◌,
}
use mathlib.Core.List.{Memᴰ}
use soro_lend.Text.{Text}
use soro_lend.Schema.{User, Asset, BorrowPosition}
use soro_lend.Valuation.{collateral_value, debt_value}
use soro_lend.Store.{Env, Db, borrows_of, collaterals_of}
use soro_lend.Liquidation.{
  HealthFactor, AtRisk, at_risk_test, risk_of, compute_health_factor, at_risk_among,
  get_at_risk_positions,
}

-- Every member of a list has a property.
abbrev pub All {ℓ κ} : {A : Type ℓ} → (A → Type κ) → List A → Type κ
All P [] = Unit
All P (x ∷ xs) = P x × All P xs

All-append {ℓ κ} :
    {A : Type ℓ} (P : A → Type κ) (xs ys : List A) → All P xs → All P ys → All P (xs ++ ys)
All-append P [] ys h k = k
All-append P (x ∷ xs) ys h k = (h.0, All-append P xs ys h.1 k)

mem-append_right {ℓ} :
    {A : Type ℓ} {a : A} (xs : List A) {ys : List A} → Memᴰ a ys → Memᴰ a (xs ++ ys)
mem-append_right [] h = h
mem-append_right (x ∷ xs) h = Memᴰ.tail (mem-append_right xs h)

mem-append_left {ℓ} :
    {A : Type ℓ} {a : A} {xs : List A} (ys : List A) → Memᴰ a xs → Memᴰ a (xs ++ ys)
mem-append_left ys (Memᴰ.head e) = Memᴰ.head e
mem-append_left ys (Memᴰ.tail h) = Memᴰ.tail (mem-append_left ys h)

module _ (E : Env) (db : Db E) where
  -- The worth of a user's collateral and of the user's debts.
  abbrev pub collateral_usd : Text → E.num.Value
  collateral_usd id = collateral_value E.num (collaterals_of E id db)

  abbrev pub borrow_usd : Text → E.num.Value
  borrow_usd id = debt_value E.num (borrows_of E id db)

  -- Above 0 and below 1.05.
  abbrev pub IsLow : E.num.Value → Type 0
  IsLow x = (E.num.lt (E.num.literal 0 0) x ≡ true) × (E.num.lt x (E.num.literal 105 2) ≡ true)

  -- The entry of a user of the table who has a debt: the worth of the user's positions, and a low
  -- health factor, which is their ratio where the debts are worth anything, and 999.9999 where not.
  pub record IsAtRisk (r : AtRisk E.num) : Type 0 where
    pub user : User
    pub is_user : Memᴰ user (E.users.find (λ _. true) db.users)
    pub same_id : r.user_id ≡ user.id
    pub same_key : r.public_key ≡ user.public_key
    pub debt : BorrowPosition × Asset
    pub debts : List (BorrowPosition × Asset)
    pub indebted : borrows_of E user.id db ≡ debt ∷ debts
    pub collateral_worth : r.health.total_collateral_usd ≡ collateral_usd user.id
    pub debts_worth : r.health.total_borrow_usd ≡ borrow_usd user.id
    pub ratio : r.health.health_factor ≡ (
        if E.num.lt (E.num.literal 0 0) (borrow_usd user.id)
        then E.num.div (collateral_usd user.id) (borrow_usd user.id)
        else E.num.literal 9999999 4)
    pub is_low : IsLow r.health.health_factor

  -- The health of a user with a debt.
  abbrev health_of : Text → HealthFactor E.num
  health_of id = record {
    health_factor =
        if E.num.lt (E.num.literal 0 0) (borrow_usd id)
        then E.num.div (collateral_usd id) (borrow_usd id)
        else E.num.literal 9999999 4;
    total_collateral_usd = collateral_usd id;
    total_borrow_usd = borrow_usd id;
  }

  computed_indebted :
      (id : Text) {d : BorrowPosition × Asset} {ds : List (BorrowPosition × Asset)}
      → borrows_of E id db ≡ d ∷ ds
      → compute_health_factor E id db ≡ some (health_of id)
  unfolding compute_health_factor
  computed_indebted id e = rw (e, compute_health_factor) refl

  computed_free : (id : Text) → borrows_of E id db ≡ [] → compute_health_factor E id db ≡ none
  unfolding compute_health_factor
  computed_free id e = rw (e, compute_health_factor) refl

  both_true : (a b : Bool) → (a && b) ≡ true → (a ≡ true) × (b ≡ true)
  both_true a b h = ground arith

  entry-IsAtRisk :
      (user : User) (owed : List (BorrowPosition × Asset))
      → borrows_of E user.id db ≡ owed
      → Memᴰ user (E.users.find (λ _. true) db.users)
      → All IsAtRisk (risk_of E user (compute_health_factor E user.id db))
  entry-IsAtRisk user [] e m = rw (computed_free user.id e) tt
  entry-IsAtRisk user (d ∷ ds) e m = elim (Bool-cases (at_risk_test E (health_of user.id))) [
    | inr fine ↦ rw (computed_indebted user.id e, fine) tt
    | inl low ↦
        let (below, above) =
          both_true (E.num.lt (health_of user.id).health_factor (E.num.literal 105 2))
            (E.num.lt (E.num.literal 0 0) (health_of user.id).health_factor) low in
        rw (computed_indebted user.id e, low)
          (
            record {
              user = user;
              is_user = m;
              same_id = refl;
              same_key = refl;
              debt = d;
              debts = ds;
              indebted = e;
              collateral_worth = refl;
              debts_worth = refl;
              ratio = refl;
              is_low = (above, below);
            },
            tt,
          )
  ]

  among_sound :
      (users : List User)
      → ((u : User) → Memᴰ u users → Memᴰ u (E.users.find (λ _. true) db.users))
      → All IsAtRisk (at_risk_among E users db)
  unfolding at_risk_among
  among_sound [] within = tt
  among_sound (user ∷ users) within =
      All-append IsAtRisk (risk_of E user (compute_health_factor E user.id db))
        (at_risk_among E users db)
        (entry-IsAtRisk user (borrows_of E user.id db) refl (within user (Memᴰ.head refl)))
        (among_sound users (λ u m. within u (Memᴰ.tail m)))

  -- Every listed position is that of a user of the table who has a debt. It carries the worth of the
  -- user's collateral and debts and, as the health factor, the first divided by the second, or
  -- 999.9999 where the debts are worth nothing; the health factor is above 0 and below 1.05.
  pub get_at_risk_positions-IsAtRisk : All IsAtRisk (get_at_risk_positions E db)
  unfolding get_at_risk_positions
  get_at_risk_positions-IsAtRisk = among_sound (E.users.find (λ _. true) db.users) (λ u m. m)

  among_complete :
      (users : List User) {user : User} {h : HealthFactor E.num}
      → Memᴰ user users
      → compute_health_factor E user.id db ≡ some h
      → at_risk_test E h ≡ true
      → Memᴰ
          (record { user_id = user.id; public_key = user.public_key; health = h })
          (at_risk_among E users db)
  unfolding at_risk_among
  among_complete [] m e low = elim m [ ]
  among_complete (u ∷ users) (Memᴰ.head same) e low = rw (← same, e, low) (Memᴰ.head refl)
  among_complete (u ∷ users) (Memᴰ.tail m) e low =
      mem-append_right (risk_of E u (compute_health_factor E u.id db))
        (among_complete users m e low)

  -- A user of the table who has a debt, whose debts are worth more than 0 and whose collateral
  -- divided by the debts is above 0 and below 1.05 is listed, with that ratio and both worths.
  pub mem-get_at_risk_positions :
      {user : User} {d : BorrowPosition × Asset} {ds : List (BorrowPosition × Asset)}
      → Memᴰ user (E.users.find (λ _. true) db.users)
      → borrows_of E user.id db ≡ d ∷ ds
      → E.num.lt (E.num.literal 0 0) (borrow_usd user.id) ≡ true
      → IsLow (E.num.div (collateral_usd user.id) (borrow_usd user.id))
      → Memᴰ
          (record {
            user_id = user.id;
            public_key = user.public_key;
            health = record {
              health_factor = E.num.div (collateral_usd user.id) (borrow_usd user.id);
              total_collateral_usd = collateral_usd user.id;
              total_borrow_usd = borrow_usd user.id;
            };
          })
          (get_at_risk_positions E db)
  unfolding get_at_risk_positions
  mem-get_at_risk_positions {user} m indebted worth (above, below) =
      among_complete (E.users.find (λ _. true) db.users) m
        (computed_indebted user.id indebted ∙ rw worth refl) (rw (below, above) refl)
