-- ===== src/Notifications/Alerts.antt =====
-- Whom a scan alerts.
use soro_lend.Prelude.{
  ◌≡◌, refl, Bool, true, false, Option, none, some, List, [], ◌∷◌, arith, if◌then◌else◌, Bool-cases,
  inl, inr, filter, map,
}
use soro_lend.Schema.{User}
use soro_lend.Store.{Env, Db}
use soro_lend.Notifications.{
  compute_health_factor, level_of, alert_of, alerts_among, scan_health_factors,
}

module _ (E : Env) where
  -- Whether a health factor is at most 1.1; a user without debts has none.
  abbrev pub in_danger : Option E.num.Value → Bool
  in_danger none = false
  in_danger (some health) = E.num.le health (E.num.literal 11 1)

  alert_of-in_danger :
      (user : User) (o : Option E.num.Value)
      → alert_of E user o ≡ (if in_danger o then user.public_key ∷ [] else [])
  unfolding level_of
  alert_of-in_danger user none = refl
  alert_of-in_danger user (some health) = ground arith

  alerts_among-filter :
      (users : List User) (db : Db E)
      → alerts_among E users db
        ≡ map (λ u. u.public_key) (filter (λ u. in_danger (compute_health_factor E u.id db)) users)
  unfolding alerts_among
  alerts_among-filter [] db = refl
  alerts_among-filter (u ∷ users) db =
      elim (Bool-cases (in_danger (compute_health_factor E u.id db))) [
        | inl danger ↦ rw (
          alert_of-in_danger u (compute_health_factor E u.id db),
          danger,
          alerts_among-filter users db,
        )
        | inr fine ↦ rw (
          alert_of-in_danger u (compute_health_factor E u.id db),
          fine,
          alerts_among-filter users db,
        )
      ]

  -- A scan alerts the keys of the users whose health factor is at most 1.1, each once, in the order of
  -- the table; a user without debts has no health factor.
  pub scan_health_factors-filter :
      (db : Db E)
      → scan_health_factors E db
        ≡ map
            (λ u. u.public_key)
            (filter
              (λ u. in_danger (compute_health_factor E u.id db))
              (E.users.find (λ _. true) db.users))
  unfolding scan_health_factors
  scan_health_factors-filter db = alerts_among-filter (E.users.find (λ _. true) db.users) db
