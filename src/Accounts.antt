-- ===== src/Accounts.antt =====
-- The private helpers `findAssetByCode` and `findOrCreateUser`, which every service has a copy of.
use soro_lend.Prelude.{◌≡◌, refl, ◌⊎◌, inl, inr, Option-cases, Option, none, some, [], ◌++◌}
use soro_lend.Text.{Text, codes}
use soro_lend.Runtime.{not_found, ok, err, rejected}
use soro_lend.Schema.{User, Asset}
use soro_lend.Store.{
  Env, Db, Action, ◌>>=◌, pure, gets, or_raise, save_user, user_by_key, active_asset,
}

-- `userRepo.create({ publicKey })`
abbrev pub new_user : Text → User
new_user key = record {
  id = [];
  public_key = key;
  nonce = none;
  nonce_expires_at = none;
  last_login_at = none;
}

module _ (E : Env) where
  unfoldable pub find_asset_by_code : Text → Action E Asset
  find_asset_by_code code = do
    asset ← gets (active_asset E code)
    or_raise (not_found (codes "Asset not found: " ++ code)) asset

  unfoldable pub user_or_new : Text → Option User → Action E User
  user_or_new key none = save_user E (new_user key)
  user_or_new key (some user) = pure user

  unfoldable pub find_or_create_user : Text → Action E User
  unfolding user_or_new
  find_or_create_user key = do user ← gets (user_by_key E key); user_or_new key user

  user_or_new-cases :
      (key : Text) (db : Db E) (found : Option User)
      → (user_or_new key found db ≡ (err rejected, db))
        ⊎ ((u : User) × (t : E.users.Rows) × (user_or_new key found db
              ≡ (ok u, record db { users = t })))
  unfolding user_or_new
  user_or_new-cases key db (some u) = inr (u, db.users, refl)
  user_or_new-cases key db none = elim (Option-cases (E.users.save (new_user key) db.users)) [
    | inl refused ↦ inl (rw refused)
    | inr ((u, t), created) ↦ inr (u, t, rw created)
  ]

  -- The user is there or was created, or the database refused the new row and nothing changed.
  pub find_or_create_user-cases :
      (key : Text) (db : Db E)
      → (find_or_create_user key db ≡ (err rejected, db))
        ⊎ ((u : User) × (t : E.users.Rows) × (find_or_create_user key db
              ≡ (ok u, record db { users = t })))
  unfolding find_or_create_user
  find_or_create_user-cases key db = user_or_new-cases key db (user_by_key E key db)
