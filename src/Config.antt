-- ===== src/Config.antt =====
-- The settings of the backend (backend/src: config/config.module.ts, database/database.module.ts,
-- cache/cache.module.ts, auth/auth.module.ts and main.ts). Joi, which checks the environment, and
-- ConfigService, which gives a variable after the check, are parameters.
use soro_lend.Prelude.{ℕ, ◌≡◌, refl, Bool, true, false, not, Option, none, some, List, [], ◌∷◌}
use soro_lend.Text.{Text, codes, text_eq, truthy}
use soro_lend.Wiring.{Entity}
use soro_lend.Wiring.Modules.{entities}

-- What Joi is told of a variable.
pub data Kind : Type 0 where
  text number uri : Kind
  one_of : List Text → Kind
  text_of_length : ℕ → Kind

pub data Presence : Type 0 where
  required optional : Presence
  otherwise : Text → Presence

pub record Variable : Type 0 where
  pub name : Text
  pub kind : Kind
  pub presence : Presence

abbrev variable : Text → Kind → Presence → Variable
variable name kind presence = record { name = name; kind = kind; presence = presence }

-- `validationSchema`
abbrev pub schema : List Variable
schema =
    variable (codes "NODE_ENV")
      (one_of (codes "development" ∷ codes "production" ∷ codes "test" ∷ []))
      (otherwise (codes "development"))
    ∷ variable (codes "PORT") number (otherwise (codes "3000"))
    ∷ variable (codes "HOST") text (otherwise (codes "0.0.0.0"))
    ∷ variable (codes "DB_HOST") text (otherwise (codes "localhost"))
    ∷ variable (codes "DB_PORT") number (otherwise (codes "5432"))
    ∷ variable (codes "DB_NAME") text required
    ∷ variable (codes "DB_USER") text required
    ∷ variable (codes "DB_PASSWORD") text required
    ∷ variable (codes "REDIS_HOST") text (otherwise (codes "localhost"))
    ∷ variable (codes "REDIS_PORT") number (otherwise (codes "6379"))
    ∷ variable (codes "REDIS_PASSWORD") text (otherwise [])
    ∷ variable (codes "JWT_SECRET") (text_of_length 32) required
    ∷ variable (codes "JWT_EXPIRES_IN") text (otherwise (codes "15m"))
    ∷ variable (codes "STELLAR_NETWORK")
        (one_of (codes "testnet" ∷ codes "pubnet" ∷ codes "local" ∷ []))
        (otherwise (codes "testnet"))
    ∷ variable (codes "SOROBAN_RPC_URL") uri optional
    ∷ variable (codes "CHALLENGE_TTL_SECONDS") number (otherwise (codes "300"))
    ∷ variable (codes "CHALLENGE_PREFIX") text (otherwise (codes "sorolend:auth:challenge:"))
    ∷ []

pub record DatabaseOptions : Type 0 where
  pub host : Option Text
  pub port : Option Text
  pub database : Option Text
  pub username : Option Text
  pub password : Option Text
  pub entities_of : List Entity
  pub synchronize : Bool
  pub logging : Bool

pub record RedisOptions : Type 0 where
  pub host : Text
  pub port : Text
  pub password : Option Text
  pub max_retries_per_request : ℕ

pub record JwtOptions : Type 0 where
  pub secret : Option Text
  pub expires_in : Text

pub record ServerOptions : Type 0 where
  pub prefix : Text
  pub whitelist : Bool
  pub forbid_non_whitelisted : Bool
  pub origin : Text
  pub methods : List Text
  pub credentials : Bool
  pub port : Text
  pub host : Text

-- `config.get(key, fallback)`
abbrev pub get_or : Option Text → Text → Text
get_or none fallback = fallback
get_or (some t) fallback = t

-- `a === b`, for a variable that may be missing
abbrev pub is_text : Option Text → Text → Bool
is_text none t = false
is_text (some s) t = text_eq s t

-- `get` is `config.get`. A number is the text that it was read from.
module _ (get : Text → Option Text) where
  -- the `useFactory` of TypeOrmModule
  unfoldable pub database_options : DatabaseOptions
  database_options = record {
    host = get (codes "DB_HOST");
    port = get (codes "DB_PORT");
    database = get (codes "DB_NAME");
    username = get (codes "DB_USER");
    password = get (codes "DB_PASSWORD");
    entities_of = entities;
    synchronize = not (is_text (get (codes "NODE_ENV")) (codes "production"));
    logging = is_text (get (codes "NODE_ENV")) (codes "development");
  }

  -- the `useFactory` of `REDIS_CLIENT`, but for the retry strategy
  unfoldable pub redis_options : RedisOptions
  redis_options = record {
    host = get_or (get (codes "REDIS_HOST")) (codes "localhost");
    port = get_or (get (codes "REDIS_PORT")) (codes "6379");
    password = truthy (some (get_or (get (codes "REDIS_PASSWORD")) []));
    max_retries_per_request = 3;
  }

  -- the `useFactory` of JwtModule
  unfoldable pub jwt_options : JwtOptions
  jwt_options = record {
    secret = get (codes "JWT_SECRET");
    expires_in = get_or (get (codes "JWT_EXPIRES_IN")) (codes "15m");
  }

  -- `bootstrap`
  unfoldable pub server_options : ServerOptions
  server_options = record {
    prefix = codes "api/v1";
    whitelist = true;
    forbid_non_whitelisted = true;
    origin = get_or (get (codes "CORS_ORIGIN")) (codes "*");
    methods = codes "GET" ∷ codes "POST" ∷ codes "PUT" ∷ codes "PATCH" ∷ codes "DELETE" ∷ [];
    credentials = true;
    port = get_or (get (codes "PORT")) (codes "3000");
    host = get_or (get (codes "HOST")) (codes "0.0.0.0");
  }

-- What the check of the environment leaves behind: what is required is there, what has a default is
-- there, given or not, and what may be missing is as it was given.
abbrev pub Checked : Presence → Option Text → Option Text → Type 0
Checked required given seen = (t : Text) × (given ≡ some t) × (seen ≡ some t)
Checked optional given seen = seen ≡ given
Checked (otherwise t) given seen = seen ≡ some (get_or given t)

abbrev pub IsChecked : (Text → Option Text) → (Text → Option Text) → List Variable → Type 0
IsChecked given seen [] = Unit
IsChecked given seen (v ∷ vs) =
    Checked v.presence (given v.name) (seen v.name) × IsChecked given seen vs

-- Where the environment passed the check: the database is where it says, on localhost and port 5432 if
-- it does not say, its name, user and password are there, and its tables are altered to fit the
-- entities exactly unless NODE_ENV is production, also where NODE_ENV is missing; Redis and the tokens
-- have all their options, and the server its port and host.
pub options-IsChecked :
    (given seen : Text → Option Text)
    → IsChecked given seen schema
    → let d = database_options seen in
      let r = redis_options seen in
      let j = jwt_options seen in
      let s = server_options seen in
      (d.host ≡ some (get_or (given (codes "DB_HOST")) (codes "localhost")))
      × (d.port ≡ some (get_or (given (codes "DB_PORT")) (codes "5432")))
      × ((name : Text) × (d.database ≡ some name) × (given (codes "DB_NAME") ≡ some name))
      × ((user : Text) × (d.username ≡ some user) × (given (codes "DB_USER") ≡ some user))
      × ((word : Text) × (d.password ≡ some word) × (given (codes "DB_PASSWORD") ≡ some word))
      × (d.synchronize
          ≡ not (
              text_eq
                (get_or (given (codes "NODE_ENV")) (codes "development"))
                (codes "production")))
      × (r.host ≡ get_or (given (codes "REDIS_HOST")) (codes "localhost"))
      × ((secret : Text) × (j.secret ≡ some secret) × (given (codes "JWT_SECRET") ≡ some secret))
      × (j.expires_in ≡ get_or (given (codes "JWT_EXPIRES_IN")) (codes "15m"))
      × (s.port ≡ get_or (given (codes "PORT")) (codes "3000"))
      × (s.host ≡ get_or (given (codes "HOST")) (codes "0.0.0.0"))
unfolding database_options redis_options jwt_options server_options
options-IsChecked given seen
      (
        node,
        (
          port,
          (
            host,
            (
              db_host,
              (
                db_port,
                (
                  (name, gn, sn),
                  (
                    (user, gu, su),
                    (
                      (word, gw, sw),
                      (
                        redis_host,
                        (redis_port, (redis_password, ((secret, gs, ss), (expires, rest)))),
                      ),
                    ),
                  ),
                ),
              ),
            ),
          ),
        ),
      ) =
    (
      db_host,
      db_port,
      (name, sn, gn),
      (user, su, gu),
      (word, sw, gw),
      rw node refl,
      rw redis_host refl,
      (secret, ss, gs),
      rw expires refl,
      rw port refl,
      rw host refl,
    )
