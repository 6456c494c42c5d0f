-- ===== src/Config.antt =====
-- Load of internal/config/config.go. `getenv` stands for os.Getenv, which is empty on a missing
-- variable, `atoi` and `parse_bool` for the parsers of strconv, `none` where they fail.
pub mod Loaded
use microservice_game_servic.Base.{
  ℕ, Bool, true, false, List, [], ◌∷◌, Bytes, Option, none, some, ascii, ◌==◌, bytes_comparable,
  if◌then◌else◌, Result, ok, err,
}
use microservice_game_servic.Base.Int.{ℤ, pos}

pub record Config : Type 0 where
  pub http_port : Bytes
  pub redis_url : Bytes
  pub jwt_secret : Bytes
  pub log_level : Bytes
  pub use_nats : Bool
  pub nats_url : Bytes
  pub tick_rate : ℤ

pub data ConfigError : Type 0 where
  jwt_secret_required : ConfigError

abbrev pub or_default {ℓ} : {A : Type ℓ} → Option A → A → A
or_default none d = d
or_default (some a) d = a

module _ (getenv : Bytes → Bytes) where
  unfoldable pub get_env : Bytes → Bytes → Bytes
  get_env key default_value = if getenv key == [] then default_value else getenv key

  unfoldable pub get_env_int : (Bytes → Option ℤ) → Bytes → ℤ → ℤ
  get_env_int atoi key default_value =
      if getenv key == [] then default_value else or_default (atoi (getenv key)) default_value

  unfoldable pub get_env_bool : (Bytes → Option Bool) → Bytes → Bool → Bool
  get_env_bool parse_bool key default_value =
      if getenv key == [] then default_value else or_default (parse_bool (getenv key)) default_value

  unfoldable pub read : (Bytes → Option ℤ) → (Bytes → Option Bool) → Config
  read atoi parse_bool = record {
    http_port = get_env (ascii "HTTP_PORT") (ascii "3001");
    redis_url = get_env (ascii "REDIS_URL") (ascii "redis://localhost:6379");
    jwt_secret = getenv (ascii "JWT_SECRET");
    log_level = get_env (ascii "LOG_LEVEL") (ascii "info");
    use_nats = get_env_bool parse_bool (ascii "USE_NATS") false;
    nats_url = get_env (ascii "NATS_URL") (ascii "nats://localhost:4222");
    tick_rate = get_env_int atoi (ascii "TICK_RATE") (pos 20);
  }

  unfoldable pub load : (Bytes → Option ℤ) → (Bytes → Option Bool) → Result ConfigError Config
  load atoi parse_bool =
      if (read atoi parse_bool).jwt_secret == []
      then err jwt_secret_required
      else ok (read atoi parse_bool)
