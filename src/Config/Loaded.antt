-- ===== src/Config/Loaded.antt =====
-- What a configuration that was loaded holds.
use microservice_game_servic.Base.{
  ◌≡◌, ◌≢◌, refl, sym, Bool, [], Bytes, Option, ascii, ◌==◌, bytes_comparable, bytes_beq_iff, ok,
  err, arith, Bool-cases, inl, inr,
}
use microservice_game_servic.Base.Int.{ℤ}
use microservice_game_servic.Config.{Config, jwt_secret_required, get_env, read, load}

get_env_filled :
    (getenv : Bytes → Bytes) (key default_value : Bytes)
    → default_value ≢ []
    → get_env getenv key default_value ≢ []
unfolding get_env
get_env_filled getenv key default_value filled = ground (arith, bytes_beq_iff (getenv key) [])

-- A configuration that Load returns has a secret, the one of JWT_SECRET, and no empty port or
-- address.
pub load_lem :
    (getenv : Bytes → Bytes) (atoi : Bytes → Option ℤ) (parse_bool : Bytes → Option Bool)
    (cfg : Config)
    → load getenv atoi parse_bool ≡ ok cfg
    → (cfg.jwt_secret ≡ getenv (ascii "JWT_SECRET"))
      × (cfg.jwt_secret ≢ [])
      × (cfg.http_port ≢ [])
      × (cfg.redis_url ≢ [])
      × (cfg.nats_url ≢ [])
unfolding load read
load_lem getenv atoi parse_bool cfg e =
    let c : Config = read getenv atoi parse_bool in
    elim (Bool-cases (c.jwt_secret == [])) [
      | inl missing ↦ let refused : err jwt_secret_required ≡ ok cfg = rw (missing, load) at e in cc
      | inr present ↦
          let loaded : ok c ≡ ok cfg = rw (present, load) at e in
          let same : c ≡ cfg = cc in
          rw (sym same) (
            refl,
            ground (arith, bytes_beq_iff c.jwt_secret []),
            get_env_filled getenv (ascii "HTTP_PORT") (ascii "3001") (ground arith),
            get_env_filled getenv (ascii "REDIS_URL") (ascii "redis://localhost:6379")
                (ground arith),
            get_env_filled getenv (ascii "NATS_URL") (ascii "nats://localhost:4222") (ground arith),
          )
    ]
