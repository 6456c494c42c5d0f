-- ===== src/Tests/Lifecycle.antt =====
-- Start and stop of the buses, and the configuration, at sample data.
use microservice_game_servic.Base.{
  ℕ, ◌≡◌, ◌≢◌, refl, Bool, true, false, [], ◌∷◌, Bytes, Option, none, some, ascii, arith,
  bytes_comparable,
}
use microservice_game_servic.Base.Int.{ℤ, pos}
use microservice_game_servic.Config.{Config, get_env, get_env_int, get_env_bool, read, load}
use microservice_game_servic.Config.Loaded.{load_lem}
use microservice_game_servic.Bus.Nats.{NatsBus}
use microservice_game_servic.Bus.Nats as Nats
use microservice_game_servic.Bus.Nats.Started.{start_lem}
use microservice_game_servic.Bus.Redis.{RedisBus, background, cancellable}
use microservice_game_servic.Bus.Redis as Redis
use microservice_game_servic.Bus.Redis.Stopped.{stop-start}

-- A bus that already listens for disconnects.
abbrev nats_bus : NatsBus
nats_bus = record {
  handler_set = true;
  started = false;
  subs = 0 ∷ [];
  live = 0 ∷ [];
  draining = false;
  next = 1;
}

start_lem_test :
    ((Nats.start true true nats_bus).1.live ≡ 2 ∷ 1 ∷ 0 ∷ [])
    × ((Nats.start true true nats_bus).1.started ≡ true)
start_lem_test = start_lem true true nats_bus (omega arith, tt)

abbrev redis_bus : RedisBus
redis_bus = record { handler_set = true; cancel = none; running = []; next = 0 }

stop-start_example :
    (Redis.stop (Redis.start background true redis_bus).1
      ≡ some (record (Redis.start background true redis_bus).1 { running = [] }))
    × ((d : ℕ)
        → Redis.stop (
            Redis.cancel_context d
              (Redis.start background true (Redis.start background true redis_bus).1).1)
          ≡ none)
    × (Redis.stop (Redis.start background true (Redis.start (cancellable 3) true redis_bus).1).1
        ≡ none)
    × (Redis.stop (
          Redis.cancel_context 3
            (Redis.start background true (Redis.start (cancellable 3) true redis_bus).1).1)
        ≡ some
            (record (Redis.start background true (Redis.start (cancellable 3) true redis_bus).1).1 {
              running = [];
            }))
stop-start_example = stop-start background 3 true redis_bus refl refl

-- An environment in which every variable is "1".
abbrev all_one : Bytes → Bytes
all_one key = ascii "1"

abbrev parse_one : Bytes → Option ℤ
parse_one text = some (pos 1)

abbrev parse_true : Bytes → Option Bool
parse_true text = some true

abbrev pub config_one : Config
config_one = record {
  http_port = ascii "1";
  redis_url = ascii "1";
  jwt_secret = ascii "1";
  log_level = ascii "1";
  use_nats = true;
  nats_url = ascii "1";
  tick_rate = pos 1;
}

load_lem_test :
    (config_one.jwt_secret ≡ all_one (ascii "JWT_SECRET"))
    × (config_one.jwt_secret ≢ [])
    × (config_one.http_port ≢ [])
    × (config_one.redis_url ≢ [])
    × (config_one.nats_url ≢ [])
unfolding load read get_env get_env_int get_env_bool
load_lem_test = load_lem all_one parse_one parse_true config_one refl
