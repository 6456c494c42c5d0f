-- ===== src/Bus/Client.antt =====
-- The Redis client of internal/infra/redis/client.go, and the bus that app.New picks:
-- internal/infra/bus/bus.go, with NewBus of redis.go and NewNATSBus of nats.go. `parse_url` stands
-- for redis.ParseURL, `ping` for the answer of Redis to the PING of the n-th client, and
-- `connect` for nats.Connect.
use microservice_game_servic.Base.{
  ℕ, Bool, true, false, [], Bytes, Option, none, some, Result, ok, err, if◌then◌else◌,
}
use microservice_game_servic.Bus.Nats.{NatsBus}
use microservice_game_servic.Bus.Nats as Nats
use microservice_game_servic.Bus.Redis.{RedisBus}
use microservice_game_servic.Bus.Redis as Redis

pub data RedisError : Type 0 where
  parse_redis_url redis_ping : RedisError

pub data BusError : Type 0 where
  create_pub_client create_sub_client : RedisError → BusError
  nats_connect : BusError

-- A BusInterface.
pub data AnyBus : Type 0 where
  redis : RedisBus → AnyBus
  nats : NatsBus → AnyBus

module _ {ℓ} {O : Type ℓ} (parse_url : Bytes → Option O) (ping : ℕ → O → Bool) where
  -- The client is known by its options.
  unfoldable pub new_client : ℕ → Bytes → Result RedisError O
  new_client n redis_url = elim (parse_url redis_url) [
    | none ↦ err parse_redis_url
    | some opts ↦ if ping n opts then ok opts else err redis_ping
  ]

  -- NewBus, whose two clients are the second and the third of the instance.
  unfoldable pub new_bus : Bytes → Result BusError RedisBus
  new_bus redis_url = elim (new_client 1 redis_url) [
    | err e ↦ err (create_pub_client e)
    | ok _ ↦ (elim (new_client 2 redis_url) [
      | err e ↦ err (create_sub_client e)
      | ok _ ↦ ok (record { handler_set = false; cancel = none; running = []; next = 0 })
    ])
  ]

unfoldable pub new_nats_bus : (Bytes → Bool) → Bytes → Result BusError NatsBus
new_nats_bus connect nats_url =
    if connect nats_url
    then ok (record {
      handler_set = false;
      started = false;
      subs = [];
      live = [];
      draining = false;
      next = 0;
    })
    else err nats_connect

unfoldable pub set_handler : AnyBus → AnyBus
set_handler (redis b) = redis (record b { handler_set = true })
set_handler (nats b) = nats (record b { handler_set = true })

-- The Redis bus answers with an error. `false` is that, or a subscription that fails.
unfoldable pub subscribe_player_disconnect : Bool → AnyBus → Bool × AnyBus
subscribe_player_disconnect succeeds (redis b) = (false, redis b)
subscribe_player_disconnect succeeds (nats b) =
    let (subscribed, b') = Nats.subscribe_player_disconnect succeeds b in (subscribed, nats b')

-- What the broker answers to the subscriptions of Start.
pub record Broker : Type 0 where
  pub receives : Bool
  pub broadcast_ok : Bool
  pub kick_ok : Bool

-- `true` for a start that succeeds.
unfoldable pub start : Broker → AnyBus → Bool × AnyBus
start e (redis b) =
    let (started, b') = Redis.start Redis.background e.receives b in (started, redis b')
start e (nats b) =
    let (failure, b') = Nats.start e.broadcast_ok e.kick_ok b in
    (elim failure [ none ↦ true | some _ ↦ false ], nats b')

-- `none` is a call that never returns.
unfoldable pub stop : AnyBus → Option AnyBus
stop (redis b) = elim (Redis.stop b) [ none ↦ none | some b' ↦ some (redis b') ]
stop (nats b) = some (nats (Nats.stop b))
