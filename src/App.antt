-- ===== src/App.antt =====
-- The application of internal/app/app.go and cmd/api/main.go: New wires the parts, Run starts them
-- and Shutdown stops them. The HTTP server and the broker belong to libraries: what they answer is
-- an argument.
pub mod Wired
pub mod Stopping
use microservice_game_servic.Base.{
  ℕ, zero, suc, ◌/◌, Bool, true, false, Bytes, Option, none, some, Result, ok, err, Outcome, done,
  panic, divide_by_zero, close_of_closed, ◌>>=◌, if◌then◌else◌,
}
use microservice_game_servic.Base.Int.{ℤ, pos, negsuc}
use microservice_game_servic.Config.{Config, ConfigError}
use microservice_game_servic.Bus.Client.{
  RedisError, BusError, AnyBus, redis, nats, new_client, new_bus, new_nats_bus, set_handler,
  subscribe_player_disconnect, Broker, start, stop,
}
use microservice_game_servic.Loop.Ticker.{Ticker, new_ticker}
use microservice_game_servic.State.Manager.{new_manager}
use microservice_game_servic.Ws.Hub.{Hub, new_hub, close_hub}
use microservice_game_servic.Ws.Handler.{Game}

-- `ticking` says that the goroutine of the tick loop has been started, `ticker_stopped` that
-- `stopCh` is closed, which ends that loop once its select takes it, and `serving` that the server accepts connections. `game` has the hub and
-- the manager.
pub record App : Type 0 where
  pub cfg : Config
  pub bus : AnyBus
  pub ticker : Ticker
  pub ticking : Bool
  pub ticker_stopped : Bool
  pub serving : Bool
  pub game : Game

pub data AppError : Type 0 where
  init_redis : RedisError → AppError
  init_bus : BusError → AppError

abbrev negated : ℕ → ℤ
negated zero = pos zero
negated (suc n) = negsuc n

-- `time.Second/time.Duration(cfg.TickRate)`, which rounds towards 0.
unfoldable pub tick_interval : ℤ → Outcome ℤ
tick_interval (pos zero) = panic divide_by_zero
tick_interval (pos (suc n)) = done (pos (1000000000 / suc n))
tick_interval (negsuc n) = done (negated (1000000000 / suc n))

-- NewHub with a bus: the hub makes itself its handler and asks for the disconnects. An error of
-- that subscription is dropped.
unfoldable pub wire_hub : Bool → AnyBus → Hub × AnyBus
wire_hub disconnects b = (new_hub true, (subscribe_player_disconnect disconnects (set_handler b)).1)

-- From NewStateManager on.
unfoldable pub assemble : Config → Bool → ℕ → AnyBus → Outcome App
assemble cfg disconnects now b =
    let (hub, b') = wire_hub disconnects b in
    tick_interval cfg.tick_rate >>= λ interval. done (record {
      cfg = cfg;
      bus = b';
      ticker = new_ticker interval now;
      ticking = false;
      ticker_stopped = false;
      serving = false;
      game = record { hub = hub; manager = new_manager };
    })

module _ {ℓ} {O : Type ℓ} (parse_url : Bytes → Option O) (ping : ℕ → O → Bool)
    (connect : Bytes → Bool) where
  unfoldable pub pick_bus : Config → Result BusError AnyBus
  pick_bus cfg =
      if cfg.use_nats
      then (elim (new_nats_bus connect cfg.nats_url) [ err e ↦ err e | ok b ↦ ok (nats b) ])
      else (elim (new_bus parse_url ping cfg.redis_url) [ err e ↦ err e | ok b ↦ ok (redis b) ])

  -- `disconnects` says whether the subscription to disconnects succeeds, and `now` is the clock.
  unfoldable pub new : Config → Bool → ℕ → Outcome (Result AppError App)
  new cfg disconnects now = elim (new_client parse_url ping 0 cfg.redis_url) [
    | err e ↦ done (err (init_redis e))
    | ok _ ↦ (elim (pick_bus cfg) [
      | err e ↦ done (err (init_bus e))
      | ok b ↦ assemble cfg disconnects now b >>= λ a. done (ok a)
    ])
  ]

pub data RunError : Type 0 where
  start_bus listen : RunError

-- Run until ListenAndServe blocks, or fails where `listens` is false.
unfoldable pub run : Broker → Bool → App → Option RunError × App
run e listens a =
    let (started, b) = start e a.bus in
    if started
    then (if listens
        then (none, record a { bus = b; ticking = true; serving = true })
        else (some listen, record a { bus = b; ticking = true }))
    else (some start_bus, record a { bus = b })

-- `close(t.stopCh)`
unfoldable pub stop_ticker : App → Outcome App
stop_ticker a =
    if a.ticker_stopped then panic close_of_closed else done (record a { ticker_stopped = true })

-- Shutdown, in its order: the server, whose error is only logged, the tick loop, the bus, the hub.
-- Only the last of them is a step on the game, whose other steps come before it or after it. The
-- tick loop is told to stop and not waited for.
-- `none` is a call that never returns.
unfoldable pub shutdown : App → Outcome (Option App)
shutdown a = stop_ticker (record a { serving = false }) >>= λ a'. elim (stop a'.bus) [
  | none ↦ done none
  | some b ↦ close_hub a'.game.hub >>= λ hub.
      done (some (record a' { bus = b; game = record a'.game { hub = hub } }))
]

-- How the process ends: with an exit code, or not at all.
pub data Ended : Type 0 where
  exits : ℕ → Ended
  goes_on : Ended

-- The `select` of `main` over the outcome of Run and a signal. A panic of any goroutine ends the
-- process: `during` is what the others do to the game up to the exit, or up to the point where
-- Shutdown closes the hub, and `after` what they do from there to the exit.
unfoldable pub finish :
    Bool → (Game → Outcome Game) → (Game → Outcome Game) → Option RunError × App → Outcome Ended
finish signalled during after (some _, a) = during a.game >>= λ _. done (exits 1)
finish signalled during after (none, a) = during a.game >>= λ g.
    if signalled
    then shutdown (record a { game = g })
      >>= elim [ none ↦ done goes_on | some c ↦ after c.game >>= λ _. done (exits 0) ]
    else done goes_on

module _ {ℓ} {O : Type ℓ} (parse_url : Bytes → Option O) (ping : ℕ → O → Bool)
    (connect : Bytes → Bool) where
  unfoldable pub main :
      Result ConfigError Config
      → Bool
      → ℕ
      → Broker
      → Bool
      → Bool
      → (Game → Outcome Game)
      → (Game → Outcome Game)
      → Outcome Ended
  main (err _) disconnects now e listens signalled during after = done (exits 1)
  main (ok cfg) disconnects now e listens signalled during after =
      new parse_url ping connect cfg disconnects now
      >>= elim [ err _ ↦ done (exits 1) | ok a ↦ finish signalled during after (run e listens a) ]
