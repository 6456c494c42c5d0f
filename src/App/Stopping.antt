-- ===== src/App/Stopping.antt =====
-- From Run to Shutdown, and the end of the process.
pub mod Exits
pub mod Late
use microservice_game_servic.Base.{
  ℕ, ◌≡◌, refl, sym, ap, ◌∙◌, Bool, true, false, not, ◌&&◌, [], ◌∷◌, ◌++◌, Bytes, List, Option,
  none, some, Result, Outcome, done, done_injective, panic, send_on_closed, close_of_closed,
  if◌then◌else◌, arith, length, Option-cases, inl, inr, nat_beq, nat_beq_iff, select,
}
use microservice_game_servic.Base.Int.{ℤ}
use microservice_game_servic.Base.Pointers.{elem}
use microservice_game_servic.Ws.Hub.Broadcasts.{elem-select}
use microservice_game_servic.Protocol.{Envelope}
use microservice_game_servic.Auth.{AuthResult, AuthError}
use microservice_game_servic.Bus.Nats.{NatsBus}
use microservice_game_servic.Bus.Nats as Nats
use microservice_game_servic.Bus.Redis.{RedisBus, background}
use microservice_game_servic.Bus.Redis as Redis
use microservice_game_servic.Bus.Redis.Stopped.{stop-start}
use microservice_game_servic.Bus.Client.{AnyBus, redis, nats, Broker, start, stop}
use microservice_game_servic.Base.Map.{lookup}
use microservice_game_servic.Ws.Conn.{Conn, conn_at, new_conn}
use microservice_game_servic.Ws.Hub.{
  Hub, new_hub, enqueue, register, register_locked, close_hub, publish_kick_job, PublishJob,
  remove_from_room_locked, add_to_room_locked, close_conn,
}
use microservice_game_servic.Ws.Handler.{Game}
use microservice_game_servic.Ws.Handshake.{Frame, Reply, do_handshake, serve_http}
use microservice_game_servic.System.{Reach, start_game}
use microservice_game_servic.System.Channels.{bus-register_locked, Reach-bus}
use microservice_game_servic.App.{App, RunError, run, stop_ticker, shutdown}
use microservice_game_servic.App.Wired.{Wired, BusReady, NatsReady, RedisReady}

pub some_injective {ℓ} : {A : Type ℓ} {a b : A} → some a ≡ some b → a ≡ b
some_injective e = cc

nats_started :
    (broadcast_ok kick_ok : Bool) (b : NatsBus)
    → NatsReady b
    → (Nats.start broadcast_ok kick_ok b).0 ≡ none
    → (Nats.start broadcast_ok kick_ok b).1.started ≡ true
unfolding Nats.start Nats.subscribe_both
nats_started broadcast_ok kick_ok b ready e = ground (arith, ready.not_started)

-- A bus that is stopped: no subscriber of Redis runs; NATS drains, and serves none of the
-- subscriptions that the bus knows of.
abbrev pub Deaf : AnyBus → Type 0
Deaf (redis b) = b.running ≡ []
Deaf (nats b) = (b.draining ≡ true) × ((s : ℕ) → elem s b.subs ≡ true → elem s b.live ≡ false)

-- Unsubscribe ends the subscriptions of a list, and serves no others than before.
elem-unsubscribe_all :
    (s : ℕ) (subs : List ℕ) (b : NatsBus)
    → elem s (Nats.unsubscribe_all subs b).live ≡ (elem s b.live && not (elem s subs))
unfolding Nats.unsubscribe_all
elem-unsubscribe_all s [] b = ground arith
elem-unsubscribe_all s (i ∷ subs) b =
    elem-unsubscribe_all s subs (Nats.unsubscribe i b)
    ∙ ground
        (arith, elem-select (λ j. not (nat_beq j i)) s b.live, nat_beq_iff s i, nat_beq_iff i s)

subs-unsubscribe_all : (subs : List ℕ) (b : NatsBus) → (Nats.unsubscribe_all subs b).subs ≡ b.subs
unfolding Nats.unsubscribe_all
subs-unsubscribe_all [] b = refl
subs-unsubscribe_all (i ∷ subs) b = subs-unsubscribe_all subs (Nats.unsubscribe i b)

Deaf-nats_stop : (b : NatsBus) → b.started ≡ true → Deaf (nats (Nats.stop b))
unfolding Nats.stop
Deaf-nats_stop b e = rw e (
  refl,
  λ s i.
      let known : elem s b.subs ≡ true = rw subs-unsubscribe_all at i in
      elem-unsubscribe_all s b.subs (record b { started = true }) ∙ ground (arith, known),
)

-- A bus that New has made ready and that starts also stops.
pub stop_started :
    (e : Broker) (b : AnyBus)
    → BusReady b
    → (start e b).0 ≡ true
    → (b' : AnyBus) × (stop (start e b).1 ≡ some b') × Deaf b'
unfolding start stop
stop_started e (redis b) ready ok =
    let stopped = (stop-start Redis.background 0 e.receives b ready.idle ready.handler).0 in
    (
      redis (record (Redis.start Redis.background e.receives b).1 { running = [] }),
      rw (stopped, stop),
      refl,
    )
stop_started e (nats b) ready ok = (
  nats (Nats.stop (Nats.start e.broadcast_ok e.kick_ok b).1),
  refl,
  Deaf-nats_stop (Nats.start e.broadcast_ok e.kick_ok b).1
      (nats_started e.broadcast_ok e.kick_ok b ready (ground arith)),
)

-- What a successful Run leaves.
pub record Running (e : Broker) (a b : App) : Type 0 where
  pub bus_started : (start e a.bus).0 ≡ true
  pub now : b ≡ record a { bus = (start e a.bus).1; ticking = true; serving = true }

pub run-Running :
    (e : Broker) (listens : Bool) (a b : App) → run e listens a ≡ (none, b) → Running e a b
unfolding run
run-Running e listens a b ran = record { bus_started = ground arith; now = ground arith }

pub game-shutdown :
    (a : App) (b : AnyBus)
    → stop a.bus ≡ some b
    → a.ticker_stopped ≡ false
    → a.game.hub.publish_closed ≡ false
    → shutdown a
      ≡ done (
          some (record a {
            bus = b;
            serving = false;
            ticker_stopped = true;
            game = record a.game { hub = record a.game.hub { publish_closed = true } };
          }))
unfolding shutdown stop_ticker close_hub
game-shutdown a b stopped fresh open_ = ground (arith, stopped, fresh, open_)

-- What Shutdown leaves, once the game has come to `g`.
pub record ShutDown (g : Game) (c : App) : Type 0 where
  pub not_serving : c.serving ≡ false
  pub ticker : c.ticker_stopped ≡ true
  pub deaf : Deaf c.bus
  pub game : c.game ≡ record g { hub = record g.hub { publish_closed = true } }

-- After a Run that serves, whatever steps the goroutines have taken but the closing of the publish
-- channel, Shutdown of an application that New has wired returns without a panic: it accepts no
-- connections, the tick loop is told to stop, which this does not wait for, no subscriber of Redis
-- runs, or else NATS drains and serves no subscription that the bus knows of, the publish channel
-- is closed, and the jobs that it held are still there. A second Shutdown panics.
pub shutdown-run :
    (e : Broker) (a b : App) (g : Game)
    → Wired a
    → run e true a ≡ (none, b)
    → Reach b.game g
    → g.hub.publish_closed ≡ false
    → (c : App) × (shutdown (record b { game = g }) ≡ done (some c))
      × ShutDown g c
      × (shutdown c ≡ panic close_of_closed)
unfolding shutdown stop_ticker
shutdown-run e a b g wired ran reached open_ =
    let r : Running e a b = run-Running e true a b ran in
    let (bus, stopped, silent) = stop_started e a.bus wired.bus_ready r.bus_started in
    let stops : stop b.bus ≡ some bus = ap (λ (x : App). stop x.bus) r.now ∙ stopped in
    let fresh : b.ticker_stopped ≡ false =
      ap (λ (x : App). x.ticker_stopped) r.now ∙ wired.not_stopped in
    (
      record b {
        bus = bus;
        serving = false;
        ticker_stopped = true;
        game = record g { hub = record g.hub { publish_closed = true } };
      },
      game-shutdown (record b { game = g }) bus stops fresh open_,
      record { not_serving = refl; ticker = refl; deaf = silent; game = refl },
      refl,
    )
