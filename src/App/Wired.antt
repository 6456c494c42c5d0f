-- ===== src/App/Wired.antt =====
-- What app.New hands out, and when.
pub mod Made
use microservice_game_servic.Base.{
  ℕ, zero, suc, ◌≡◌, ◌≢◌, refl, sym, Bool, true, false, Bytes, Option, none, some, [], Result, ok,
  err, Result-cases, Bool-cases, inl, inr, done, panic, divide_by_zero, bind_done, done_injective,
  arith,
}
use microservice_game_servic.Base.Int.{ℤ, pos, negsuc}
use microservice_game_servic.Config.{Config}
use microservice_game_servic.Bus.Nats.{NatsBus}
use microservice_game_servic.Bus.Nats as Nats
use microservice_game_servic.Bus.Nats.Started.{Numbered}
use microservice_game_servic.Bus.Redis.{RedisBus}
use microservice_game_servic.Bus.Client.{
  AnyBus, redis, nats, new_client, new_bus, new_nats_bus, set_handler, subscribe_player_disconnect,
}
use microservice_game_servic.Loop.Ticker.{new_ticker, positive}
use microservice_game_servic.State.Manager.{new_manager}
use microservice_game_servic.System.{start_game}
use microservice_game_servic.App.{App, tick_interval, wire_hub, assemble, pick_bus, new}

-- A bus that is ready to start: it has its handler and serves nothing but, perhaps, the
-- subscription to disconnects.
pub record RedisReady (b : RedisBus) : Type 0 where
  pub handler : b.handler_set ≡ true
  pub not_started : b.cancel ≡ none
  pub idle : b.running ≡ []

pub record NatsReady (b : NatsBus) : Type 0 where
  pub handler : b.handler_set ≡ true
  pub not_started : b.started ≡ false
  pub numbered : Numbered b.next b.live

abbrev pub BusReady : AnyBus → Type 0
BusReady (redis b) = RedisReady b
BusReady (nats b) = NatsReady b

-- An application that New has wired.
pub record Wired (a : App) : Type 0 where
  pub game : a.game ≡ start_game true
  pub bus_ready : BusReady a.bus
  pub interval : positive a.ticker.interval ≡ true
  pub rate : a.cfg.tick_rate ≢ pos 0
  pub not_stopped : a.ticker_stopped ≡ false

-- A bus that New has just made.
abbrev IsNew : AnyBus → Type 0
IsNew (redis b) = (b.cancel ≡ none) × (b.running ≡ [])
IsNew (nats b) = (b.started ≡ false) × (b.live ≡ [])

wire_hub-BusReady :
    (disconnects : Bool) (b : AnyBus) → IsNew b → BusReady (wire_hub disconnects b).1
unfolding wire_hub set_handler subscribe_player_disconnect Nats.subscribe_player_disconnect
wire_hub-BusReady disconnects (redis b) i = record { handler = refl; not_started = i.0; idle = i.1 }
wire_hub-BusReady true (nats b) i = record {
  handler = refl;
  not_started = i.0;
  numbered = (omega arith, rw i.1 tt);
}
wire_hub-BusReady false (nats b) i = record {
  handler = refl;
  not_started = i.0;
  numbered = rw i.1 tt;
}

positive-new_ticker : (interval : ℤ) (now : ℕ) → positive (new_ticker interval now).interval ≡ true
unfolding new_ticker
positive-new_ticker interval now = ground arith

rate-tick_interval : (rate i : ℤ) → tick_interval rate ≡ done i → rate ≢ pos 0
unfolding tick_interval
rate-tick_interval (pos zero) i e = cc
rate-tick_interval (pos (suc n)) i e = λ f. cc
rate-tick_interval (negsuc n) i e = λ f. cc

ok_injective {ℓ κ} :
    {E : Type ℓ} {A : Type κ} {a b : A} → ◌≡◌ {A = Result E A} (ok a) (ok b) → a ≡ b
ok_injective e = cc

assemble-Wired :
    (cfg : Config) (disconnects : Bool) (now : ℕ) (b : AnyBus) (a : App)
    → IsNew b
    → assemble cfg disconnects now b ≡ done a
    → Wired a
unfolding assemble start_game wire_hub
assemble-Wired cfg disconnects now b a i e =
    let (interval, computed, out) = bind_done (tick_interval cfg.tick_rate) _ a e in
    rw (sym (done_injective out)) (record {
      game = refl;
      bus_ready = wire_hub-BusReady disconnects b i;
      interval = positive-new_ticker interval now;
      rate = rate-tick_interval cfg.tick_rate interval computed;
      not_stopped = refl;
    })

module _ {ℓ} {O : Type ℓ} (parse_url : Bytes → Option O) (ping : ℕ → O → Bool)
    (connect : Bytes → Bool) where
  new_bus-IsNew : (url : Bytes) (b : RedisBus) → new_bus parse_url ping url ≡ ok b → IsNew (redis b)
  unfolding new_bus
  new_bus-IsNew url b e = elim (Result-cases (new_client parse_url ping 1 url)) [
    | inl (f, e1) ↦ absurd (let clash : err _ ≡ ok b = rw (e1, new_bus) at e in cc)
    | inr (o1, e1) ↦ elim (Result-cases (new_client parse_url ping 2 url)) [
      | inl (f, e2) ↦ absurd (let clash : err _ ≡ ok b = rw (e1, e2, new_bus) at e in cc)
      | inr (o2, e2) ↦ ground (arith, rw (e1, e2, new_bus) at e)
    ]
  ]

  pick_bus-IsNew :
      (cfg : Config) (b : AnyBus) → pick_bus parse_url ping connect cfg ≡ ok b → IsNew b
  unfolding pick_bus new_nats_bus
  pick_bus-IsNew cfg b e = elim (Bool-cases cfg.use_nats) [
    | inl on_nats ↦ elim (Bool-cases (connect cfg.nats_url)) [
      | inl c ↦
          let made : ok (
                nats (record {
                  handler_set = false;
                  started = false;
                  subs = [];
                  live = [];
                  draining = false;
                  next = 0;
                }))
              ≡ ok b =
            rw (on_nats, c, pick_bus, new_nats_bus) at e in
          rw (sym (ok_injective made)) (refl, refl)
      | inr c ↦
          absurd (let clash : err _ ≡ ok b = rw (on_nats, c, pick_bus, new_nats_bus) at e in cc)
    ]
    | inr on_redis ↦ elim (Result-cases (new_bus parse_url ping cfg.redis_url)) [
      | inl (f, e1) ↦ absurd (let clash : err _ ≡ ok b = rw (on_redis, e1, pick_bus) at e in cc)
      | inr (r, e1) ↦
          let made : ok (redis r) ≡ ok b = rw (on_redis, e1, pick_bus) at e in
          rw (sym (ok_injective made)) (new_bus-IsNew cfg.redis_url r e1)
    ]
  ]

  -- What New hands out is wired: the hub and the manager are the new ones, the bus has the hub as
  -- its handler and is ready to start, the ticker has a positive interval and is not stopped. The
  -- tick rate was not 0.
  pub new-Wired :
      (cfg : Config) (disconnects : Bool) (now : ℕ) (a : App)
      → new parse_url ping connect cfg disconnects now ≡ done (ok a)
      → Wired a
  unfolding new
  new-Wired cfg disconnects now a e =
      elim (Result-cases (new_client parse_url ping 0 cfg.redis_url)) [
        | inl (f, e1) ↦ absurd (let clash : done (err _) ≡ done (ok a) = rw (e1, new) at e in cc)
        | inr (o, e1) ↦ elim (Result-cases (pick_bus parse_url ping connect cfg)) [
          | inl (f, e2) ↦
              absurd (let clash : done (err _) ≡ done (ok a) = rw (e1, e2, new) at e in cc)
          | inr (b, e2) ↦
              let (a', assembled, out) =
                bind_done (assemble cfg disconnects now b) (λ a. done (ok a)) (ok a)
                  (rw (e1, e2, new) at e) in
              rw (sym (ok_injective (done_injective out)))
                (assemble-Wired cfg disconnects now b a' (pick_bus-IsNew cfg b e2) assembled)
        ]
      ]
