-- ===== src/App/Wired/Made.antt =====
-- When app.New of internal/app/app.go makes an application.
use microservice_game_servic.Base.{
  ℕ, zero, suc, ◌≡◌, ◌≢◌, refl, Bool, true, false, Bytes, Option, none, some, [], ok, Bool-cases,
  inl, inr, done, panic, divide_by_zero, arith,
}
use microservice_game_servic.Base.Int.{ℤ, pos, negsuc}
use microservice_game_servic.Config.{Config}
use microservice_game_servic.Bus.Client.{AnyBus, redis, nats, new_client, new_bus, new_nats_bus}
use microservice_game_servic.Loop.Ticker.{new_ticker}
use microservice_game_servic.State.Manager.{new_manager}
use microservice_game_servic.App.{App, tick_interval, wire_hub, assemble, pick_bus, new}

tick_interval_ok : (rate : ℤ) → rate ≢ pos 0 → (i : ℤ) × (tick_interval rate ≡ done i)
unfolding tick_interval
tick_interval_ok (pos zero) h = absurd (h refl)
tick_interval_ok (pos (suc n)) h = (_, refl)
tick_interval_ok (negsuc n) h = (_, refl)

assemble_ok :
    (cfg : Config) (disconnects : Bool) (now : ℕ) (b : AnyBus)
    → cfg.tick_rate ≢ pos 0
    → (a : App) × (assemble cfg disconnects now b ≡ done a) × (a.cfg ≡ cfg)
unfolding assemble
assemble_ok cfg disconnects now b rate =
    let (i, computed) = tick_interval_ok cfg.tick_rate rate in
    (
      record {
        cfg = cfg;
        bus = (wire_hub disconnects b).1;
        ticker = new_ticker i now;
        ticking = false;
        ticker_stopped = false;
        serving = false;
        game = record { hub = (wire_hub disconnects b).0; manager = new_manager };
      },
      rw (computed, assemble),
      refl,
    )

assemble_zero :
    (cfg : Config) (disconnects : Bool) (now : ℕ) (b : AnyBus)
    → cfg.tick_rate ≡ pos 0
    → assemble cfg disconnects now b ≡ panic divide_by_zero
unfolding assemble tick_interval
assemble_zero cfg disconnects now b e = ground (arith, e)

module _ {ℓ} {O : Type ℓ} (parse_url : Bytes → Option O) (ping : ℕ → O → Bool)
    (connect : Bytes → Bool) where
  new_client_ok :
      (n : ℕ) (url : Bytes) (o : O)
      → parse_url url ≡ some o
      → ping n o ≡ true
      → new_client parse_url ping n url ≡ ok o
  unfolding new_client
  new_client_ok n url o p q = rw (p, q, new_client)

  pick_bus_ok :
      (cfg : Config) (o : O)
      → parse_url cfg.redis_url ≡ some o
      → ((n : ℕ) → ping n o ≡ true)
      → connect cfg.nats_url ≡ true
      → (b : AnyBus) × (pick_bus parse_url ping connect cfg ≡ ok b)
  unfolding pick_bus new_nats_bus new_bus
  pick_bus_ok cfg o p q c = elim (Bool-cases cfg.use_nats) [
    | inl on_nats ↦ (
      nats (record {
        handler_set = false;
        started = false;
        subs = [];
        live = [];
        draining = false;
        next = 0;
      }),
      rw (on_nats, c, pick_bus, new_nats_bus),
    )
    | inr on_redis ↦ (
      redis (record { handler_set = false; cancel = none; running = []; next = 0 }),
      rw (
        on_redis,
        new_client_ok 1 cfg.redis_url o p (q 1),
        new_client_ok 2 cfg.redis_url o p (q 2),
        pick_bus,
        new_bus,
      ),
    )
  ]

  -- Where the URL of Redis can be read, Redis answers to every PING and NATS can be connected to,
  -- New returns an application, on that configuration, unless the tick rate is 0, and then it
  -- panics.
  pub new_lem :
      (cfg : Config) (disconnects : Bool) (now : ℕ) (o : O)
      → parse_url cfg.redis_url ≡ some o
      → ((n : ℕ) → ping n o ≡ true)
      → connect cfg.nats_url ≡ true
      → (cfg.tick_rate ≡ pos 0
          → new parse_url ping connect cfg disconnects now ≡ panic divide_by_zero)
        × (cfg.tick_rate ≢ pos 0
            → (a : App) × (new parse_url ping connect cfg disconnects now ≡ done (ok a))
              × (a.cfg ≡ cfg))
  unfolding new assemble
  new_lem cfg disconnects now o p q c =
      let (b, picked) = pick_bus_ok cfg o p q c in
      let first = new_client_ok 0 cfg.redis_url o p (q 0) in
      (
        λ zero_rate. rw (first, picked, new) (rw (assemble_zero cfg disconnects now b zero_rate)),
        λ rate.
            let (a, assembled, same) = assemble_ok cfg disconnects now b rate in
            (a, rw (first, picked, new) (rw assembled), same),
      )
