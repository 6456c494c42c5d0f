-- ===== src/Loop/Ticker/Lasting.antt =====
-- How long the loop of internal/game/loop/ticker.go lasts while no write loop takes anything from the
-- queues of internal/transport/ws/conn.go.
use microservice_game_servic.Base.{
  ℕ, suc, ◌+◌, ◌*◌, ◌≤◌, ◌<◌, ◌≡◌, refl, true, false, List, [], ◌∷◌, Bytes, Option, length,
  length-append, inl, inr, arith, done,
}
use microservice_game_servic.Base.Int.{ℤ}
use microservice_game_servic.Protocol.{Envelope}
use microservice_game_servic.Player.Service.{PlayerMoveWithId}
use microservice_game_servic.State.Manager.Lookup.{IsSound}
use microservice_game_servic.Ws.Conn.{Conn, conn_at, send_capacity}
use microservice_game_servic.Ws.Conn.Sends.{sent}
use microservice_game_servic.Ws.Hub.Rooms.{in_room}
use microservice_game_servic.Ws.Hub.Consistent.{Consistent}
use microservice_game_servic.Ws.Handler.{Game}
use microservice_game_servic.Loop.Ticker.Round.{AtMostOne, Running}
use microservice_game_servic.Loop.Ticker.Delivery.{tick-Sent}
use microservice_game_servic.Loop.Ticker.Spaced.{Spaced, flush_times, run-Spaced}
use microservice_game_servic.Loop.Ticker.Rate.{Forward, last_start, run_rate}
use microservice_game_servic.Loop.Ticker.{
  Ticker, Event, stopped, ticked, new_ticker, tick, run, or_no_batch,
}

-- An open connection whose queue has room for `n` more messages.
abbrev pub HasRoom : ℕ → Conn → Type 0
HasRoom n c = (c.closed ≡ false) × (length c.queue + n ≤ send_capacity)

AtMostOne-HasRoom : (n : ℕ) (c c' : Conn) → AtMostOne c c' → HasRoom (suc n) c → HasRoom n c'
unfolding sent
AtMostOne-HasRoom n c c' (inl same) (open_, room) = rw same (open_, omega arith)
AtMostOne-HasRoom n c c' (inr (packet, got)) (open_, room) =
    rw got (ground arith, ground (arith, length-append c.queue (packet ∷ [])))

-- A game that stands `n` ticks.
record Lasts (n : ℕ) (g : Game) : Type 0 where
  sound : IsSound g.manager
  running : Running g.hub
  room : (k : Bytes) (q : ℕ) → in_room k q g.hub ≡ true → HasRoom n (conn_at q g.hub.conns)

module _ (marshal : Envelope → Option Bytes) where
  tick-Lasts :
      (start : ℕ) (clock : ℕ → ℕ) (finish : ℕ) (t : Ticker) (n : ℕ) (g : Game)
      → Lasts (suc n) g
      → (moves : Option (List PlayerMoveWithId)) × (t' : Ticker) × (g' : Game) × (tick marshal start
            clock finish t g
          ≡ done (moves, t', g'))
        × Lasts n g'
  tick-Lasts start clock finish t n g s =
      let (moves, t', g', e, out) =
        tick-Sent marshal start clock finish t g s.sound s.running.consistent s.running.publishing
          (λ k q i. (s.room k q i).0) in
      (
        moves,
        t',
        g',
        e,
        record {
          sound = out.sound s.sound;
          running = out.running;
          room = λ k q i. AtMostOne-HasRoom n _ _ (out.once q) (s.room k q (rw out.rooms at i));
        },
      )

  run-Lasts :
      (events : List Event) (t : Ticker) (g : Game)
      → Lasts (length events) g
      → (batches : List (List PlayerMoveWithId)) × (t' : Ticker) × (g' : Game) × (run marshal events
            t g
          ≡ done (batches, t', g'))
        × Lasts 0 g'
  unfolding run
  run-Lasts [] t g s = ([], t, g, refl, s)
  run-Lasts (stopped ∷ events) t g s = (
    [],
    t,
    g,
    refl,
    record {
      sound = s.sound;
      running = s.running;
      room = λ k q i. ((s.room k q i).0, omega (arith, (s.room k q i).1));
    },
  )
  run-Lasts (ticked start clock finish ∷ events) t g s =
      let (moves, t1, g1, one, s1) = tick-Lasts start clock finish t (length events) g s in
      let (batches, t2, g2, rest, s2) = run-Lasts events t1 g1 s1 in
      (or_no_batch moves batches, t2, g2, rw (one, rest), s2)

  -- Where the manager is sound, the hub is consistent and not shut down, every connection in a room
  -- is open and has room in its queue for one message an event, and the clock does not run
  -- backwards within a tick: a new ticker's loop returns although no write loop takes anything, and
  -- leaves every connection in a room open. Each tick that hands out a batch begins at least two
  -- seconds after the one before it that did, or the start, has set the time of the last flush;
  -- there are as many batches as such ticks, two seconds for each have passed up to the last flush,
  -- and when the last tick began, less than two seconds had passed since the last flush.
  pub run_lasts :
      (events : List Event) (interval : ℤ) (now : ℕ) (g : Game)
      → IsSound g.manager
      → Consistent g.hub
      → g.hub.publish_closed ≡ false
      → ((k : Bytes) (q : ℕ)
          → in_room k q g.hub ≡ true
          → HasRoom (length events) (conn_at q g.hub.conns))
      → Forward events
      → (batches : List (List PlayerMoveWithId)) × (t' : Ticker) × (g' : Game) × (run marshal events
            (new_ticker interval now)
            g
          ≡ done (batches, t', g'))
        × ((k : Bytes) (q : ℕ)
            → in_room k q g'.hub ≡ true
            → (conn_at q g'.hub.conns).closed ≡ false)
        × (length batches ≡ length (flush_times marshal events (new_ticker interval now) g))
        × Spaced 2000000000 now (flush_times marshal events (new_ticker interval now) g)
        × (now + length batches * 2000000000 ≤ t'.last_flush)
        × (last_start now events < t'.last_flush + 2000000000)
  unfolding new_ticker
  run_lasts events interval now g s c p room forward =
      let (batches, t', g', returns, s') =
        run-Lasts events (new_ticker interval now) g (record {
          sound = s;
          running = record { consistent = c; publishing = p };
          room = room;
        }) in
      let (apart, recent) = run_rate marshal events interval now t' g g' batches forward returns in
      let (count, spaced) =
        run-Spaced marshal events (new_ticker interval now) t' g g' batches (omega arith) returns in
      (batches, t', g', returns, λ k q i. (s'.room k q i).0, count, spaced, apart, recent)
