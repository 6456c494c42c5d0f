-- ===== src/Loop/Ticker/Rate.antt =====
-- How often the tick loop of internal/game/loop/ticker.go hands a batch to
-- internal/game/player/service.go.
use microservice_game_servic.Base.{
  ℕ, ◌+◌, ◌-◌, ◌*◌, ◌≤◌, ◌<◌, ◌≡◌, refl, sym, ap, List, [], ◌∷◌, Bytes, Option, none, some, length,
  leb→le, Bool-cases, inl, inr, arith, done, bind_done, done_injective,
}
use microservice_game_servic.Base.Int.{ℤ}
use microservice_game_servic.Protocol.{Envelope}
use microservice_game_servic.Player.Service.{PlayerMoveWithId}
use microservice_game_servic.State.Manager.{all_maps}
use microservice_game_servic.Ws.Handler.{Game}
use microservice_game_servic.Loop.Ticker.{
  Ticker, Event, stopped, ticked, new_ticker, due, tick_maps, tick, run, or_no_batch,
}

-- The clock does not run backwards within a tick.
abbrev pub Forward : List Event → Type 0
Forward [] = Unit {0}
Forward (stopped ∷ events) = Forward events
Forward (ticked start clock finish ∷ events) = (start ≤ finish) × Forward events

-- When the last tick before a stop began.
abbrev pub last_start : ℕ → List Event → ℕ
last_start before [] = before
last_start before (stopped ∷ events) = before
last_start before (ticked start clock finish ∷ events) = last_start start events

-- How many batches a tick adds.
abbrev flushes : Option (List PlayerMoveWithId) → ℕ
flushes none = 0
flushes (some moves) = 1

flushes-or_no_batch :
    (moves : Option (List PlayerMoveWithId)) (batches : List (List PlayerMoveWithId)) (a b c i : ℕ)
    → a + flushes moves * i ≤ b
    → b + length batches * i ≤ c
    → a + length (or_no_batch moves batches) * i ≤ c
flushes-or_no_batch none batches a b c i h k = omega arith
flushes-or_no_batch (some moves) batches a b c i h k = omega arith

module _ (marshal : Envelope → Option Bytes) where
  tick_rate :
      (start : ℕ) (clock : ℕ → ℕ) (finish : ℕ) (t t' : Ticker) (g g' : Game)
      (moves : Option (List PlayerMoveWithId))
      → start ≤ finish
      → 0 < t.flush_interval
      → tick marshal start clock finish t g ≡ done (moves, t', g')
      → (t'.flush_interval ≡ t.flush_interval)
        × (t.last_flush + flushes moves * t.flush_interval ≤ t'.last_flush)
        × (start < t'.last_flush + t.flush_interval)
  unfolding tick
  tick_rate start clock finish t t' g g' moves forward positive e =
      let ((moves1, g1), looped, after) =
        bind_done (tick_maps marshal clock (due start t) (all_maps g.manager) [] g) _
          (moves, t', g') e in
      elim (Bool-cases (due start t)) [
        | inl flush ↦
            let out : done (some moves1, record t { last_flush = finish }, g1)
                ≡ done (moves, t', g') =
              rw flush at after in
            let late : t.flush_interval ≤ start - t.last_flush =
              leb→le t.flush_interval (start - t.last_flush) flush in
            rw (sym (ap (λ p. p.0) (done_injective out)), sym (ap (λ p. p.1) (done_injective out)))
              (refl, omega arith, omega arith)
        | inr wait ↦
            let out : done (none, t, g1) ≡ done (moves, t', g') = rw wait at after in
            rw (sym (ap (λ p. p.0) (done_injective out)), sym (ap (λ p. p.1) (done_injective out)))
              (refl, omega arith, ground arith)
      ]

  run_rate_from :
      (events : List Event) (t t' : Ticker) (g g' : Game) (batches : List (List PlayerMoveWithId))
      (before : ℕ)
      → Forward events
      → 0 < t.flush_interval
      → before < t.last_flush + t.flush_interval
      → run marshal events t g ≡ done (batches, t', g')
      → (t.last_flush + length batches * t.flush_interval ≤ t'.last_flush)
        × (last_start before events < t'.last_flush + t.flush_interval)
  unfolding run
  run_rate_from [] t t' g g' batches before forward positive recent e =
      rw (sym (ap (λ p. p.0) (done_injective e)), sym (ap (λ p. p.1) (done_injective e)))
        (omega arith, recent)
  run_rate_from (stopped ∷ events) t t' g g' batches before forward positive recent e =
      rw (sym (ap (λ p. p.0) (done_injective e)), sym (ap (λ p. p.1) (done_injective e)))
        (omega arith, recent)
  run_rate_from (ticked start clock finish ∷ events) t t' g g' batches before forward positive
        recent e =
      let ((moves, t1, g1), one, after) =
        bind_done (tick marshal start clock finish t g) _ (batches, t', g') e in
      let ((batches2, t2, g2), rest, out) =
        bind_done (run marshal events t1 g1) _ (batches, t', g') after in
      let (interval, flushed, started) =
        tick_rate start clock finish t t1 g g1 moves forward.0 positive one in
      let (more, last) =
        run_rate_from events t1 t2 g1 g2 batches2 start forward.1 (omega (arith, interval))
          (omega (arith, interval, started)) rest in
      rw (sym (ap (λ p. p.0) (done_injective out)), sym (ap (λ p. p.1) (done_injective out)))
        (
          flushes-or_no_batch moves batches2 t.last_flush t1.last_flush t2.last_flush
              t.flush_interval flushed (rw interval at more),
          rw interval at last,
        )

  -- Where the clock does not run backwards within a tick, a run of a new ticker that returns hands
  -- out its batches at least two seconds apart, so many seconds have passed up to its last flush;
  -- and when its last tick began, less than two seconds had passed since the last flush.
  pub run_rate :
      (events : List Event) (interval : ℤ) (now : ℕ) (t' : Ticker) (g g' : Game)
      (batches : List (List PlayerMoveWithId))
      → Forward events
      → run marshal events (new_ticker interval now) g ≡ done (batches, t', g')
      → (now + length batches * 2000000000 ≤ t'.last_flush)
        × (last_start now events < t'.last_flush + 2000000000)
  unfolding new_ticker
  run_rate events interval now t' g g' batches forward e =
      run_rate_from events (new_ticker interval now) t' g g' batches now forward (omega arith)
        (omega arith) e
