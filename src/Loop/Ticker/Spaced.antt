-- ===== src/Loop/Ticker/Spaced.antt =====
-- When the tick loop of internal/game/loop/ticker.go hands a batch to
-- internal/game/player/service.go: never two of them close together.
use microservice_game_servic.Base.{
  ℕ, ◌+◌, ◌-◌, ◌≤◌, ◌<◌, ◌≡◌, sym, ap, ◌∙◌, List, [], ◌∷◌, Bytes, Option, none, some, length,
  leb→le, Bool-cases, Option-cases, inl, inr, arith, done, panic, bind_done, done_injective,
}
use microservice_game_servic.Protocol.{Envelope}
use microservice_game_servic.Player.Service.{PlayerMoveWithId}
use microservice_game_servic.State.Manager.{all_maps}
use microservice_game_servic.Ws.Handler.{Game}
use microservice_game_servic.Loop.Ticker.{
  Ticker, Event, stopped, ticked, due, tick_maps, tick, run, or_no_batch,
}

-- Each flush begins at least `interval` after the one before it, or `last`, has ended.
abbrev pub Spaced : ℕ → ℕ → List (ℕ × ℕ) → Type 0
Spaced interval last [] = Unit {0}
Spaced interval last ((start, finish) ∷ times) =
    (last + interval ≤ start) × Spaced interval finish times

module _ (marshal : Envelope → Option Bytes) where
  -- The ticks of a run that hand out a batch: when each begins, and when it has set the time of
  -- the last flush.
  unfoldable pub flush_times : List Event → Ticker → Game → List (ℕ × ℕ)
  flush_times [] t g = []
  flush_times (stopped ∷ events) t g = []
  flush_times (ticked start clock finish ∷ events) t g =
      elim (tick marshal start clock finish t g) [
        | panic p ↦ []
        | done (moves, t', g') ↦
            let rest = flush_times events t' g' in
            (elim moves [ none ↦ rest | some batch ↦ (start, finish) ∷ rest ])
      ]

  tick_times :
      (start : ℕ) (clock : ℕ → ℕ) (finish : ℕ) (t t' : Ticker) (g g' : Game)
      (moves : Option (List PlayerMoveWithId))
      → 0 < t.flush_interval
      → tick marshal start clock finish t g ≡ done (moves, t', g')
      → (t'.flush_interval ≡ t.flush_interval)
        × (moves ≡ none → t'.last_flush ≡ t.last_flush)
        × ((batch : List PlayerMoveWithId)
            → moves ≡ some batch
            → (t.last_flush + t.flush_interval ≤ start) × (t'.last_flush ≡ finish))
  unfolding tick
  tick_times start clock finish t t' g g' moves positive e =
      let ((moves1, g1), looped, after) =
        bind_done (tick_maps marshal clock (due start t) (all_maps g.manager) [] g) _
          (moves, t', g') e in
      elim (Bool-cases (due start t)) [
        | inl flush ↦
            let out : done (some moves1, record t { last_flush = finish }, g1)
                ≡ done (moves, t', g') =
              rw flush at after in
            let late : t.flush_interval ≤ start - t.last_flush =
              leb→le t.flush_interval (start - t.last_flush) flush in
            let its : t' ≡ record t { last_flush = finish } =
              sym (ap (λ p. p.1) (done_injective out)) in
            let some_batch : moves ≡ some moves1 = sym (ap (λ p. p.0) (done_injective out)) in
            (
              ap (λ x. x.flush_interval) its,
              λ h. cc,
              λ batch h. (omega arith, ap (λ x. x.last_flush) its),
            )
        | inr wait ↦
            let out : done (none, t, g1) ≡ done (moves, t', g') = rw wait at after in
            let its : t' ≡ t = sym (ap (λ p. p.1) (done_injective out)) in
            let no_batch : moves ≡ none = sym (ap (λ p. p.0) (done_injective out)) in
            (ap (λ x. x.flush_interval) its, λ h. ap (λ x. x.last_flush) its, λ batch h. cc)
      ]

  -- The batches of a run that returns are those of its flushes, which are spaced out.
  pub run-Spaced :
      (events : List Event) (t t' : Ticker) (g g' : Game) (batches : List (List PlayerMoveWithId))
      → 0 < t.flush_interval
      → run marshal events t g ≡ done (batches, t', g')
      → (length batches ≡ length (flush_times events t g))
        × Spaced t.flush_interval t.last_flush (flush_times events t g)
  unfolding run flush_times
  run-Spaced [] t t' g g' batches positive e =
      (ap length (sym (ap (λ p. p.0) (done_injective e))), tt)
  run-Spaced (stopped ∷ events) t t' g g' batches positive e =
      (ap length (sym (ap (λ p. p.0) (done_injective e))), tt)
  run-Spaced (ticked start clock finish ∷ events) t t' g g' batches positive e =
      let ((moves, t1, g1), one, after) =
        bind_done (tick marshal start clock finish t g) _ (batches, t', g') e in
      let ((batches2, t2, g2), rest, out) =
        bind_done (run marshal events t1 g1) _ (batches, t', g') after in
      let (interval, waited, flushed) =
        tick_times start clock finish t t1 g g1 moves positive one in
      let (count, spaced) =
        run-Spaced events t1 t2 g1 g2 batches2 (omega (arith, interval, positive)) rest in
      let made : batches ≡ or_no_batch moves batches2 = sym (ap (λ p. p.0) (done_injective out)) in
      elim (Option-cases moves) [
        | inl wait ↦
            let same : Spaced t.flush_interval t.last_flush (flush_times events t1 g1) =
              rw (interval, waited wait) at spaced in
            rw (one, flush_times, wait) (ap length made ∙ rw wait count, same)
        | inr (batch, flush) ↦
            let (late, ended) = flushed batch flush in
            let same : Spaced t.flush_interval finish (flush_times events t1 g1) =
              rw (interval, ended) at spaced in
            rw (one, flush_times, flush)
              (ap length made ∙ rw flush (omega (arith, count)), (late, same))
      ]
