-- ===== src/Bus/Redis/Stopped.antt =====
-- When Stop of the Redis bus returns.
use microservice_game_servic.Base.{ℕ, ◌≡◌, Bool, true, false, [], none, some, nat_beq_iff, arith}
use microservice_game_servic.Bus.Redis.{
  RedisBus, Context, background, cancellable, start, stop, cancel_context,
}

-- On a bus with a handler and without subscribers, Stop returns after one Start, whatever its
-- context and whatever came of it. After two that succeed, the first of them with Background, it
-- never returns, since the cancel function of the first one is lost. Where the first one had a
-- context that can be cancelled, it waits until its owner cancels it, and then returns.
pub stop-start :
    (ctx : Context) (c : ℕ) (receives : Bool) (b : RedisBus)
    → b.running ≡ []
    → b.handler_set ≡ true
    → (stop (start ctx receives b).1 ≡ some (record (start ctx receives b).1 { running = [] }))
      × ((d : ℕ) → stop (cancel_context d (start ctx true (start background true b).1).1) ≡ none)
      × (stop (start ctx true (start (cancellable c) true b).1).1 ≡ none)
      × (stop (cancel_context c (start ctx true (start (cancellable c) true b).1).1)
          ≡ some (record (start ctx true (start (cancellable c) true b).1).1 { running = [] }))
unfolding stop start cancel_context
stop-start background c true b empty set = (
  rw (set, empty) (ground arith),
  λ d. rw (set, empty) (ground arith),
  rw (set, empty) (ground arith),
  rw (set, empty) (ground (arith, nat_beq_iff c c)),
)
stop-start background c false b empty set = (
  rw (set, empty) (ground arith),
  λ d. rw (set, empty) (ground arith),
  rw (set, empty) (ground arith),
  rw (set, empty) (ground (arith, nat_beq_iff c c)),
)
stop-start (cancellable e) c true b empty set = (
  rw (set, empty) (ground arith),
  λ d. rw (set, empty) (ground arith),
  rw (set, empty) (ground arith),
  rw (set, empty) (ground (arith, nat_beq_iff c c)),
)
stop-start (cancellable e) c false b empty set = (
  rw (set, empty) (ground arith),
  λ d. rw (set, empty) (ground arith),
  rw (set, empty) (ground arith),
  rw (set, empty) (ground (arith, nat_beq_iff c c)),
)
