-- ===== src/Bus/Redis.antt =====
-- The life of Bus in internal/infra/bus/redis.go: Start and Stop. The subscriber goroutines that
-- Start spawns are numbered; `receives` says whether Redis confirms the subscription.
pub mod Stopped
use microservice_game_servic.Base.{
  ℕ, suc, zero, ◌≡◌, refl, Bool, true, false, not, List, [], ◌∷◌, Option, none, some, nat_beq,
  select, if◌then◌else◌, arith, length,
}

-- The context that the caller of Start passes: `Background`, which nobody cancels, or one that its
-- owner may cancel, by its number.
pub data Context : Type 0 where
  background : Context
  cancellable : ℕ → Context

-- A subscriber goroutine ends when the context of its Start does.
pub record Subscriber : Type 0 where
  pub number : ℕ
  pub context : Context

-- `cancel` names the goroutine that the stored cancel function ends.
pub record RedisBus : Type 0 where
  pub handler_set : Bool
  pub cancel : Option ℕ
  pub running : List Subscriber
  pub next : ℕ

-- `true` for a start that succeeds. A start that Redis refuses has stored its cancel function.
unfoldable pub start : Context → Bool → RedisBus → Bool × RedisBus
start ctx receives b =
    if not b.handler_set
    then (false, b)
    else (if not receives then (false, record b { cancel = some b.next; next = suc b.next }) else (
      true,
      record b {
        cancel = some b.next;
        running = record { number = b.next; context = ctx } ∷ b.running;
        next = suc b.next;
      },
    ))

abbrev pub derived_from : ℕ → Context → Bool
derived_from c background = false
derived_from c (cancellable d) = nat_beq d c

-- The owner of the context `c` cancels it: the subscribers whose contexts derive from it end.
unfoldable pub cancel_context : ℕ → RedisBus → RedisBus
cancel_context c b = record b { running = select (λ q. not (derived_from c q.context)) b.running }

abbrev pub cancelled : RedisBus → List Subscriber
cancelled b = elim b.cancel [
  | none ↦ b.running
  | some r ↦ select (λ q. not (nat_beq q.number r)) b.running
]

-- Stop waits for every subscriber goroutine. `none` is a call that does not return while no
-- context is cancelled.
unfoldable pub stop : RedisBus → Option RedisBus
stop b = if nat_beq (length (cancelled b)) 0 then some (record b { running = [] }) else none
