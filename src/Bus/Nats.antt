-- ===== src/Bus/Nats.antt =====
-- The life of NATSBus in internal/infra/bus/nats.go: Start, Stop and SubscribePlayerDisconnect.
-- The NATS connection is a library's: whether a call of Subscribe succeeds is an argument, and
-- `live` has the subscriptions that the connection serves. Drain only begins to end the ones that
-- are left: `draining` says that it has been called.
pub mod Started
pub mod Wire
use microservice_game_servic.Base.{
  ℕ, suc, Bool, true, false, not, List, [], ◌∷◌, ◌++◌, Option, none, some, nat_beq, select,
  if◌then◌else◌,
}

-- `handler_set` says that `handler` is not nil. Subscriptions are numbered.
pub record NatsBus : Type 0 where
  pub handler_set : Bool
  pub started : Bool
  pub subs : List ℕ
  pub live : List ℕ
  pub draining : Bool
  pub next : ℕ

pub data StartError : Type 0 where
  already_started handler_not_set subscribe_failed : StartError

-- One call of `nc.Subscribe`, which makes the subscription `next`.
abbrev pub subscribe : NatsBus → NatsBus
subscribe b = record b { live = b.next ∷ b.live; next = suc b.next }

abbrev pub unsubscribe : ℕ → NatsBus → NatsBus
unsubscribe s b = record b { live = select (λ i. not (nat_beq i s)) b.live }

unfoldable pub unsubscribe_all : List ℕ → NatsBus → NatsBus
unsubscribe_all [] b = b
unsubscribe_all (s ∷ subs) b = unsubscribe_all subs (unsubscribe s b)

-- The two subscriptions of Start: a failure of the second takes the first back.
unfoldable pub subscribe_both : Bool → Bool → NatsBus → Option StartError × NatsBus
subscribe_both broadcast_ok kick_ok b =
    if not broadcast_ok
    then (some subscribe_failed, b)
    else (if not kick_ok then (some subscribe_failed, unsubscribe b.next (subscribe b)) else (
      none,
      record (subscribe (subscribe b)) { subs = b.next ∷ suc b.next ∷ []; started = true },
    ))

unfoldable pub start : Bool → Bool → NatsBus → Option StartError × NatsBus
start broadcast_ok kick_ok b =
    if b.started
    then (some already_started, b)
    else (if not b.handler_set
        then (some handler_not_set, b)
        else subscribe_both broadcast_ok kick_ok b)

unfoldable pub stop : NatsBus → NatsBus
stop b =
    if not b.started
    then b
    else record (unsubscribe_all b.subs b) { draining = true; started = false }

-- The result says whether the subscription succeeded.
unfoldable pub subscribe_player_disconnect : Bool → NatsBus → Bool × NatsBus
subscribe_player_disconnect succeeds b =
    if not succeeds
    then (false, b)
    else (true, record (subscribe b) { subs = b.subs ++ b.next ∷ [] })
