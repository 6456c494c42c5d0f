-- ===== src/Loop/Ticker.antt =====
-- Ticker of internal/game/loop/ticker.go, which runs beside the handlers on the same hub and
-- manager. Times are in nanoseconds, but for the server time of a packet. `marshal` stands for
-- proto.Marshal of an envelope.
pub mod Collected
pub mod Round
pub mod Flush
pub mod Rounds
pub mod Delivery
pub mod EndToEnd
pub mod Kept
pub mod Rate
pub mod Spaced
pub mod Lasting
pub mod Published
use microservice_game_servic.Base.{
  ℕ, ◌-◌, Bool, true, false, ◌&&◌, List, [], ◌∷◌, ◌++◌, map, Bytes, Option, none, some, length, leb,
  nat_beq, if◌then◌else◌, Outcome, done, ◌>>=◌,
}
use microservice_game_servic.Base.Int.{ℤ, pos, negsuc}
use microservice_game_servic.Protocol.{Envelope, player_sync_batch, PlayerSync}
use microservice_game_servic.Player.Service.{PlayerMoveWithId}
use microservice_game_servic.State.PlayerState.{PlayerState, to_sync, to_move}
use microservice_game_servic.State.MapState.{collect_dirty, collect_dirty_both}
use microservice_game_servic.State.Manager.{Manager, map_at, write_at, all_maps}
use microservice_game_servic.Ws.Hub.{Hub, broadcast_to_map}
use microservice_game_servic.Ws.Handler.{Game}

pub record Ticker : Type 0 where
  pub interval : ℤ
  pub flush_interval : ℕ
  pub last_flush : ℕ

abbrev pub positive : ℤ → Bool
positive (pos n) = leb 1 n
positive (negsuc n) = false

unfoldable pub new_ticker : ℤ → ℕ → Ticker
new_ticker interval now = record {
  interval = if positive interval then interval else pos 50000000;
  flush_interval = 2000000000;
  last_flush = now;
}

-- `s := dirty[i].ToSync(); s.ServerTime = now`
abbrev pub sync_at : ℕ → PlayerState → PlayerSync
sync_at now p = record (to_sync p) { server_time = now }

abbrev pub with_id : PlayerState → PlayerMoveWithId
with_id p = record { user_id = p.user_id; move = to_move p }

-- What is collected from the map behind `r`: for the broadcast and for Redis.
unfoldable pub collect_at : Bool → ℕ → Manager → List PlayerState × List PlayerState × Manager
collect_at true r m =
    let (dirty, redis_dirty, ms) = collect_dirty_both (map_at r m) in
    (dirty, redis_dirty, write_at r ms m)
collect_at false r m = let (dirty, ms) = collect_dirty (map_at r m) in (dirty, [], write_at r ms m)

abbrev pub due : ℕ → Ticker → Bool
due start t = leb t.flush_interval (start - t.last_flush)

-- A cancelled context, a closed `stopCh`, or a tick with its readings of the clock.
pub data Event : Type 0 where
  stopped : Event
  ticked : ℕ → (ℕ → ℕ) → ℕ → Event

abbrev pub or_no_batch :
    Option (List PlayerMoveWithId) → List (List PlayerMoveWithId) → List (List PlayerMoveWithId)
or_no_batch none batches = batches
or_no_batch (some moves) batches = moves ∷ batches

module _ (marshal : Envelope → Option Bytes) where
  -- One round of the loop over the maps, whose packet bears the server time `now`.
  unfoldable pub tick_map :
      ℕ → Bool → ℕ → List PlayerMoveWithId → Game → Outcome (List PlayerMoveWithId × Game)
  tick_map now do_flush r moves g =
      let (dirty, redis_dirty, m) = collect_at do_flush r g.manager in
      let g' = record g { manager = m } in
      if nat_beq (length dirty) 0 && nat_beq (length redis_dirty) 0
      then done (moves, g')
      else (elim (marshal (player_sync_batch (map (sync_at now) dirty))) [
        | none ↦ done (moves, g')
        | some packet ↦ broadcast_to_map (map_at r m).map_id packet none g.hub >>= λ hub.
            done (moves ++ map with_id redis_dirty, record g' { hub = hub })
      ])

  -- The loop over the maps; `clock` reads the server time at each of them.
  unfoldable pub tick_maps :
      (ℕ → ℕ)
      → Bool
      → List ℕ
      → List PlayerMoveWithId
      → Game
      → Outcome (List PlayerMoveWithId × Game)
  tick_maps clock do_flush [] moves g = done (moves, g)
  tick_maps clock do_flush (r ∷ rs) moves g =
      tick_map (clock r) do_flush r moves g >>= λ (moves', g').
      tick_maps clock do_flush rs moves' g'

  -- One tick that begins at `start` and sets the time of the last flush at `finish`. The moves of
  -- a flush, where there is one, go to HandleMoveBatch in a goroutine of its own.
  unfoldable pub tick :
      ℕ → (ℕ → ℕ) → ℕ → Ticker → Game → Outcome (Option (List PlayerMoveWithId) × Ticker × Game)
  tick start clock finish t g =
      tick_maps clock (due start t) (all_maps g.manager) [] g >>= λ (moves, g').
      if due start t
      then done (some moves, record t { last_flush = finish }, g')
      else done (none, t, g')

  -- The loop of `run` over what its `select` takes in turn; the result has the batches for Redis.
  -- Without a stop at the end the loop still waits.
  unfoldable pub run :
      List Event → Ticker → Game → Outcome (List (List PlayerMoveWithId) × Ticker × Game)
  run [] t g = done ([], t, g)
  run (stopped ∷ _) t g = done ([], t, g)
  run (ticked start clock finish ∷ events) t g = tick start clock finish t g >>= λ (moves, t', g').
      run events t' g' >>= λ (batches, t'', g''). done (or_no_batch moves batches, t'', g'')
