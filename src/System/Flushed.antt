-- ===== src/System/Flushed.antt =====
-- From the move of a client to the flush: internal/transport/ws/handler.go and
-- internal/game/loop/ticker.go, with any steps of the goroutines in between.
use mathlib.Core.Option
use mathlib.Core.List.{Memᴰ}
use microservice_game_servic.Base.{
  ℕ, ◌-◌, ◌<◌, ◌≤◌, ◌≡◌, refl, ap, ◌∙◌, Bool, true, false, ◌&&◌, List, Bytes, Option, some, length,
  ◌==◌, bytes_comparable, done, Bool-cases, inl, inr,
}
use microservice_game_servic.Base.Int.{ℤ, int_comparable}
use microservice_game_servic.Protocol.{Envelope, PlayerMove}
use microservice_game_servic.Player.Service.{PlayerMoveWithId}
use microservice_game_servic.State.PlayerState.{PlayerState, apply_move, to_move}
use microservice_game_servic.State.MapState.{clear_dirty}
use microservice_game_servic.State.Manager.Lookup.{find}
use microservice_game_servic.Ws.Conn.{conn_at}
use microservice_game_servic.Ws.Hub.Rooms.{in_room}
use microservice_game_servic.Ws.Handler.{Game, handle_player_move}
use microservice_game_servic.Ws.Loops.Ended.{InOrder}
use microservice_game_servic.Loop.Ticker.{Ticker, with_id, tick}
use microservice_game_servic.Loop.Ticker.Delivery.{tick_flushes}
use microservice_game_servic.Loop.Ticker.EndToEnd.{moved, find-moved}
use microservice_game_servic.System.{Reach, here, later, in_hub, in_manager}
use microservice_game_servic.System.Healthy.{Healthy, Steps-Healthy}
use microservice_game_servic.System.Runs.Reading.{handle_player_move-Reach}
use microservice_game_servic.System.Table as Table

-- Does a change move, remove, lose or collect for Redis the snapshot of user `v` on map `j`?
abbrev pub takes : Table.Change → Bytes → ℤ → Bool
takes Table.kept j v = false
takes (Table.moved now k u move) j v = k == j && u == v
takes (Table.removed k u) j v = k == j && u == v
takes (Table.collected both k) j v = both && k == j
takes (Table.lost k) j v = k == j

-- No step of a run takes that snapshot. Collections for the broadcast alone may come.
abbrev pub Untaken : {g later_g : Game} → Reach g later_g → Bytes → ℤ → Type 0
Untaken here j v = Unit {0}
Untaken (later r (in_hub s)) j v = Untaken r j v
Untaken (later r (in_manager s)) j v = (takes (Table.meant s) j v ≡ false) × Untaken r j v

-- What waits for the flush: a snapshot that is dirty for Redis, with the move that goes there.
abbrev Waits : PlayerMoveWithId → Option PlayerState → Type 0
Waits w t = (p : PlayerState) × (t ≡ some p) × (p.redis_dirty ≡ true) × (with_id p ≡ w)

changed-Waits :
    (w : PlayerMoveWithId) (c : Table.Change) (t : Table.Table) (j : Bytes) (v : ℤ)
    → takes c j v ≡ false
    → Waits w (t j v)
    → Waits w (Table.changed c t j v)
unfolding to_move
changed-Waits w Table.kept t j v e h = h
changed-Waits w (Table.moved now k u move) t j v e h = rw e h
changed-Waits w (Table.removed k u) t j v e h = rw e h
changed-Waits w (Table.collected true k) t j v e h = rw e h
changed-Waits w (Table.collected false k) t j v e (p, found, dirty, its) =
    elim (Bool-cases (k == j)) [
      | inl own ↦ rw own (clear_dirty p, ap (Option.map clear_dirty) found, dirty, its)
      | inr other ↦ rw other (p, found, dirty, its)
    ]
changed-Waits w (Table.lost k) t j v e h = rw e h

replay-Waits :
    (w : PlayerMoveWithId) {g later_g : Game} (r : Reach g later_g) (t : Table.Table) (j : Bytes)
    (v : ℤ)
    → Untaken r j v
    → Waits w (t j v)
    → Waits w (Table.replay r t j v)
unfolding Table.replay
replay-Waits w here t j v n h = h
replay-Waits w (later r (in_hub s)) t j v n h = replay-Waits w r t j v n h
replay-Waits w (later r (in_manager s)) t j v n h =
    changed-Waits w (Table.meant s) (Table.replay r t) j v n.0 (replay-Waits w r t j v n.1 h)

redis_dirty-apply_move :
    (now : ℕ) (move : PlayerMove) (p : PlayerState) → (apply_move now move p).redis_dirty ≡ true
unfolding apply_move
redis_dirty-apply_move now move p = refl

module _ (encode : Envelope → Bytes) where
  -- Where the instance is healthy and the sender's connection in the heap, a client moves, and then
  -- the goroutines take any steps, ticks that only broadcast included, none of which moves the
  -- sender on that map again, removes the sender from it, drops the map, or collects from it for
  -- Redis. Where by then the hub is not shut down and every connection in a room is open, and
  -- packets can be marshalled: the next tick at which a flush is due returns, and hands
  -- HandleMoveBatch the sender's id with the move as the snapshot has taken it.
  pub tick-Untaken :
      (now r : ℕ) (move : PlayerMove) (start : ℕ) (clock : ℕ → ℕ) (finish : ℕ) (t : Ticker)
      (g later_g : Game)
      → Healthy g
      → r < length g.hub.conns
      → (steps : Reach (handle_player_move now r move g) later_g)
      → Untaken steps move.map_id (conn_at r g.hub.conns).user_id
      → later_g.hub.publish_closed ≡ false
      → ((k : Bytes) (q : ℕ)
          → in_room k q later_g.hub ≡ true
          → (conn_at q later_g.hub.conns).closed ≡ false)
      → t.flush_interval ≤ start - t.last_flush
      → (batch : List PlayerMoveWithId) × (t' : Ticker) × (g' : Game) × (tick
            (λ e. some (encode e))
            start
            clock
            finish
            t
            later_g
          ≡ done (some batch, t', g'))
        × Memᴰ (with_id (moved now r move g)) batch
  tick-Untaken now r move start clock finish t g later_g i lt steps untaken running open_ due =
      let u : ℤ = (conn_at r g.hub.conns).user_id in
      let g1 : Game = handle_player_move now r move g in
      let o : InOrder r g = record { consistent = i.hub.consistent; sound = i.sound; known = lt } in
      let i1 : Healthy g1 = Steps-Healthy (handle_player_move-Reach now r move g o) i in
      let i2 : Healthy later_g = Steps-Healthy steps i1 in
      let waiting : Waits (with_id (moved now r move g)) (find move.map_id u g1.manager) = (
        moved now r move g,
        find-moved now r move g i.sound,
        redis_dirty-apply_move now move _,
        refl,
      ) in
      let (p, found, dirty, its) =
        replay-Waits (with_id (moved now r move g)) steps (Table.table g1.manager) move.map_id u
          untaken waiting in
      let (batch, t', g', ticked, inside) =
        tick_flushes encode start clock finish t later_g move.map_id u p i2.sound i2.hub.consistent
          running open_ due (Table.find-replay steps move.map_id u i1 ∙ found) dirty in
      (batch, t', g', ticked, rw its at inside)
