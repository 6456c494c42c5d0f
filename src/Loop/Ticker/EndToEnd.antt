-- ===== src/Loop/Ticker/EndToEnd.antt =====
-- From the move of a client to the packets of the next tick: internal/transport/ws/handler.go and
-- internal/game/loop/ticker.go.
use mathlib.Core.List.{Memᴰ}
use microservice_game_servic.Base.{
  ℕ, ◌≡◌, ◌≢◌, refl, ◌∙◌, true, false, List, Bytes, Option, none, some, done, Option-cases, inl,
  inr, bytes_comparable, ==_refl,
}
use microservice_game_servic.Base.Int.{ℤ, pos, int_comparable}
use microservice_game_servic.Base.Map.{lookup}
use microservice_game_servic.Protocol.{Envelope, PlayerMove, player_sync_batch, PlayerSync}
use microservice_game_servic.Player.Service.{PlayerMoveWithId}
use microservice_game_servic.State.PlayerState.{PlayerState, apply_move}
use microservice_game_servic.State.Manager.{Manager, map_at}
use microservice_game_servic.State.Manager.Lookup.{find, IsSound}
use microservice_game_servic.State.Manager.Spec.{entry_or_new}
use microservice_game_servic.Ws.Conn.{conn_at}
use microservice_game_servic.Ws.Conn.Sends.{sent}
use microservice_game_servic.Ws.Hub.Rooms.{in_room}
use microservice_game_servic.Ws.Handler.{Game, handle_player_move}
use microservice_game_servic.Ws.Handler.Moves.{
  find-handle_player_move, handle_player_move-IsSound, handle_player_move-Consistent,
}
use microservice_game_servic.Ws.Loops.Ended.{InOrder}
use microservice_game_servic.Loop.Ticker.{Ticker, sync_at, tick}
use microservice_game_servic.Loop.Ticker.Delivery.{tick_delivers}

-- A snapshot that a reader finds stands in a map of the table.
pub found_in :
    (k : Bytes) (u : ℤ) (p : PlayerState) (m : Manager)
    → find k u m ≡ some p
    → (r : ℕ) × (lookup k m.maps ≡ some r) × (lookup u (map_at r m).players ≡ some p)
unfolding find
found_in k u p m e = elim (Option-cases (lookup k m.maps)) [
  | inl none_there ↦ absurd (let clash : none ≡ some p = rw (none_there, find) at e in cc)
  | inr (r, stored) ↦ (r, stored, rw (stored, find) at e)
]

-- The snapshot of the sender of a move.
abbrev pub moved : ℕ → ℕ → PlayerMove → Game → PlayerState
moved now r move g =
    let u = (conn_at r g.hub.conns).user_id in
    apply_move now move (entry_or_new move.map_id u (find move.map_id u g.manager))

pub find-moved :
    (now r : ℕ) (move : PlayerMove) (g : Game)
    → IsSound g.manager
    → find move.map_id (conn_at r g.hub.conns).user_id (handle_player_move now r move g).manager
      ≡ some (moved now r move g)
find-moved now r move g s =
    find-handle_player_move now r move g move.map_id (conn_at r g.hub.conns).user_id s
    ∙ rw (==_refl move.map_id, ==_refl (conn_at r g.hub.conns).user_id)

pub dirty-apply_move :
    (now : ℕ) (move : PlayerMove) (p : PlayerState) → (apply_move now move p).dirty ≡ true
unfolding apply_move
dirty-apply_move now move p = refl

module _ (encode : Envelope → Bytes) where
  -- Where the hub is consistent, the manager sound and the sender's connection in the heap, where
  -- after the move the hub is not shut down and every connection in a room is open, where packets
  -- can be marshalled and no other step comes between: the tick after a client's move returns, and
  -- sends each connection in the room of that map whose user id is not 0 one packet, which holds
  -- the snapshot that the move made of its sender.
  pub tick-handle_player_move :
      (now r : ℕ) (move : PlayerMove) (start : ℕ) (clock : ℕ → ℕ) (finish : ℕ) (t : Ticker)
      (g : Game) (c : ℕ)
      → InOrder r g
      → (handle_player_move now r move g).hub.publish_closed ≡ false
      → ((j : Bytes) (q : ℕ)
          → in_room j q (handle_player_move now r move g).hub ≡ true
          → (conn_at q (handle_player_move now r move g).hub.conns).closed ≡ false)
      → in_room move.map_id c (handle_player_move now r move g).hub ≡ true
      → (conn_at c (handle_player_move now r move g).hub.conns).user_id ≢ pos 0
      → (moves : Option (List PlayerMoveWithId)) × (t' : Ticker) × (g' : Game) × (batch : List
          PlayerSync)
        × (at : ℕ) × (tick
              (λ e. some (encode e))
              start
              clock
              finish
              t
              (handle_player_move now r move g)
            ≡ done (moves, t', g'))
        × Memᴰ (sync_at (clock at) (moved now r move g)) batch
        × (conn_at c g'.hub.conns
            ≡ sent
                (encode (player_sync_batch batch))
                (conn_at c (handle_player_move now r move g).hub.conns))
  tick-handle_player_move now r move start clock finish t g c o running open_ member user =
      let g1 : Game = handle_player_move now r move g in
      let u : ℤ = (conn_at r g.hub.conns).user_id in
      let p : PlayerState = moved now r move g in
      let (at, here, player) =
        found_in move.map_id u p g1.manager (find-moved now r move g o.sound) in
      let (moves, t', g', batch, ticked, inside, got) =
        tick_delivers encode start clock finish t g1 move.map_id at u p c
          (handle_player_move-IsSound now r move g o.sound)
          (handle_player_move-Consistent now r move g o.consistent o.known) running open_ here
          player (dirty-apply_move now move _) member user in
      (moves, t', g', batch, at, ticked, inside, got)
