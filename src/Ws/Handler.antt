-- ===== src/Ws/Handler.antt =====
-- Handler of internal/transport/ws/handler.go: the dispatcher of a connection's messages. A
-- pointer to a connection is an index of the hub's heap. `unmarshal` stands for proto.Unmarshal.
pub mod Moves
use microservice_game_servic.Base.{
  ℕ, List, [], ◌∷◌, Bytes, Option, none, some, ◌==◌, bytes_comparable, if◌then◌else◌,
}
use microservice_game_servic.Protocol.{PlayerMove, Envelope, player_move}
use microservice_game_servic.State.Manager.{
  Manager, get_or_create_map, update_at, remove_player_from_map,
}
use microservice_game_servic.Ws.Conn.{conn_at}
use microservice_game_servic.Ws.Hub.{Hub, move_to_room}

-- The hub and the manager, which the handler and the ticker share.
pub record Game : Type 0 where
  pub hub : Hub
  pub manager : Manager

-- The three steps in the source's order; the result is the pointer to the new map.
unfoldable pub switch_map : ℕ → Bytes → Game → ℕ × Game
switch_map r new_map_id g =
    let c = conn_at r g.hub.conns in
    let m =
      if c.map_id == [] then g.manager else remove_player_from_map c.map_id c.user_id g.manager in
    let hub = move_to_room r new_map_id g.hub in
    let (ms, m') = get_or_create_map new_map_id m in (ms, record { hub = hub; manager = m' })

unfoldable pub current_map : Bytes → Game → ℕ × Game
current_map map_id g =
    let (ms, m) = get_or_create_map map_id g.manager in (ms, record g { manager = m })

-- `now` is the server's clock in UpdateFromMove.
unfoldable pub handle_player_move : ℕ → ℕ → PlayerMove → Game → Game
handle_player_move now r move g =
    let c = conn_at r g.hub.conns in
    let (ms, g') =
      if c.map_id == move.map_id then current_map move.map_id g else switch_map r move.map_id g in
    record g' { manager = update_at now c.user_id move ms g'.manager }

-- An envelope of any other kind, and one that cannot be read, is dropped.
abbrev pub handle_envelope : ℕ → ℕ → Option Envelope → Game → Game
handle_envelope now r (some (player_move move)) g = handle_player_move now r move g
handle_envelope now r (some _) g = g
handle_envelope now r none g = g

module _ (unmarshal : Bytes → Option Envelope) where
  unfoldable pub handle : ℕ → ℕ → Bytes → Game → Game
  handle now r [] g = g
  handle now r (b ∷ message) g = handle_envelope now r (unmarshal (b ∷ message)) g
