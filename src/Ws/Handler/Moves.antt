-- ===== src/Ws/Handler/Moves.antt =====
-- What one move of a client does to the players in memory and to the rooms.
use microservice_game_servic.Base.{
  ℕ, ◌<◌, ◌≡◌, refl, Bool, false, not, ◌&&◌, [], Bytes, none, some, length, ◌==◌, nat_comparable,
  bytes_comparable, if◌then◌else◌, Bool-cases, inl, inr, arith,
}
use microservice_game_servic.Base.Int.{ℤ, int_comparable}
use microservice_game_servic.Protocol.{PlayerMove}
use microservice_game_servic.State.PlayerState.{apply_move}
use microservice_game_servic.State.Manager.{Manager, remove_player_from_map}
use microservice_game_servic.State.Manager.Lookup.{find, IsSound}
use microservice_game_servic.State.Manager.Spec.{
  move_player, move_player-IsSound, entry_or_new, find-move_player,
}
use microservice_game_servic.State.Manager.Removal.{
  remove_player_from_map-IsSound, find-remove_player_from_map,
}
use microservice_game_servic.Ws.Conn.{conn_at, Conn}
use microservice_game_servic.Ws.Hub.{move_to_room}
use microservice_game_servic.Ws.Hub.Consistent.{Consistent}
use microservice_game_servic.Ws.Hub.Operations.{move_to_room-Consistent, length-move_to_room}
use microservice_game_servic.Ws.Handler.{Game, switch_map, current_map, handle_player_move}

-- The manager that a move is applied to: without the player's entry on the map that it leaves.
abbrev pub left_manager : Bytes → Conn → Manager → Manager
left_manager k c m =
    if c.map_id == k
    then m
    else (if c.map_id == [] then m else remove_player_from_map c.map_id c.user_id m)

pub manager-handle_player_move :
    (now r : ℕ) (move : PlayerMove) (g : Game)
    → (handle_player_move now r move g).manager
      ≡ move_player now move.map_id
          (conn_at r g.hub.conns).user_id
          move
          (left_manager move.map_id (conn_at r g.hub.conns) g.manager)
unfolding handle_player_move switch_map current_map move_player
manager-handle_player_move now r move g = ground arith

left_manager-IsSound :
    (k : Bytes) (c : Conn) (m : Manager) → IsSound m → IsSound (left_manager k c m)
left_manager-IsSound k c m s = elim (Bool-cases (c.map_id == k)) [
  | inl e ↦ rw e s
  | inr e ↦ elim (Bool-cases (c.map_id == [])) [
    | inl n ↦ rw (e, n) s
    | inr n ↦ rw (e, n) (remove_player_from_map-IsSound c.map_id c.user_id m s)
  ]
]

-- Does a move to `k` take the connection away from map `j`?
abbrev pub leaves : Bytes → Conn → Bytes → Bool
leaves k c j = (not (c.map_id == k) && not (c.map_id == [])) && c.map_id == j

find-left_manager :
    (k : Bytes) (c : Conn) (m : Manager) (j : Bytes) (v : ℤ)
    → IsSound m
    → find j v (left_manager k c m) ≡ (if leaves k c j && c.user_id == v then none else find j v m)
find-left_manager k c m j v s = elim (Bool-cases (c.map_id == k)) [
  | inl e ↦ rw e
  | inr e ↦ elim (Bool-cases (c.map_id == [])) [
    | inl n ↦ rw (e, n)
    | inr n ↦ rw (e, n) (find-remove_player_from_map c.map_id c.user_id m j v s)
  ]
]

leaves_own : (k : Bytes) (c : Conn) → leaves k c k ≡ false
leaves_own k c = ground arith

-- A move keeps the manager sound.
pub handle_player_move-IsSound :
    (now r : ℕ) (move : PlayerMove) (g : Game)
    → IsSound g.manager
    → IsSound (handle_player_move now r move g).manager
handle_player_move-IsSound now r move g s =
    let c : Conn = conn_at r g.hub.conns in
    rw manager-handle_player_move (
      move_player-IsSound now move.map_id c.user_id move (left_manager move.map_id c g.manager)
        (left_manager-IsSound move.map_id c g.manager s))

-- In a sound manager, with no other step between its own, a move sets the snapshot of the
-- connection's user on the move's map, takes the one on the map that the connection leaves, if
-- it changes maps, and changes no other snapshot.
pub find-handle_player_move :
    (now r : ℕ) (move : PlayerMove) (g : Game) (j : Bytes) (v : ℤ)
    → IsSound g.manager
    → find j v (handle_player_move now r move g).manager ≡ (
        if move.map_id == j && (conn_at r g.hub.conns).user_id == v
        then some (
            apply_move now move (
              entry_or_new move.map_id
                (conn_at r g.hub.conns).user_id
                (find move.map_id (conn_at r g.hub.conns).user_id g.manager)))
        else (if leaves move.map_id (conn_at r g.hub.conns) j
              && (conn_at r g.hub.conns).user_id == v
            then none
            else find j v g.manager))
find-handle_player_move now r move g j v s =
    let c : Conn = conn_at r g.hub.conns in
    let k : Bytes = move.map_id in
    rw
      (
        manager-handle_player_move,
        find-move_player now k c.user_id move _ j v (left_manager-IsSound k c g.manager s),
        find-left_manager k c g.manager j v s,
        find-left_manager k c g.manager k c.user_id s,
        leaves_own k c,
      )
      refl

-- The hub after a move: the connection changes rooms where it changes maps.
pub hub-handle_player_move :
    (now r : ℕ) (move : PlayerMove) (g : Game)
    → (handle_player_move now r move g).hub ≡ (
        if (conn_at r g.hub.conns).map_id == move.map_id
        then g.hub
        else move_to_room r move.map_id g.hub)
unfolding handle_player_move switch_map current_map
hub-handle_player_move now r move g = ground arith

-- A move keeps the hub consistent.
pub handle_player_move-Consistent :
    (now r : ℕ) (move : PlayerMove) (g : Game)
    → Consistent g.hub
    → r < length g.hub.conns
    → Consistent (handle_player_move now r move g).hub
handle_player_move-Consistent now r move g c lt =
    elim (Bool-cases ((conn_at r g.hub.conns).map_id == move.map_id)) [
      | inl e ↦ rw (hub-handle_player_move, e) c
      | inr e ↦ rw (hub-handle_player_move, e) (move_to_room-Consistent r move.map_id g.hub c lt)
    ]

pub length-handle_player_move :
    (now r : ℕ) (move : PlayerMove) (g : Game)
    → length (handle_player_move now r move g).hub.conns ≡ length g.hub.conns
length-handle_player_move now r move g =
    elim (Bool-cases ((conn_at r g.hub.conns).map_id == move.map_id)) [
      | inl e ↦ rw (hub-handle_player_move, e)
      | inr e ↦ rw (hub-handle_player_move, e) (length-move_to_room r move.map_id g.hub)
    ]
