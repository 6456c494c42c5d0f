-- ===== src/System/Kicked.antt =====
-- A connection that is kicked while its read loop of internal/transport/ws/conn.go still has a
-- message to handle.
use microservice_game_servic.Base.{
  ℕ, ◌<◌, ◌≡◌, ◌≢◌, ◌∙◌, true, [], Bytes, some, length, nat_beq_iff, bytes_comparable,
  bytes_beq_iff, panic, send_on_closed, arith,
}
use microservice_game_servic.Base.Int.{ℤ, int_comparable, int_beq_iff}
use microservice_game_servic.Base.Map.{lookup, erase}
use microservice_game_servic.Protocol.{PlayerMove}
use microservice_game_servic.Ws.Conn.{conn_at, close}
use microservice_game_servic.Ws.Conn.Sends.{send_all_closed, conn_at-write_conn}
use microservice_game_servic.Ws.Hub.{
  Hub, receivers, on_broadcast, on_kick_user, move_to_room, close_conn,
}
use microservice_game_servic.Ws.Hub.Rooms.{in_room, conns-remove_from_room_locked}
use microservice_game_servic.Ws.Hub.Broadcasts.{
  receives, elem-receivers, receivers-Unrepeated, receivers-AllBelow,
}
use microservice_game_servic.Ws.Hub.Consistent.{Consistent}
use microservice_game_servic.Ws.Hub.Operations.{
  on_kick_user-Consistent, move_to_room-Consistent, in_room-move_to_room,
}
use microservice_game_servic.Ws.Hub.Kicks.{on_kick_user_lem}
use microservice_game_servic.Ws.Handler.{Game, handle_player_move}
use microservice_game_servic.Ws.Handler.Moves.{hub-handle_player_move}
use microservice_game_servic.Ws.Loops.Ended.{InOrder}
use microservice_game_servic.System.Monotone.{Ages, Ages-on_kick_user, Ages-move_to_room}

-- A broadcast to a room with a closed connection whose user is not left out.
pub on_broadcast_closed :
    (k message : Bytes) (u : ℤ) (r : ℕ) (h : Hub)
    → Consistent h
    → receives k u r h ≡ true
    → (conn_at r h.conns).closed ≡ true
    → on_broadcast k message u h ≡ panic send_on_closed
unfolding on_broadcast
on_broadcast_closed k message u r h c inside closed = rw (
    send_all_closed message (receivers k u h) h.conns r (receivers-Unrepeated k u h c)
      (receivers-AllBelow k u h c) (elem-receivers k u h r ∙ inside) closed)

map_id-on_kick_user :
    (u : ℤ) (r : ℕ) (h : Hub)
    → Consistent h
    → lookup u h.conns_by_user ≡ some r
    → (conn_at r (on_kick_user u h).conns).map_id ≡ (conn_at r h.conns).map_id
unfolding on_kick_user close_conn close
map_id-on_kick_user u r h c e =
    let conns-kept =
      conns-remove_from_room_locked r (record h { conns_by_user = erase u h.conns_by_user }) in
    rw (e, on_kick_user, conns-kept)
      (ground (
        arith,
        conn_at-write_conn h.conns r r (record (conn_at r h.conns) { closed = true })
            (c.held u r e),
      ))

-- Where the hub is consistent and the manager sound: if the connection that a user is registered
-- with is kicked, and its read loop then handles a move to a named map other than the one it was
-- on, the connection is in the room of that map, and a broadcast there that does not leave out the
-- user panics.
pub on_broadcast-handle_player_move :
    (now : ℕ) (u w : ℤ) (r : ℕ) (move : PlayerMove) (message : Bytes) (g : Game)
    → InOrder r g
    → lookup u g.hub.conns_by_user ≡ some r
    → (conn_at r g.hub.conns).map_id ≢ move.map_id
    → move.map_id ≢ []
    → u ≢ w
    → (in_room move.map_id r
          (handle_player_move now r move (record g { hub = on_kick_user u g.hub })).hub
        ≡ true)
      × (on_broadcast move.map_id message w
            (handle_player_move now r move (record g { hub = on_kick_user u g.hub })).hub
          ≡ panic send_on_closed)
on_broadcast-handle_player_move now u w r move message g o current other named not_out =
    let k : Bytes = move.map_id in
    let h : Hub = on_kick_user u g.hub in
    let aged : Ages g.hub.conns h.conns = Ages-on_kick_user u g.hub in
    let lt : r < length h.conns = omega (arith, o.known, aged.grows) in
    let c : Consistent h = on_kick_user-Consistent u g.hub o.consistent in
    let later : Ages h.conns (move_to_room r k h).conns = Ages-move_to_room r k h in
    let user : (conn_at r (move_to_room r k h).conns).user_id ≡ u =
      (later.each r lt).same_user
      ∙ (aged.each r o.known).same_user
      ∙ o.consistent.owned u r current in
    let inside : in_room k r (move_to_room r k h) ≡ true =
      in_room-move_to_room r k h k r c lt
      ∙ ground (arith, nat_beq_iff r r, bytes_beq_iff k [], bytes_beq_iff k k) in
    let moved : (handle_player_move now r move (record g { hub = h })).hub ≡ move_to_room r k h =
      hub-handle_player_move now r move (record g { hub = h })
      ∙ ground (
        arith,
        map_id-on_kick_user u r g.hub o.consistent current,
        bytes_beq_iff (conn_at r h.conns).map_id k,
      ) in
    rw moved (
      inside,
      on_broadcast_closed k message w r (move_to_room r k h) (move_to_room-Consistent r k h c lt)
          (ground (arith, inside, user, int_beq_iff u w))
          ((later.each r lt).still_closed
            ((on_kick_user_lem u u g.hub o.consistent).1 r k current).0),
    )
