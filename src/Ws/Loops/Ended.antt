-- ===== src/Ws/Loops/Ended.antt =====
-- What the read loop of a connection does to the hub and the manager, whatever the client sends.
use microservice_game_servic.Base.{
  ℕ, ◌<◌, ◌≡◌, ◌≢◌, refl, ◌∙◌, false, List, [], ◌∷◌, Bytes, Option, none, some, length, ◌==◌,
  bytes_comparable, bytes_beq_iff, ==_refl, Bool-cases, inl, inr, arith,
}
use microservice_game_servic.Base.Int.{int_comparable}
use microservice_game_servic.Protocol.{
  Envelope, PlayerMove, player_move, empty, handshake, handshake_ack, handshake_nack, player_sync,
  player_sync_batch,
}
use microservice_game_servic.State.Manager.Lookup.{find, IsSound}
use microservice_game_servic.State.Manager.Removal.{
  remove_player_from_map-IsSound, find-remove_player_from_map,
}
use microservice_game_servic.Ws.Conn.{Conn, conn_at}
use microservice_game_servic.Ws.Hub.{Hub, unregister, unregister_locked, close_conn}
use microservice_game_servic.Ws.Hub.Rooms.{in_room}
use microservice_game_servic.Ws.Hub.Consistent.{Consistent}
use microservice_game_servic.Ws.Hub.Operations.{
  unregister_locked-Consistent, close_conn-Consistent, length-unregister_locked,
}
use microservice_game_servic.Ws.Hub.Sessions.{length-close_conn, unregister_locked_lem}
use microservice_game_servic.Ws.Handler.{Game, handle, handle_envelope, handle_player_move}
use microservice_game_servic.Ws.Handler.Moves.{
  handle_player_move-IsSound, handle_player_move-Consistent, length-handle_player_move,
}
use microservice_game_servic.Ws.Loops.{
  Incoming, read_error, text_frame, binary_frame, end_read, read_loop,
}

-- A game in order, in which `r` is a connection.
pub record InOrder (r : ℕ) (g : Game) : Type 0 where
  pub consistent : Consistent g.hub
  pub sound : IsSound g.manager
  pub known : r < length g.hub.conns

end_read-InOrder : (r : ℕ) (g : Game) → InOrder r g → InOrder r (end_read r g)
unfolding end_read unregister
end_read-InOrder r g o =
    let lt : r < length (unregister_locked r g.hub).conns =
      rw (length-unregister_locked r g.hub) o.known in
    record {
      consistent =
          close_conn-Consistent r (unregister_locked r g.hub) lt
            (unregister_locked-Consistent r g.hub o.consistent);
      sound = elim (Bool-cases ((conn_at r g.hub.conns).map_id == [])) [
        | inl nowhere ↦ rw nowhere o.sound
        | inr somewhere ↦ rw somewhere (
            remove_player_from_map-IsSound (conn_at r g.hub.conns).map_id
              (conn_at r g.hub.conns).user_id g.manager o.sound)
      ];
      known = rw (length-close_conn r (unregister_locked r g.hub)) lt;
    }

handle_player_move-InOrder :
    (now r : ℕ) (move : PlayerMove) (g : Game)
    → InOrder r g
    → InOrder r (handle_player_move now r move g)
handle_player_move-InOrder now r move g o = record {
  consistent = handle_player_move-Consistent now r move g o.consistent o.known;
  sound = handle_player_move-IsSound now r move g o.sound;
  known = rw (length-handle_player_move now r move g) o.known;
}

pub handle_envelope-InOrder :
    (now r : ℕ) (envelope : Option Envelope) (g : Game)
    → InOrder r g
    → InOrder r (handle_envelope now r envelope g)
handle_envelope-InOrder now r none g o = o
handle_envelope-InOrder now r (some (player_move move)) g o =
    handle_player_move-InOrder now r move g o
handle_envelope-InOrder now r (some empty) g o = o
handle_envelope-InOrder now r (some (handshake hs)) g o = o
handle_envelope-InOrder now r (some handshake_ack) g o = o
handle_envelope-InOrder now r (some (handshake_nack reason)) g o = o
handle_envelope-InOrder now r (some (player_sync p)) g o = o
handle_envelope-InOrder now r (some (player_sync_batch ps)) g o = o

module _ (unmarshal : Bytes → Option Envelope) where
  -- Whatever frames a client sends, and wherever its connection breaks, the read loop keeps the
  -- hub consistent and the manager sound, where no other goroutine comes between its steps.
  pub read_loop-InOrder :
      (r : ℕ) (frames : List Incoming) (g : Game)
      → InOrder r g
      → InOrder r (read_loop unmarshal r frames g)
  unfolding read_loop handle
  read_loop-InOrder r [] g o = o
  read_loop-InOrder r (read_error ∷ frames) g o = end_read-InOrder r g o
  read_loop-InOrder r (text_frame ∷ frames) g o = read_loop-InOrder r frames g o
  read_loop-InOrder r (binary_frame now [] ∷ frames) g o = read_loop-InOrder r frames g o
  read_loop-InOrder r (binary_frame now (b ∷ message) ∷ frames) g o =
      read_loop-InOrder r frames (handle unmarshal now r (b ∷ message) g)
        (handle_envelope-InOrder now r (unmarshal (b ∷ message)) g o)

in_room-close_conn : (k : Bytes) (r q : ℕ) (h : Hub) → in_room k q (close_conn r h) ≡ in_room k q h
unfolding close_conn
in_room-close_conn k r q h = refl

-- Where the hub is consistent and the manager sound, once the read loop has ended its connection
-- is in no room, and its user has no snapshot on the map that the connection was on, if it was
-- on one.
pub end_read_lem :
    (r : ℕ) (g : Game) (k : Bytes)
    → InOrder r g
    → (conn_at r g.hub.conns).map_id ≢ []
    → (in_room k r (end_read r g).hub ≡ false)
      × (find (conn_at r g.hub.conns).map_id (conn_at r g.hub.conns).user_id (end_read r g).manager
          ≡ none)
unfolding end_read unregister
end_read_lem r g k o somewhere =
    let c : Conn = conn_at r g.hub.conns in
    (
      in_room-close_conn k r r (unregister_locked r g.hub)
          ∙ (unregister_locked_lem r g.hub k r c.user_id o.consistent).0
          ∙ ground arith,
      ground (
        arith,
        bytes_beq_iff c.map_id [],
        find-remove_player_from_map c.map_id c.user_id g.manager c.map_id c.user_id o.sound,
        ==_refl c.map_id,
        ==_refl c.user_id,
      ),
    )
