-- ===== src/Tests/Loops.antt =====
-- The loops of a connection at sample data.
use microservice_game_servic.Base.{
  ◌≡◌, refl, true, false, [], ◌∷◌, Bytes, Option, none, some, arith, map, take, ◌++◌, ◌&&◌, ltb,
  select, not, if◌then◌else◌,
}
use microservice_game_servic.Protocol.{Envelope, player_move}
use microservice_game_servic.State.Manager.Lookup.{find}
use microservice_game_servic.Ws.Conn.{conn_at}
use microservice_game_servic.Ws.Hub.Rooms.{in_room}
use microservice_game_servic.Ws.Loops.{
  read_error, text_frame, binary_frame, read_loop, end_read, write_loop, binary_message,
  ping_message, close_message, from_send, pinged,
}
use microservice_game_servic.Ws.Loops.Written.{is_ping, write_loop_lem}
use microservice_game_servic.Ws.Loops.Ended.{InOrder, read_loop-InOrder, end_read_lem}
use microservice_game_servic.Tests.Samples.{map_a, playing-InOrder, sample_move, playing}

abbrev read_move : Bytes → Option Envelope
read_move content = some (player_move sample_move)

read_loop-InOrder_test :
    InOrder 0
      (read_loop read_move 0 (text_frame ∷ binary_frame 101 (1 ∷ []) ∷ read_error ∷ []) playing)
read_loop-InOrder_test =
    read_loop-InOrder read_move 0 (text_frame ∷ binary_frame 101 (1 ∷ []) ∷ read_error ∷ []) playing
      playing-InOrder

end_read_lem_example :
    (in_room map_a 0 (end_read 0 playing).hub ≡ false)
    × (find
          (conn_at 0 playing.hub.conns).map_id
          (conn_at 0 playing.hub.conns).user_id
          (end_read 0 playing).manager
        ≡ none)
unfolding conn_at
end_read_lem_example = end_read_lem 0 playing map_a playing-InOrder (ground arith)

-- What is left in a closed queue is written before the close frame.
write_loop_test :
    write_loop
      (from_send true ∷ pinged true ∷ from_send true ∷ from_send true ∷ [])
      ((1 ∷ []) ∷ (2 ∷ []) ∷ [])
      true
    ≡ binary_message (1 ∷ []) ∷ ping_message ∷ binary_message (2 ∷ []) ∷ close_message ∷ []
unfolding write_loop
write_loop_test = refl

-- A ping that fails leaves out the rest of the queue and the close frame.
write_loop_lem_example :
    select
      (λ o. not (is_ping o))
      (write_loop
        (from_send true ∷ pinged false ∷ from_send true ∷ [])
        ((1 ∷ []) ∷ (2 ∷ []) ∷ [])
        true)
    ≡ map binary_message (take 1 ((1 ∷ []) ∷ (2 ∷ []) ∷ []))
      ++ (if true && ltb 2 1 then close_message ∷ [] else [])
write_loop_lem_example =
    write_loop_lem (from_send true ∷ pinged false ∷ from_send true ∷ []) ((1 ∷ []) ∷ (2 ∷ []) ∷ [])
      true
