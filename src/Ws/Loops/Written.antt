-- ===== src/Ws/Loops/Written.antt =====
-- What writeLoop of internal/transport/ws/conn.go has written when it stops.
use microservice_game_servic.Base.{
  ℕ, zero, suc, ◌≡◌, refl, Bool, true, false, not, ◌&&◌, List, [], ◌∷◌, ◌++◌, map, select, Bytes,
  length, take, ltb, if◌then◌else◌, arith,
}
use microservice_game_servic.Ws.Loops.{
  Turn, from_send, pinged, Outgoing, write_loop, binary_message, ping_message, close_message,
}

abbrev pub is_ping : Outgoing → Bool
is_ping ping_message = true
is_ping (binary_message message) = false
is_ping close_message = false

-- The turns of the send channel up to the first write that fails, of a message or of a ping.
abbrev pub attempts : List Turn → ℕ
attempts [] = 0
attempts (from_send true ∷ turns) = suc (attempts turns)
attempts (from_send false ∷ turns) = 1
attempts (pinged true ∷ turns) = attempts turns
attempts (pinged false ∷ turns) = 0

take_nil : (n : ℕ) → take {A = Bytes} n [] ≡ []
take_nil zero = refl
take_nil (suc n) = refl

-- Apart from the pings between them, the write loop writes the messages of the queue in their
-- order, as many as there are turns of the send channel up to the first write that fails. The
-- close frame follows them, as the last one, exactly if the channel is closed and there is one more
-- such turn than messages: a message or a ping whose write fails leaves it out.
pub write_loop_lem :
    (turns : List Turn) (queue : List Bytes) (closed : Bool)
    → select (λ o. not (is_ping o)) (write_loop turns queue closed)
      ≡ map binary_message (take (attempts turns) queue)
        ++ (if closed && ltb (length queue) (attempts turns) then close_message ∷ [] else [])
unfolding write_loop
write_loop_lem [] queue closed = ground arith
write_loop_lem (pinged true ∷ turns) queue closed =
    ground (arith, write_loop_lem turns queue closed)
write_loop_lem (pinged false ∷ turns) queue closed = ground arith
write_loop_lem (from_send true ∷ turns) [] true = ground arith
write_loop_lem (from_send true ∷ turns) [] false =
    ground (arith, write_loop_lem turns [] false, take_nil (attempts turns))
write_loop_lem (from_send false ∷ turns) [] true = ground arith
write_loop_lem (from_send false ∷ turns) [] false =
    ground (arith, write_loop_lem turns [] false, take_nil (attempts turns))
write_loop_lem (from_send true ∷ turns) (message ∷ queue) closed =
    ground (arith, write_loop_lem turns queue closed)
write_loop_lem (from_send false ∷ turns) (message ∷ queue) closed = ground arith
