-- ===== src/Ws/Loops.antt =====
-- readLoop and writeLoop of internal/transport/ws/conn.go. The frames that the WebSocket delivers
-- and the outcomes of its writes are arguments; deadlines only decide when those fail.
pub mod Ended
pub mod Written
use microservice_game_servic.Base.{
  ℕ, Bool, true, false, List, [], ◌∷◌, Bytes, Option, none, some, if◌then◌else◌,
}
use microservice_game_servic.Protocol.{Envelope}
use microservice_game_servic.Ws.Conn.{Conn}
use microservice_game_servic.Ws.Hub.{Hub, unregister, close_conn}
use microservice_game_servic.Ws.Handler.{Game, handle}

-- The limit that readLoop sets, over which the WebSocket delivers no frame.
abbrev pub max_message_size : ℕ
max_message_size = 4096

-- What ReadMessage returns, with the server's time at which a move in it is applied.
pub data Incoming : Type 0 where
  read_error : Incoming
  text_frame : Incoming
  binary_frame : ℕ → Bytes → Incoming

-- The deferred calls of readLoop: unregister, then Close.
unfoldable pub end_read : ℕ → Game → Game
end_read r g =
    let (hub, manager) = unregister r g.hub g.manager in
    record { hub = close_conn r hub; manager = manager }

module _ (unmarshal : Bytes → Option Envelope) where
  -- The loop over the frames of one connection; without an error at the end it still waits.
  unfoldable pub read_loop : ℕ → List Incoming → Game → Game
  read_loop r [] g = g
  read_loop r (read_error ∷ _) g = end_read r g
  read_loop r (text_frame ∷ frames) g = read_loop r frames g
  read_loop r (binary_frame now [] ∷ frames) g = read_loop r frames g
  read_loop r (binary_frame now (b ∷ message) ∷ frames) g =
      read_loop r frames (handle unmarshal now r (b ∷ message) g)

-- What writeLoop writes to the WebSocket.
pub data Outgoing : Type 0 where
  binary_message : Bytes → Outgoing
  ping_message : Outgoing
  close_message : Outgoing

-- The case that the `select` takes, with the outcome of its write: the send channel, or the ticker
-- of the pings.
pub data Turn : Type 0 where
  from_send : Bool → Turn
  pinged : Bool → Turn

-- The loop over its turns; when they run out it still waits. A closed channel yields what is left
-- in it, and then the loop writes the close frame and ends. An empty open channel is not ready.
unfoldable pub write_loop : List Turn → List Bytes → Bool → List Outgoing
write_loop [] queue closed = []
write_loop (pinged succeeds ∷ turns) queue closed =
    let rest = write_loop turns queue closed in ping_message ∷ (if succeeds then rest else [])
write_loop (from_send succeeds ∷ turns) (message ∷ queue) closed =
    let rest = write_loop turns queue closed in
    binary_message message ∷ (if succeeds then rest else [])
write_loop (from_send succeeds ∷ turns) [] closed =
    let rest = write_loop turns [] closed in if closed then close_message ∷ [] else rest
