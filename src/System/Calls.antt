-- ===== src/System/Calls.antt =====
-- What the goroutines of an instance run: a read loop of internal/transport/ws/conn.go, the tick
-- loop of internal/game/loop/ticker.go, a request for a WebSocket, a payload from the bus and a
-- disconnect that another service reports. The libraries are parameters as in those modules.
use microservice_game_servic.Base.{
  ℕ, ◌<◌, ◌≡◌, Bool, List, Bytes, Option, Result, length, done, Option-cases, inl, inr,
}
use microservice_game_servic.Base.Int.{ℤ}
use microservice_game_servic.Protocol.{Envelope}
use microservice_game_servic.Auth.{AuthResult, AuthError}
use microservice_game_servic.Bus.Wire.{dispatch}
use microservice_game_servic.Bus.Nats.Wire.{on_disconnect}
use microservice_game_servic.Player.Service.{PlayerMoveWithId}
use microservice_game_servic.State.Manager.{Manager}
use microservice_game_servic.State.Manager.Lookup.{IsSound}
use microservice_game_servic.Ws.Hub.{Hub, hub_handler}
use microservice_game_servic.Ws.Handler.{Game}
use microservice_game_servic.Ws.Handshake.{Frame, serve_http}
use microservice_game_servic.Ws.Loops.{Incoming, read_loop}
use microservice_game_servic.Loop.Ticker.{Ticker, Event, run}
use microservice_game_servic.System.{Reach, here}
use microservice_game_servic.System.Healthy.{Healthy}
use microservice_game_servic.System.Runs.{remove_player_from_map-Reach}
use microservice_game_servic.System.Runs.Reading.{read_loop-Reach}
use microservice_game_servic.System.Runs.Ticking.{run-Reach}
use microservice_game_servic.System.Runs.Joining.{serve_http-Reach, dispatch-Reach}

-- What the libraries do for an instance.
pub record Libraries : Type 0 where
  pub marshal : Envelope → Option Bytes
  pub unmarshal : Bytes → Option Envelope
  pub verify : Bytes → Bytes → ℤ → Result AuthError AuthResult
  pub parse_uuid : Bytes → Bytes
  pub unmarshal_json : Bytes → Option (ℤ × Bytes)

-- One call that returns.
pub data Call (l : Libraries) : Game → Game → Type 0 where
  reads :
      (r : ℕ) (frames : List Incoming) (g : Game)
      → r < length g.hub.conns
      → Call l g (read_loop l.unmarshal r frames g)
  ticks :
      (events : List Event) (t t' : Ticker) (g g' : Game) (batches : List (List PlayerMoveWithId))
      → run l.marshal events t g ≡ done (batches, t', g')
      → Call l g g'
  requests :
      (upgraded : Bool) (frame : Option Frame) (acked : Bool) (h h' : Hub) (m : Manager)
      → (serve_http l.verify l.unmarshal upgraded frame acked h).1 ≡ done h'
      → Call l (record { hub = h; manager = m }) (record { hub = h'; manager = m })
  receives :
      (node_id payload : Bytes) (h h' : Hub) (m : Manager)
      → dispatch l.parse_uuid hub_handler node_id payload h ≡ done h'
      → Call l (record { hub = h; manager = m }) (record { hub = h'; manager = m })
  disconnected :
      (message : Bytes) (h : Hub) (m : Manager)
      → Call l
          (record { hub = h; manager = m })
          (record { hub = h; manager = on_disconnect l.unmarshal_json message m })

on_disconnect-Reach :
    (unmarshal : Bytes → Option (ℤ × Bytes)) (message : Bytes) (h : Hub) (m : Manager)
    → IsSound m
    → Reach
        (record { hub = h; manager = m })
        (record { hub = h; manager = on_disconnect unmarshal message m })
unfolding on_disconnect
on_disconnect-Reach unmarshal message h m s = elim (Option-cases (unmarshal message)) [
  | inl bad ↦ rw (bad, on_disconnect) here
  | inr ((u, k), read) ↦ rw (read, on_disconnect) (remove_player_from_map-Reach k u h m s)
]

-- Over a healthy instance, a call of a goroutine that returns, whatever a client, the bus or
-- another service sends, and whatever the libraries answer, does nothing but atomic steps.
pub Call-Reach : {l : Libraries} {g g' : Game} → Healthy g → Call l g g' → Reach g g'
Call-Reach {l} i (reads r frames g lt) =
    read_loop-Reach l.unmarshal r frames g
      (record { consistent = i.hub.consistent; sound = i.sound; known = lt })
Call-Reach {l} i (ticks events t t' g g' batches e) =
    run-Reach l.marshal events t t' g g' batches i e
Call-Reach {l} i (requests upgraded frame acked h h' m e) =
    serve_http-Reach l.verify l.unmarshal upgraded frame acked h h' m e
Call-Reach {l} i (receives node_id payload h h' m e) =
    dispatch-Reach l.parse_uuid node_id payload h h' m i.hub.consistent e
Call-Reach {l} i (disconnected message h m) =
    on_disconnect-Reach l.unmarshal_json message h m i.sound
