-- ===== src/App/Stopping/Late.antt =====
-- A handshake that is still in progress when Shutdown of internal/app/app.go has closed the hub:
-- the shutdown of an HTTP server does not wait for the connections that have become WebSockets.
use microservice_game_servic.Base.{
  ℕ, ◌≡◌, sym, ap, ◌∙◌, Bool, true, false, [], ◌∷◌, ◌++◌, Bytes, Option, none, some, Result, done,
  done_injective, panic, send_on_closed, arith, length,
}
use microservice_game_servic.Base.Int.{ℤ, int_comparable}
use microservice_game_servic.Protocol.{Envelope}
use microservice_game_servic.Auth.{AuthResult, AuthError}
use microservice_game_servic.Bus.Client.{Broker}
use microservice_game_servic.Ws.Conn.{conn_at, new_conn}
use microservice_game_servic.Ws.Hub.{
  Hub, new_hub, enqueue, register, register_locked, publish_kick_job, PublishJob,
}
use microservice_game_servic.Ws.Hub.Frames.{register_locked-SameChannel}
use microservice_game_servic.Ws.Handler.{Game}
use microservice_game_servic.Ws.Handshake.{Frame, Reply, do_handshake, serve_http}
use microservice_game_servic.System.{Reach, start_game}
use microservice_game_servic.System.Channels.{bus-register_locked, Reach-bus}
use microservice_game_servic.App.{App, run, shutdown}
use microservice_game_servic.App.Wired.{Wired}
use microservice_game_servic.App.Stopping.{Running, run-Running, shutdown-run, some_injective}

closed-register_locked : (r : ℕ) (h : Hub) → (register_locked r h).publish_closed ≡ h.publish_closed
closed-register_locked r h = ap (λ x. x.publish_closed) (register_locked-SameChannel r h)

enqueue_closed :
    (job : PublishJob) (h : Hub)
    → h.bus_set ≡ true
    → h.publish_closed ≡ true
    → enqueue job h ≡ panic send_on_closed
unfolding enqueue
enqueue_closed job h bus closed = ground (arith, bus, closed)

-- Where the hub has a bus and its publish channel is closed, `register` panics.
pub register_closed :
    (r : ℕ) (h : Hub)
    → h.bus_set ≡ true
    → h.publish_closed ≡ true
    → register r h ≡ panic send_on_closed
unfolding register
register_closed r h bus closed =
    enqueue_closed (publish_kick_job (conn_at r h.conns).user_id) (register_locked r h)
      (bus-register_locked r h ∙ bus) (closed-register_locked r h ∙ closed)

module _ (verify : Bytes → Bytes → ℤ → Result AuthError AuthResult)
    (unmarshal : Bytes → Option Envelope) where
  accepted_closed :
      (frame : Option Frame) (acked : Bool) (h : Hub)
      → (do_handshake verify unmarshal frame acked new_conn).1 ≡ none
      → h.bus_set ≡ true
      → h.publish_closed ≡ true
      → (serve_http verify unmarshal true frame acked h).1 ≡ panic send_on_closed
  unfolding serve_http
  accepted_closed frame acked h accepted bus closed =
      let reply : Reply = do_handshake verify unmarshal frame acked new_conn in
      rw (accepted, serve_http)
        (register_closed (length h.conns) (record h { conns = h.conns ++ reply.2 ∷ [] }) bus closed)

  -- Where an application that New has wired has served and is shut down, with the publish channel
  -- open before, a handshake that is still accepted afterwards panics.
  pub serve_http-shutdown :
      (e : Broker) (a b c : App) (g : Game) (frame : Option Frame) (acked : Bool)
      → Wired a
      → run e true a ≡ (none, b)
      → Reach b.game g
      → g.hub.publish_closed ≡ false
      → shutdown (record b { game = g }) ≡ done (some c)
      → (do_handshake verify unmarshal frame acked new_conn).1 ≡ none
      → (serve_http verify unmarshal true frame acked c.game.hub).1 ≡ panic send_on_closed
  unfolding start_game new_hub
  serve_http-shutdown e a b c g frame acked wired ran reached open_ shut accepted =
      let r : Running e a b = run-Running e true a b ran in
      let (c', ended, down, again) = shutdown-run e a b g wired ran reached open_ in
      let same : c' ≡ c = some_injective (done_injective (sym ended ∙ shut)) in
      let bus : g.hub.bus_set ≡ true =
        Reach-bus reached
        ∙ ap (λ (x : App). x.game.hub.bus_set) r.now
        ∙ ap (λ x. x.hub.bus_set) wired.game in
      rw (sym same) (
        accepted_closed frame acked c'.game.hub accepted (ap (λ x. x.hub.bus_set) down.game ∙ bus)
          (ap (λ x. x.hub.publish_closed) down.game))
