-- ===== src/Ws/Handshake/Served.antt =====
-- What ServeHTTP of internal/transport/ws/server.go makes of the hub.
use microservice_game_servic.Base.{
  ◌≡◌, ◌⊎◌, Bool, true, false, [], ◌∷◌, ◌++◌, Bytes, Option, length, Option-cases, Result, inl, inr,
  done, done_injective,
}
use microservice_game_servic.Base.Int.{ℤ}
use microservice_game_servic.Protocol.{Envelope}
use microservice_game_servic.Auth.{AuthResult, AuthError}
use microservice_game_servic.Ws.Conn.{Conn, new_conn, close}
use microservice_game_servic.Ws.Hub.{Hub, register}
use microservice_game_servic.Ws.Handshake.{Frame, Reply, do_handshake, serve_http}

module _ (verify : Bytes → Bytes → ℤ → Result AuthError AuthResult)
    (unmarshal : Bytes → Option Envelope) where
  -- A request that does not panic leaves the hub alone, adds a closed connection, or registers
  -- the new one.
  pub serve_http_done :
      (upgraded : Bool) (frame : Option Frame) (acked : Bool) (h h' : Hub)
      → (serve_http verify unmarshal upgraded frame acked h).1 ≡ done h'
      → let c : Conn = (do_handshake verify unmarshal frame acked new_conn).2 in
        (h ≡ h')
        ⊎ (record h { conns = h.conns ++ close c ∷ [] } ≡ h')
        ⊎ (register (length h.conns) (record h { conns = h.conns ++ c ∷ [] }) ≡ done h')
  unfolding serve_http
  serve_http_done false frame acked h h' e = inl (done_injective e)
  serve_http_done true frame acked h h' e =
      let reply : Reply = do_handshake verify unmarshal frame acked new_conn in
      elim (Option-cases reply.1) [
        | inl accepted ↦ inr (inr (rw accepted at e))
        | inr (f, failed) ↦
            let out : done (record h { conns = h.conns ++ close reply.2 ∷ [] }) ≡ done h' =
              rw failed at e in
            inr (inl (done_injective out))
      ]
