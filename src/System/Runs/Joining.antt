-- ===== src/System/Runs/Joining.antt =====
-- The handshake of internal/transport/ws/server.go, and a message from another instance, as runs
-- of the atomic steps.
use microservice_game_servic.Base.{
  ℕ, ◌<◌, ◌≡◌, refl, sym, Bool, true, false, [], ◌∷◌, ◌++◌, Bytes, Option, some, none, length,
  length-append, nat_beq, Bool-cases, Result-cases, inl, inr, done, arith, Result, bytes_comparable,
  nat_comparable,
}
use microservice_game_servic.Base.Int.{ℤ}
use microservice_game_servic.Protocol.{
  Envelope, empty, handshake, handshake_ack, handshake_nack, player_move, player_sync,
  player_sync_batch, Handshake,
}
use microservice_game_servic.Auth.{AuthResult, AuthError}
use microservice_game_servic.Bus.Wire.{dispatch}
use microservice_game_servic.State.Manager.{Manager}
use microservice_game_servic.Ws.Conn.{Conn, conn_at, new_conn, close, set_user_id}
use microservice_game_servic.Ws.Hub.{Hub, register, register_locked, publish_kick_job, hub_handler}
use microservice_game_servic.Ws.Hub.Consistent.{Consistent}
use microservice_game_servic.Ws.Handshake.{
  Frame, check_handshake, handle_payload, do_handshake, serve_http,
}
use microservice_game_servic.Ws.Hub.Received.{dispatch_done}
use microservice_game_servic.Ws.Handshake.Served.{serve_http_done}
use microservice_game_servic.System.{add_conn, registers, enqueues, kicks, Reach, here}
use microservice_game_servic.System.Runs.{Reach-trans, hub_step, on_broadcast-Reach}

register-Reach :
    (r : ℕ) (h h' : Hub) (m : Manager)
    → r < length h.conns
    → register r h ≡ done h'
    → Reach (record { hub = h; manager = m }) (record { hub = h'; manager = m })
unfolding register
register-Reach r h h' m lt e =
    Reach-trans (hub_step (registers r h lt)) (
      hub_step (enqueues (publish_kick_job (conn_at r h.conns).user_id) (register_locked r h) h' e))

-- A connection that is on no map and has nothing to send.
abbrev Blank : Conn → Type 0
Blank c = (c.map_id ≡ []) × (c.queue ≡ [])

module _ (verify : Bytes → Bytes → ℤ → Result AuthError AuthResult) where
  check_handshake-Blank :
      (hs : Handshake) (acked : Bool) (c : Conn)
      → Blank c
      → Blank (check_handshake verify hs acked c).2
  unfolding check_handshake set_user_id
  check_handshake-Blank hs acked c b = elim (Bool-cases (nat_beq hs.protocol_version 1)) [
    | inr old ↦ rw (old, check_handshake) b
    | inl current ↦ elim (Result-cases (verify hs.token hs.game_session_id hs.user_id)) [
      | inl (f, failed) ↦ rw (current, failed, check_handshake) b
      | inr (a, verified) ↦ rw (current, verified, check_handshake) b
    ]
  ]

  handle_payload-Blank :
      (payload : Option Envelope) (acked : Bool) (c : Conn)
      → Blank c
      → Blank (handle_payload verify payload acked c).2
  handle_payload-Blank none acked c b = b
  handle_payload-Blank (some (handshake hs)) acked c b = check_handshake-Blank hs acked c b
  handle_payload-Blank (some empty) acked c b = b
  handle_payload-Blank (some (player_move m)) acked c b = b
  handle_payload-Blank (some handshake_ack) acked c b = b
  handle_payload-Blank (some (handshake_nack r)) acked c b = b
  handle_payload-Blank (some (player_sync p)) acked c b = b
  handle_payload-Blank (some (player_sync_batch ps)) acked c b = b

  module _ (unmarshal : Bytes → Option Envelope) where
    do_handshake-Blank :
        (frame : Option Frame) (acked : Bool)
        → Blank (do_handshake verify unmarshal frame acked new_conn).2
    unfolding do_handshake new_conn
    do_handshake-Blank none acked = (refl, refl)
    do_handshake-Blank (some frame) acked = by_kind frame.binary
      where
        by_kind :
            (binary : Bool)
            → Blank
                (do_handshake verify unmarshal
                  (some (record { binary = binary; content = frame.content }))
                  acked
                  new_conn).2
        by_kind true = handle_payload-Blank (unmarshal frame.content) acked new_conn (refl, refl)
        by_kind false = (refl, refl)

    -- A request for a WebSocket that does not panic, whatever its first frame, does nothing but
    -- the atomic steps of the instance.
    pub serve_http-Reach :
        (upgraded : Bool) (frame : Option Frame) (acked : Bool) (h h' : Hub) (m : Manager)
        → (serve_http verify unmarshal upgraded frame acked h).1 ≡ done h'
        → Reach (record { hub = h; manager = m }) (record { hub = h'; manager = m })
    unfolding close
    serve_http-Reach upgraded frame acked h h' m e =
        let c : Conn = (do_handshake verify unmarshal frame acked new_conn).2 in
        let blank : Blank c = do_handshake-Blank frame acked in
        elim (serve_http_done verify unmarshal upgraded frame acked h h' e) [
          | inl same ↦ rw (sym same) here
          | inr (inl failed) ↦ rw (sym failed) (hub_step (add_conn (close c) h blank.0 blank.1))
          | inr (inr registered) ↦ Reach-trans (hub_step (add_conn c h blank.0 blank.1)) (
              register-Reach (length h.conns) (record h { conns = h.conns ++ c ∷ [] }) h' m
                (omega (arith, length-append h.conns (c ∷ []))) registered)
        ]

module _ (parse_uuid : Bytes → Bytes) where
  -- Over a consistent hub, a payload that arrives from the bus and does not make `dispatch` panic,
  -- whatever its bytes, does nothing but the atomic steps of the instance.
  pub dispatch-Reach :
      (node_id payload : Bytes) (h h' : Hub) (m : Manager)
      → Consistent h
      → dispatch parse_uuid hub_handler node_id payload h ≡ done h'
      → Reach (record { hub = h; manager = m }) (record { hub = h'; manager = m })
  dispatch-Reach node_id payload h h' m c e =
      elim (dispatch_done parse_uuid node_id payload h h' e) [
        | inl same ↦ rw (sym same) here
        | inr (inl (k, message, u, sent)) ↦ on_broadcast-Reach k message u h h' m c sent
        | inr (inr (u, kicked)) ↦ rw (sym kicked) (hub_step (kicks u h))
      ]
