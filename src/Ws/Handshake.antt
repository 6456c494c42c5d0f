-- ===== src/Ws/Handshake.antt =====
-- Server of internal/transport/ws/server.go: the handshake of a new connection. `unmarshal` stands
-- for proto.Unmarshal and `verify` for Authenticator.Verify with the server's secret and Redis.
-- The deadlines and the timeouts are left out: a read or a check that runs out fails.
pub mod Accepted
pub mod Served
pub mod Admitted
use microservice_game_servic.Base.{
  ℕ, Bool, not, List, [], ◌∷◌, ◌++◌, Bytes, Option, none, some, length, nat_beq, if◌then◌else◌,
  Result, ok, err, Outcome, done,
}
use microservice_game_servic.Base.Int.{ℤ}
use microservice_game_servic.Protocol.{
  NackReason, version, auth, session, internal, Handshake, Envelope, handshake, player_move, empty,
  handshake_ack, handshake_nack, player_sync, player_sync_batch,
}
use microservice_game_servic.Auth.{
  AuthResult, AuthError, invalid_token, invalid_session, user_id_mismatch,
}
use microservice_game_servic.Ws.Conn.{Conn, new_conn, close, set_user_id, write_conn}
use microservice_game_servic.Ws.Hub.{Hub, register}

pub data HandshakeError : Type 0 where
  read_failed bad_handshake unmarshal_failed ack_failed : HandshakeError
  auth_failed : AuthError → HandshakeError

-- The first frame of a connection: is it binary, and its bytes.
pub record Frame : Type 0 where
  pub binary : Bool
  pub content : Bytes

abbrev protocol_version : ℕ
protocol_version = 1

abbrev pub auth_nack : AuthError → NackReason
auth_nack invalid_token = auth
auth_nack user_id_mismatch = auth
auth_nack invalid_session = session

abbrev pub send_nack : NackReason → List Envelope
send_nack reason = handshake_nack reason ∷ []

abbrev pub send_ack : List Envelope
send_ack = handshake_ack ∷ []

-- What a handshake comes to: the messages written, the error if there is one, the connection.
abbrev pub Reply : Type 0
Reply = List Envelope × Option HandshakeError × Conn

module _ (verify : Bytes → Bytes → ℤ → Result AuthError AuthResult) where
  -- From the check of the version on; `acked` says whether the write of the Ack succeeds.
  unfoldable pub check_handshake : Handshake → Bool → Conn → Reply
  check_handshake hs acked c =
      if not (nat_beq hs.protocol_version protocol_version)
      then (send_nack version, some bad_handshake, c)
      else (elim (verify hs.token hs.game_session_id hs.user_id) [
        | err e ↦ (send_nack (auth_nack e), some (auth_failed e), c)
        | ok a ↦ (send_ack, if acked then none else some ack_failed, set_user_id a.user_id c)
      ])

  abbrev pub handle_payload : Option Envelope → Bool → Conn → Reply
  handle_payload none acked c = (send_nack internal, some unmarshal_failed, c)
  handle_payload (some (handshake hs)) acked c = check_handshake hs acked c
  handle_payload (some _) acked c = (send_nack internal, some bad_handshake, c)

  module _ (unmarshal : Bytes → Option Envelope) where
    -- `none` is a read that fails.
    unfoldable pub do_handshake : Option Frame → Bool → Conn → Reply
    do_handshake none acked c = ([], some read_failed, c)
    do_handshake (some frame) acked c =
        if not frame.binary
        then (send_nack internal, some bad_handshake, c)
        else handle_payload (unmarshal frame.content) acked c

    -- ServeHTTP up to the two loops of the connection, which gets the next place of the heap.
    unfoldable pub serve_http : Bool → Option Frame → Bool → Hub → List Envelope × Outcome Hub
    serve_http upgraded frame acked h =
        if not upgraded
        then ([], done h)
        else (let r = length h.conns in
            let (replies, failure, c) = do_handshake frame acked new_conn in
            elim failure [
              | some _ ↦ (replies, done (record h { conns = h.conns ++ close c ∷ [] }))
              | none ↦ (replies, register r (record h { conns = h.conns ++ c ∷ [] }))
            ])
