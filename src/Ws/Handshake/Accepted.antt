-- ===== src/Ws/Handshake/Accepted.antt =====
-- Which connections the server lets in, and what it answers to the others.
use microservice_game_servic.Base.{
  ℕ, Bool, true, ◌≡◌, ◌≢◌, refl, sym, ap, ◌∙◌, List, [], ◌∷◌, Bytes, Option, none, some, nat_beq,
  nat_beq_iff, if◌then◌else◌, Result, Result-cases, ok, Bool-cases, inl, inr,
}
use microservice_game_servic.Base.Int.{ℤ}
use microservice_game_servic.Protocol.{
  version, internal, Handshake, Envelope, empty, handshake, player_move, handshake_ack,
  handshake_nack, player_sync, player_sync_batch,
}
use microservice_game_servic.Auth.{
  AuthResult, AuthError, SigningMethod, Token, session_key, key_func,
}
use microservice_game_servic.Auth
use microservice_game_servic.Auth.Sessions.{Names, verify_ok}
use microservice_game_servic.Ws.Conn.{Conn, set_user_id}
use microservice_game_servic.Ws.Handshake.{
  HandshakeError, bad_handshake, unmarshal_failed, ack_failed, auth_failed, Frame, Reply,
  check_handshake, handle_payload, do_handshake, send_nack, auth_nack,
}

-- An answer with an error is no acceptance.
refused :
    (f : HandshakeError) (o : List Envelope) (c : Conn) (replies : List Envelope) (c' : Conn)
    → ◌≢◌ {A = Reply} (o, some f, c) (replies, none, c')
refused f o c replies c' e = let clash : some f ≡ none = ap (λ (r : Reply). r.1) e in cc

module _ (verify : Bytes → Bytes → ℤ → Result AuthError AuthResult) where
  check_accepted :
      (hs : Handshake) (acked : Bool) (c c' : Conn) (replies : List Envelope)
      → check_handshake verify hs acked c ≡ (replies, none, c')
      → (hs.protocol_version ≡ 1)
        × (a : AuthResult) × (verify hs.token hs.game_session_id hs.user_id ≡ ok a)
        × (replies ≡ handshake_ack ∷ [])
        × (c' ≡ set_user_id a.user_id c)
  unfolding check_handshake
  check_accepted hs acked c c' replies e = elim (Bool-cases (nat_beq hs.protocol_version 1)) [
    | inr old ↦
        absurd
          (refused bad_handshake (send_nack version) c replies c' (rw (old, check_handshake) at e))
    | inl current ↦ elim (Result-cases (verify hs.token hs.game_session_id hs.user_id)) [
      | inl (f, failed) ↦ absurd (
          refused (auth_failed f) (send_nack (auth_nack f)) c replies c'
            (rw (current, failed, check_handshake) at e))
      | inr (a, verified) ↦
          let answered : (
            handshake_ack ∷ [],
            if acked then none else some ack_failed,
            set_user_id a.user_id c,
          )
              ≡ (replies, none, c') =
            rw (current, verified, check_handshake) at e in
          (
            (nat_beq_iff hs.protocol_version 1).0 current,
            a,
            verified,
            sym (ap (λ (o : Reply). o.0) answered),
            sym (ap (λ (o : Reply). o.2) answered),
          )
    ]
  ]

  payload_accepted :
      (payload : Option Envelope) (acked : Bool) (c c' : Conn) (replies : List Envelope)
      → handle_payload verify payload acked c ≡ (replies, none, c')
      → (hs : Handshake) × (payload ≡ some (handshake hs))
        × (check_handshake verify hs acked c ≡ (replies, none, c'))
  payload_accepted none acked c c' replies e = absurd (refused unmarshal_failed _ c replies c' e)
  payload_accepted (some (handshake hs)) acked c c' replies e = (hs, refl, e)
  payload_accepted (some empty) acked c c' replies e =
      absurd (refused bad_handshake _ c replies c' e)
  payload_accepted (some (player_move m)) acked c c' replies e =
      absurd (refused bad_handshake _ c replies c' e)
  payload_accepted (some handshake_ack) acked c c' replies e =
      absurd (refused bad_handshake _ c replies c' e)
  payload_accepted (some (handshake_nack r)) acked c c' replies e =
      absurd (refused bad_handshake _ c replies c' e)
  payload_accepted (some (player_sync p)) acked c c' replies e =
      absurd (refused bad_handshake _ c replies c' e)
  payload_accepted (some (player_sync_batch ps)) acked c c' replies e =
      absurd (refused bad_handshake _ c replies c' e)

module _ (parse : (SigningMethod → Option Bytes) → Bytes → Option Token) (to_int32 : ℕ → ℤ)
    (format_int : ℤ → Bytes) (get : Bytes → Option Bytes) (jwt_secret : Bytes)
    (unmarshal : Bytes → Option Envelope) where
  -- A handshake without an error came in a binary frame that holds a Handshake of version 1,
  -- whose token is valid under the server's secret and names the user that the message names, and
  -- whose session is the one that Redis holds for that user. The client gets the Ack alone, and
  -- the connection bears that user's id.
  pub do_handshake_accepted :
      (frame : Frame) (acked : Bool) (c c' : Conn) (replies : List Envelope)
      → do_handshake
          (Auth.verify parse to_int32 format_int get jwt_secret)
          unmarshal
          (some frame)
          acked
          c
        ≡ (replies, none, c')
      → (hs : Handshake) × (t : Token) × (frame.binary ≡ true)
        × (unmarshal frame.content ≡ some (handshake hs))
        × (hs.protocol_version ≡ 1)
        × (parse (key_func jwt_secret) hs.token ≡ some t)
        × Names to_int32 hs.user_id t
        × (get (session_key format_int hs.user_id) ≡ some hs.game_session_id)
        × (replies ≡ handshake_ack ∷ [])
        × (c' ≡ set_user_id hs.user_id c)
  unfolding do_handshake
  do_handshake_accepted frame acked c c' replies e = elim (Bool-cases frame.binary) [
    | inr textual ↦
        absurd (
          refused bad_handshake (send_nack internal) c replies c' (rw (textual, do_handshake) at e))
    | inl binary ↦
        let verify : Bytes → Bytes → ℤ → Result AuthError AuthResult =
          Auth.verify parse to_int32 format_int get jwt_secret in
        let (hs, read, checked) =
          payload_accepted verify (unmarshal frame.content) acked c c' replies
            (rw (binary, do_handshake) at e) in
        let (current, a, verified, answered, named) =
          check_accepted verify hs acked c c' replies checked in
        let (t, parsed, names, session, own) =
          verify_ok parse to_int32 format_int get jwt_secret hs.token hs.game_session_id hs.user_id
            a verified in
        (
          hs,
          t,
          binary,
          read,
          current,
          parsed,
          names,
          session,
          answered,
          named ∙ ap (λ u. set_user_id u c) own,
        )
  ]
