-- ===== src/Ws/Handshake/Admitted.antt =====
-- Who gets in: ServeHTTP of internal/transport/ws/server.go registers every client whose handshake
-- is in order.
use microservice_game_servic.Base.{
  ℕ, ◌≡◌, ◌≢◌, ap, ◌∙◌, Bool, true, false, List, [], ◌∷◌, ◌++◌, Bytes, Option, none, some, length,
  length-append, get_elem?_snoc, arith, done, Result,
}
use microservice_game_servic.Base.Int.{ℤ, int_comparable}
use microservice_game_servic.Base.Map.{lookup}
use microservice_game_servic.Protocol.{Handshake, Envelope, handshake, handshake_ack}
use microservice_game_servic.Auth
use microservice_game_servic.Auth.{
  AuthResult, AuthError, Token, SigningMethod, key_func, session_key,
}
use microservice_game_servic.Auth.Sessions.{Names, verify_accepts}
use microservice_game_servic.Ws.Conn.{Conn, new_conn, conn_at, set_user_id}
use microservice_game_servic.Ws.Hub.{Hub, PublishJob, publish_kick_job, register, register_locked}
use microservice_game_servic.Ws.Hub.Rooms.{in_room}
use microservice_game_servic.Ws.Hub.Consistent.{Consistent, append-Consistent, jobs-Consistent}
use microservice_game_servic.Ws.Hub.Packets.{enqueue_open}
use microservice_game_servic.Ws.Hub.Frames.{register_locked-SameChannel}
use microservice_game_servic.Ws.Hub.Registered.{lookup-register_locked, conn_at-register_locked}
use microservice_game_servic.Ws.Hub.Sessions.{register_locked-Consistent, register_locked_replaces}
use microservice_game_servic.Ws.Handshake.{Frame, do_handshake, check_handshake, serve_http}

-- The hub with one more connection.
abbrev joining : Conn → Hub → Hub
joining c h = record h { conns = h.conns ++ c ∷ [] }

conn_at-joining : (c : Conn) (h : Hub) → conn_at (length h.conns) (joining c h).conns ≡ c
unfolding conn_at
conn_at-joining c h = ground (arith, get_elem?_snoc h.conns (length h.conns) c)

-- What a registration that is not refused comes to.
register_open :
    (r : ℕ) (h : Hub)
    → h.publish_closed ≡ false
    → (jobs : List PublishJob) × (register r h
        ≡ done (record (register_locked r h) { publish_ch = jobs }))
unfolding register
register_open r h running =
    enqueue_open (publish_kick_job (conn_at r h.conns).user_id) (register_locked r h)
      (ap (λ x. x.publish_closed) (register_locked-SameChannel r h) ∙ running)

-- The state of the hub after user `u` has come in over a hub `h` in order.
pub record Admitted (u : ℤ) (h h' : Hub) : Type 0 where
  pub consistent : Consistent h'
  pub registered : lookup u h'.conns_by_user ≡ some (length h.conns)
  pub joined : conn_at (length h.conns) h'.conns ≡ set_user_id u new_conn
  pub replaced :
      (old : ℕ)
      → lookup u h.conns_by_user ≡ some old
      → ((conn_at old h'.conns).closed ≡ true) × ((k : Bytes) → in_room k old h' ≡ false)

register-Admitted :
    (u : ℤ) (h : Hub) (jobs : List PublishJob)
    → Consistent h
    → Admitted u h (record (register_locked (length h.conns) (joining (set_user_id u new_conn) h)) {
      publish_ch = jobs;
    })
unfolding set_user_id
register-Admitted u h jobs s =
    let c : Conn = set_user_id u new_conn in
    let r : ℕ = length h.conns in
    let g : Hub = joining c h in
    let t : Consistent g = append-Consistent h c s in
    let here : conn_at r g.conns ≡ c = conn_at-joining c h in
    let user : (conn_at r g.conns).user_id ≡ u = ap (λ d. d.user_id) here in
    let fresh = λ (old : ℕ) (e : lookup u h.conns_by_user ≡ some old). s.held u old e in
    let not_yet : lookup (conn_at r g.conns).user_id g.conns_by_user ≢ some r =
      λ e. absurd (omega (arith, fresh r (rw user at e))) in
    let replaces = λ (old : ℕ) (e : lookup u h.conns_by_user ≡ some old) (k : Bytes).
      register_locked_replaces r old g k t (ap (λ v. lookup v h.conns_by_user) user ∙ e)
        (λ x. absurd (omega (arith, fresh old e))) in
    record {
      consistent =
          jobs-Consistent (register_locked r g) jobs (register_locked r g).publish_closed
            (register_locked-Consistent r g t (omega (arith, length-append h.conns (c ∷ []))));
      registered = rw user at (lookup-register_locked r g);
      joined = conn_at-register_locked r g t not_yet ∙ here;
      replaced = λ old e. ((replaces old e []).1, λ k. (replaces old e k).2);
    }

serve_http_lem :
    (verify : Bytes → Bytes → ℤ → Result AuthError AuthResult) (unmarshal : Bytes → Option Envelope)
    (frame : Option Frame) (acked : Bool) (h : Hub) (replies : List Envelope) (c : Conn)
    → do_handshake verify unmarshal frame acked new_conn ≡ (replies, none, c)
    → serve_http verify unmarshal true frame acked h
      ≡ (replies, register (length h.conns) (joining c h))
unfolding serve_http
serve_http_lem verify unmarshal frame acked h replies c e = rw e (rw e)

module _ (parse : (SigningMethod → Option Bytes) → Bytes → Option Token) (to_int32 : ℕ → ℤ)
    (format_int : ℤ → Bytes) (get : Bytes → Option Bytes) (jwt_secret : Bytes)
    (unmarshal : Bytes → Option Envelope) where
  do_handshake_accepts :
      (frame : Frame) (hs : Handshake) (t : Token)
      → frame.binary ≡ true
      → unmarshal frame.content ≡ some (handshake hs)
      → hs.protocol_version ≡ 1
      → parse (key_func jwt_secret) hs.token ≡ some t
      → Names to_int32 hs.user_id t
      → get (session_key format_int hs.user_id) ≡ some hs.game_session_id
      → do_handshake
          (Auth.verify parse to_int32 format_int get jwt_secret)
          unmarshal
          (some frame)
          true
          new_conn
        ≡ (handshake_ack ∷ [], none, set_user_id hs.user_id new_conn)
  unfolding do_handshake check_handshake
  do_handshake_accepts frame hs t binary read version parsed names current =
      let (a, verified, own) =
        verify_accepts parse to_int32 format_int get jwt_secret hs.token hs.game_session_id
          hs.user_id t parsed names current in
      rw (binary, do_handshake) (rw read (rw (version, check_handshake) (rw verified (rw own))))

  -- Where the hub is consistent and not shut down and the write of the Ack succeeds: a client whose
  -- first frame is binary and holds a Handshake of version 1, with a token that is valid under the
  -- server's secret and names the user, and the session that Redis holds, gets the Ack alone and is
  -- registered with a new, open connection on no map. An earlier connection of the user is closed
  -- and in no room, and the hub stays consistent.
  pub serve_http-Admitted :
      (frame : Frame) (hs : Handshake) (t : Token) (h : Hub)
      → frame.binary ≡ true
      → unmarshal frame.content ≡ some (handshake hs)
      → hs.protocol_version ≡ 1
      → parse (key_func jwt_secret) hs.token ≡ some t
      → Names to_int32 hs.user_id t
      → get (session_key format_int hs.user_id) ≡ some hs.game_session_id
      → Consistent h
      → h.publish_closed ≡ false
      → (h' : Hub) × (serve_http
            (Auth.verify parse to_int32 format_int get jwt_secret)
            unmarshal
            true
            (some frame)
            true
            h
          ≡ (handshake_ack ∷ [], done h'))
        × Admitted hs.user_id h h'
  serve_http-Admitted frame hs t h binary read version parsed names current s running =
      let c : Conn = set_user_id hs.user_id new_conn in
      let (jobs, registered) = register_open (length h.conns) (joining c h) running in
      (
        record (register_locked (length h.conns) (joining c h)) { publish_ch = jobs },
        serve_http_lem _ unmarshal (some frame) true h (handshake_ack ∷ []) c
              (do_handshake_accepts frame hs t binary read version parsed names current)
            ∙ ap (λ o. (handshake_ack ∷ [], o)) registered,
        register-Admitted hs.user_id h jobs s,
      )
