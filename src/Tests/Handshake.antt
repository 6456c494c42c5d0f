-- ===== src/Tests/Handshake.antt =====
-- A handshake at sample data.
use microservice_game_servic.Base.{
  ℕ, ◌≡◌, refl, true, [], ◌∷◌, Bytes, Option, none, some, ascii, done, ◌++◌, bytes_comparable,
}
use microservice_game_servic.Base.Int.{ℤ, pos, int_comparable}
use microservice_game_servic.Protocol.{Handshake, Envelope, handshake, handshake_ack}
use microservice_game_servic.Auth.{
  Token, SigningMethod, hmac, key_func, session_key, verify, verify_session,
}
use microservice_game_servic.Auth.Sessions.{Names}
use microservice_game_servic.Base.Map.{lookup, insert}
use microservice_game_servic.Ws.Conn.{set_user_id, new_conn, conn_at, write_conn, close}
use microservice_game_servic.Ws.Hub.{
  Hub, register, register_locked, enqueue, publish_kick_job, add_to_room_locked,
  remove_from_room_locked, close_conn,
}
use microservice_game_servic.Ws.Handshake.{do_handshake, check_handshake, serve_http}
use microservice_game_servic.Ws.Handshake.Accepted.{do_handshake_accepted}
use microservice_game_servic.Ws.Handshake.Admitted.{Admitted, serve_http-Admitted}
use microservice_game_servic.Tests.Samples.{conn_of, in_a, in_a-Consistent}

abbrev pub sample_token : Token
sample_token = record { valid = true; claims = some (record { user_id = some 5; role = none }) }

-- A token is accepted if there is a key for its method.
unfoldable pub parse_token : (SigningMethod → Option Bytes) → Bytes → Option Token
parse_token keys token = elim (keys hmac) [ none ↦ none | some _ ↦ some sample_token ]

abbrev pub to_int : ℕ → ℤ
to_int n = pos n

abbrev pub format_five : ℤ → Bytes
format_five u = ascii "5"

abbrev pub get_session : Bytes → Option Bytes
get_session key = some (ascii "session")

abbrev pub sample_handshake : Handshake
sample_handshake = record {
  protocol_version = 1;
  user_id = pos 5;
  token = ascii "token";
  game_session_id = ascii "session";
}

abbrev pub read_handshake : Bytes → Option Envelope
read_handshake content = some (handshake sample_handshake)

do_handshake_accepted_example :
    (hs : Handshake) × (t : Token) × (true ≡ true)
    × (read_handshake [] ≡ some (handshake hs))
    × (hs.protocol_version ≡ 1)
    × (parse_token (key_func (ascii "secret")) hs.token ≡ some t)
    × Names to_int hs.user_id t
    × (get_session (session_key format_five hs.user_id) ≡ some hs.game_session_id)
    × (handshake_ack ∷ [] ≡ handshake_ack ∷ [])
    × (set_user_id (pos 5) (conn_of (pos 0)) ≡ set_user_id hs.user_id (conn_of (pos 0)))
unfolding do_handshake check_handshake verify verify_session parse_token key_func session_key
do_handshake_accepted_example =
    do_handshake_accepted parse_token to_int format_five get_session (ascii "secret") read_handshake
      (record { binary = true; content = [] }) true (conn_of (pos 0))
      (set_user_id (pos 5) (conn_of (pos 0))) (handshake_ack ∷ []) refl

-- Player 5 connects again: connection 3.
abbrev rejoining : Hub
rejoining = record in_a { conns = in_a.conns ++ conn_of (pos 5) ∷ [] }

abbrev rejoined : Hub
rejoined = record (register_locked 3 rejoining) { publish_ch = publish_kick_job (pos 5) ∷ [] }

rejoin :
    (serve_http
      (verify parse_token to_int format_five get_session (ascii "secret"))
      read_handshake
      true
      (some (record { binary = true; content = [] }))
      true
      in_a).1
    ≡ done rejoined
unfolding serve_http do_handshake check_handshake verify verify_session parse_token key_func
    session_key register register_locked enqueue new_conn set_user_id conn_at lookup insert
    add_to_room_locked remove_from_room_locked close_conn close write_conn
rejoin = refl

five_named : Names to_int (pos 5) sample_token
five_named = record { valid = refl; claimed = (_, 5, refl, refl, refl) }

-- Player 5, who is on the map "a", connects again.
serve_http-Admitted_example :
    (h' : Hub) × (serve_http
        (verify parse_token to_int format_five get_session (ascii "secret"))
        read_handshake
        true
        (some (record { binary = true; content = [] }))
        true
        in_a
      ≡ (handshake_ack ∷ [], done h'))
    × Admitted (pos 5) in_a h'
unfolding parse_token key_func
serve_http-Admitted_example =
    serve_http-Admitted parse_token to_int format_five get_session (ascii "secret") read_handshake
      (record { binary = true; content = [] }) sample_handshake sample_token in_a refl refl refl
      refl five_named refl in_a-Consistent refl
