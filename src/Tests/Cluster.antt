-- ===== src/Tests/Cluster.antt =====
-- Two instances at sample data.
use mathlib.Core.List.{Memᴰ}
use microservice_game_servic.Base.{
  ℕ, ◌≡◌, refl, List, [], ◌∷◌, map, Bytes, Option, none, some, done, length, arith,
  bytes_comparable, if◌then◌else◌,
}
use microservice_game_servic.Base.Int.{pos, int_comparable}
use microservice_game_servic.Base.Map.{lookup, insert}
use microservice_game_servic.Ws.Conn.{conn_at, send_all}
use microservice_game_servic.Ws.Conn.Sends.{sent, AllOpen}
use microservice_game_servic.Ws.Hub.{
  Hub, register, register_locked, enqueue, publish_kick_job, publish_broadcast_job, publish_job,
  publish_worker, receivers, on_broadcast, broadcast_to_map_exclude_user, add_to_room_locked,
}
use microservice_game_servic.Ws.Hub.Broadcasts.{receives}
use microservice_game_servic.Protocol.{Envelope, PlayerSync, player_sync_batch}
use microservice_game_servic.Player.Service.{PlayerMoveWithId}
use microservice_game_servic.State.Manager.{
  new_manager, create_map, get_or_create_map, update_at, write_at, all_maps,
}
use microservice_game_servic.State.Manager.Spec.{move_player}
use microservice_game_servic.Bus.Wire.{Message, dispatch}
use microservice_game_servic.Ws.Hub.{hub_handler}
use microservice_game_servic.Ws.Handler.{Game, handle_player_move, current_map}
use microservice_game_servic.Loop.Ticker.{Ticker, new_ticker, sync_at, tick}
use microservice_game_servic.Loop.Ticker.EndToEnd.{moved}
use microservice_game_servic.Cluster.Ticked.{dispatch-handle_player_move}
use microservice_game_servic.Cluster.{relay, publish_rounds}
use microservice_game_servic.Cluster.Drained.{publish_rounds_lem}
use microservice_game_servic.Cluster.Relayed.{relay-broadcast_to_map_exclude_user}
use microservice_game_servic.Cluster.Logins.{Ready, Gone, relay-register, relay-register_both}
use microservice_game_servic.Tests.Bus.{parse_id, length-parse_id, ids_differ}
use microservice_game_servic.Tests.Samples.{
  map_a, idle, idle-Consistent, registered, in_a, in_a-Consistent, in_a_open, playing,
  playing-InOrder, sample_move,
}

-- A hub with two jobs that wait.
abbrev waiting : Hub
waiting = record in_a {
  publish_ch = publish_broadcast_job map_a (9 ∷ []) (pos 0) ∷ publish_kick_job (pos 5) ∷ [];
}

publish_rounds_lem_test :
    (publish_rounds parse_id (length waiting.publish_ch) (1 ∷ []) waiting ≡ (
      map (publish_job parse_id (1 ∷ [])) waiting.publish_ch,
      record waiting { publish_ch = [] },
    ))
    × (publish_worker parse_id
          (1 ∷ [])
          (publish_rounds parse_id (length waiting.publish_ch) (1 ∷ []) waiting).1
        ≡ none)
publish_rounds_lem_test = publish_rounds_lem parse_id (1 ∷ []) waiting

-- Nobody is on the map "a" at the first instance, and players 5 and 7 are at the other.
abbrev sending : Hub
sending = record registered { publish_ch = publish_broadcast_job map_a (9 ∷ []) (pos 0) ∷ [] }

sending_lem : broadcast_to_map_exclude_user map_a (9 ∷ []) (pos 0) registered ≡ done sending
unfolding broadcast_to_map_exclude_user on_broadcast receivers send_all enqueue lookup
sending_lem = refl

in_a-receivers_open : AllOpen in_a.conns (receivers map_a (pos 0) in_a)
unfolding receivers conn_at lookup
in_a-receivers_open = (refl, (refl, tt))

relay-broadcast_to_map_exclude_user_test :
    (a'' : Hub) × (b' : Hub) × (relay parse_id (2 ∷ []) (1 ∷ []) sending in_a ≡ done (a'', b'))
    × (a''.publish_ch ≡ [])
    × ((q : ℕ)
        → conn_at q b'.conns ≡ (
            if receives map_a (pos 0) q in_a
            then sent (9 ∷ []) (conn_at q in_a.conns)
            else conn_at q in_a.conns))
relay-broadcast_to_map_exclude_user_test =
    relay-broadcast_to_map_exclude_user parse_id length-parse_id (2 ∷ []) (1 ∷ []) ids_differ map_a
      (9 ∷ []) (pos 0) registered sending in_a (omega arith) (omega arith) refl refl sending_lem
      in_a-Consistent in_a-receivers_open

-- Player 5 registers with connection 0 of an instance where nobody is.
abbrev first_login : Hub
first_login = record (register_locked 0 idle) { publish_ch = publish_kick_job (pos 5) ∷ [] }

first_login_lem : register 0 idle ≡ done first_login
unfolding register register_locked enqueue conn_at lookup insert add_to_room_locked
first_login_lem = refl

idle-Ready : Ready (pos 5) 0 idle
unfolding conn_at
idle-Ready = record {
  consistent = idle-Consistent;
  known = omega arith;
  own = refl;
  bus = refl;
  no_jobs = refl;
}

relay-register_example :
    (a'' : Hub) × (b' : Hub) × (relay parse_id (2 ∷ []) (1 ∷ []) first_login in_a ≡ done (a'', b'))
    × (lookup (pos 5) a''.conns_by_user ≡ some 0)
    × Gone (pos 5) 0 b'
unfolding lookup
relay-register_example =
    relay-register parse_id length-parse_id (2 ∷ []) (1 ∷ []) (pos 5) 0 0 idle first_login in_a
      ids_differ (omega arith) idle-Ready first_login_lem in_a-Consistent refl

relay-register_both_example :
    (a1 : Hub) × (b1 : Hub) × (a2 : Hub) × (b2 : Hub) × (relay parse_id
        (2 ∷ [])
        (1 ∷ [])
        first_login
        first_login
      ≡ done (a1, b1))
    × (relay parse_id (1 ∷ []) (2 ∷ []) b1 a1 ≡ done (b2, a2))
    × Gone (pos 5) 0 a2
    × Gone (pos 5) 0 b2
relay-register_both_example =
    relay-register_both parse_id length-parse_id (2 ∷ []) (1 ∷ []) (pos 5) 0 0 idle first_login idle
      first_login ids_differ (omega arith) idle-Ready idle-Ready first_login_lem first_login_lem

-- Player 5 moves on the map "a" at one instance, and players 5 and 7 are on it at the other.
abbrev after_move : Game
after_move = handle_player_move 101 0 sample_move playing

maps-after_move : length (all_maps after_move.manager) ≡ 1
unfolding handle_player_move current_map conn_at move_player get_or_create_map create_map update_at
    write_at new_manager lookup insert all_maps
maps-after_move = refl

encode : Envelope → Bytes
encode (player_sync_batch ps) = 34 ∷ length ps ∷ []
encode e = []

abbrev clock : ℕ → ℕ
clock r = 101

dispatch-handle_player_move_example :
    (moves : Option (List PlayerMoveWithId)) × (t' : Ticker) × (g' : Game) × (at : ℕ)
    × (batch : List PlayerSync) × (message : Message) × (b' : Hub) × (tick
          (λ e. some (encode e))
          50000000
          clock
          50000001
          (new_ticker (pos 50000000) 0)
          after_move
        ≡ done (moves, t', g'))
    × Memᴰ message (publish_rounds parse_id (length g'.hub.publish_ch) (2 ∷ []) g'.hub).0
    × Memᴰ (sync_at (clock at) (moved 101 0 sample_move playing)) batch
    × (dispatch parse_id hub_handler (1 ∷ []) message.payload in_a ≡ done b')
    × ((q : ℕ)
        → conn_at q b'.conns ≡ (
            if receives map_a (pos 0) q in_a
            then sent (encode (player_sync_batch batch)) (conn_at q in_a.conns)
            else conn_at q in_a.conns))
unfolding handle_player_move current_map conn_at
dispatch-handle_player_move_example =
    dispatch-handle_player_move parse_id length-parse_id encode (2 ∷ []) (1 ∷ []) 101 0 sample_move
      50000000 clock 50000001 (new_ticker (pos 50000000) 0) playing in_a ids_differ (omega arith)
      playing-InOrder refl refl in_a_open (omega (arith, maps-after_move)) in_a-Consistent
      in_a-receivers_open
