-- ===== src/Tests/Limits.antt =====
-- An instance whose calls stay within the read limit, at sample data.
use microservice_game_servic.Base.{
  ℕ, ◌≤◌, ◌≡◌, ◌≢◌, refl, true, [], ◌∷◌, List, Bytes, Option, none, some, done, panic, slice_bounds,
  ok, length, arith, ap, bytes_comparable,
}
use microservice_game_servic.Base.Int.{pos, int_comparable}
use microservice_game_servic.Base.Map.{lookup, insert, erase}
use microservice_game_servic.Protocol.{Envelope, Handshake, handshake, player_move}
use microservice_game_servic.Bus.Wire.{Message, dispatch}
use microservice_game_servic.State.Manager.{
  map_at, new_manager, create_map, get_or_create_map, update_at, write_at, all_maps,
}
use microservice_game_servic.Player.Service.{PlayerMoveWithId}
use microservice_game_servic.State.PlayerState.{apply_move, new_player, to_move, to_sync}
use microservice_game_servic.State.MapState.{
  collect_dirty, collect_loop, collect_both_loop, collect_dirty_both, update_from_move, entry,
  new_map_state,
}
use microservice_game_servic.Ws.Conn.{
  conn_at, set_user_id, set_map_id, new_conn, close, send, send_all, write_conn,
}
use microservice_game_servic.Ws.Hub.{
  Hub, PublishJob, new_hub, register, register_locked, enqueue, publish_worker, publish_job,
  publish_kick_job, hub_handler, add_to_room_locked, remove_from_room_locked, move_to_room,
  broadcast_to_map, broadcast_to_map_exclude_user, on_broadcast, receivers, publish_broadcast_job,
}
use microservice_game_servic.Ws.Handler.{Game, handle, handle_player_move, switch_map}
use microservice_game_servic.Loop.Ticker.{
  Ticker, Event, ticked, run, tick, tick_maps, tick_map, collect_at,
}
use microservice_game_servic.Ws.Handshake.{serve_http, do_handshake, check_handshake}
use microservice_game_servic.Ws.Loops.{
  Incoming, binary_frame, text_frame, read_loop, max_message_size,
}
use microservice_game_servic.System.{start_game}
use microservice_game_servic.System.Calls.{Libraries, requests, reads, ticks}
use microservice_game_servic.System.Limits.{NamesWithin, WithinLimit}
use microservice_game_servic.System.Limits.Served.{Calls, no_call, and_then, then_published}
use microservice_game_servic.System.Limits.Decoded.{dispatch-publish_worker}
use microservice_game_servic.Tests.Bus.{parse_id, length-parse_id}
use microservice_game_servic.Tests.System.{done_or, sample_ticker}
use microservice_game_servic.Tests.Samples.{map_a, sample_move, conn_of, in_a}

abbrev hello : Handshake
hello = record { protocol_version = 1; user_id = pos 5; token = []; game_session_id = [] }

-- A message of one byte is a handshake, and a longer one a move on the map "a".
abbrev read_message : Bytes → Option Envelope
read_message [] = none
read_message (b ∷ []) = some (handshake hello)
read_message (b ∷ c ∷ rest) = some (player_move sample_move)

abbrev map_of : Option Envelope → Bytes
map_of (some (player_move move)) = move.map_id
map_of _ = []

read_message-NamesWithin : NamesWithin read_message
read_message-NamesWithin [] move e = cc
read_message-NamesWithin (b ∷ []) move e = omega (arith, ap length (ap map_of e))
read_message-NamesWithin (b ∷ c ∷ rest) move e = omega (arith, ap length (ap map_of e))

abbrev libraries : Libraries
libraries = record {
  marshal = λ e. some (9 ∷ []);
  unmarshal = read_message;
  verify = λ token session_id user_id. ok (record { user_id = user_id; role = [] });
  parse_uuid = parse_id;
  unmarshal_json = λ message. none;
}

-- Player 5 comes in and moves.
abbrev kicking : Hub
kicking = record (register_locked 0 (record (new_hub true) { conns = conn_of (pos 5) ∷ [] })) {
  publish_ch = publish_kick_job (pos 5) ∷ [];
}

abbrev came_in : Game
came_in = record (start_game true) { hub = kicking }

frames_in : List Incoming
frames_in = text_frame ∷ binary_frame 101 (1 ∷ 2 ∷ []) ∷ []

abbrev moved : Game
moved = read_loop read_message 0 frames_in came_in

came_in_lem :
    (serve_http libraries.verify read_message true
      (some (record { binary = true; content = 1 ∷ [] }))
      true
      (new_hub true)).1
    ≡ done kicking
unfolding serve_http do_handshake check_handshake new_hub register register_locked enqueue conn_at
    set_user_id new_conn lookup insert add_to_room_locked
came_in_lem = refl

frames_in-WithinLimit : WithinLimit frames_in
unfolding frames_in
frames_in-WithinLimit = omega arith

moved-Calls : Calls libraries (start_game true) moved
unfolding start_game register_locked new_hub add_to_room_locked conn_at lookup
moved-Calls =
    and_then
      (and_then no_call
        (requests true (some (record { binary = true; content = 1 ∷ [] })) true (new_hub true)
          kicking new_manager came_in_lem)
        tt)
      (reads 0 frames_in came_in (omega arith)) frames_in-WithinLimit

-- The next tick queues the news of the map "a" behind the kick.
abbrev one_tick : List Event
one_tick = ticked 50000000 (λ r. 102) 50000001 ∷ []

abbrev ticked_game : List (List PlayerMoveWithId) × Ticker × Game
ticked_game =
    done_or ([], sample_ticker, moved) (run libraries.marshal one_tick sample_ticker moved)

abbrev both_jobs : List PublishJob
both_jobs = publish_kick_job (pos 5) ∷ publish_broadcast_job map_a (9 ∷ []) (pos 0) ∷ []

ticked_game_lem :
    (run libraries.marshal one_tick sample_ticker moved ≡ done ticked_game)
    × (ticked_game.2.hub.publish_ch ≡ both_jobs)
unfolding run tick tick_maps tick_map collect_at all_maps update_at write_at map_at
    get_or_create_map lookup new_manager create_map insert erase collect_dirty collect_loop
    collect_both_loop collect_dirty_both update_from_move entry new_map_state apply_move new_player
    to_move to_sync close conn_at new_conn send send_all write_conn broadcast_to_map
    broadcast_to_map_exclude_user enqueue on_broadcast receivers done_or frames_in read_loop handle
    handle_player_move switch_map move_to_room add_to_room_locked remove_from_room_locked start_game
    register_locked new_hub set_map_id
ticked_game_lem = (refl, refl)

-- A worker publishes the kick.
abbrev published : Hub
published = record ticked_game.2.hub {
  publish_ch = publish_broadcast_job map_a (9 ∷ []) (pos 0) ∷ [];
}

abbrev news : Message
news = publish_job parse_id (2 ∷ []) (publish_broadcast_job map_a (9 ∷ []) (pos 0))

publish_first :
    (h : Hub) (job : PublishJob) (rest : List PublishJob)
    → h.publish_ch ≡ job ∷ rest
    → publish_worker parse_id (2 ∷ []) h
      ≡ some (publish_job parse_id (2 ∷ []) job, record h { publish_ch = rest })
unfolding publish_worker
publish_first h job rest e = rw (e, publish_worker)

kick_published :
    publish_worker parse_id (2 ∷ []) ticked_game.2.hub
    ≡ some (publish_job parse_id (2 ∷ []) (publish_kick_job (pos 5)), published)
kick_published = publish_first ticked_game.2.hub _ _ (ticked_game_lem.1)

news_sent :
    publish_worker parse_id (2 ∷ []) published ≡ some (news, record published { publish_ch = [] })
unfolding publish_worker
news_sent = refl

dispatch-publish_worker_example :
    (dispatch parse_id hub_handler (1 ∷ []) news.payload in_a ≢ panic slice_bounds)
    × ((r : ℕ) → length (map_at r ticked_game.2.manager).map_id ≤ max_message_size)
dispatch-publish_worker_example =
    dispatch-publish_worker libraries true (record ticked_game.2 { hub = published }) (2 ∷ [])
      (1 ∷ []) news (record published { publish_ch = [] }) in_a read_message-NamesWithin
      length-parse_id
      (then_published (2 ∷ []) (publish_job parse_id (2 ∷ []) (publish_kick_job (pos 5)))
        (and_then moved-Calls
          (ticks one_tick sample_ticker ticked_game.1 moved ticked_game.2 ticked_game.0
            ticked_game_lem.0)
          tt)
        kick_published)
      news_sent
