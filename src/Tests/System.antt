-- ===== src/Tests/System.antt =====
-- Runs of an instance, and of two instances, at sample data.
use microservice_game_servic.Base.{
  ℕ, zero, suc, ◌≡◌, refl, true, [], ◌∷◌, List, err, Bytes, Option, none, some, Outcome, done,
  panic, send_on_closed, arith, bytes_comparable,
}
use microservice_game_servic.Base.Int.{pos, int_comparable}
use microservice_game_servic.Base.Map.{lookup, insert}
use microservice_game_servic.Protocol.{Envelope, player_move}
use microservice_game_servic.Player.Service.{PlayerMoveWithId}
use microservice_game_servic.Loop.Ticker.{
  Ticker, Event, ticked, stopped, run, tick, tick_maps, tick_map, collect_at,
}
use microservice_game_servic.State.MapState.{
  collect_dirty, collect_loop, collect_both_loop, collect_dirty_both, update_from_move, entry,
  new_map_state,
}
use microservice_game_servic.State.PlayerState.{apply_move, new_player, to_move, to_sync}
use microservice_game_servic.State.Manager.Spec.{move_player}
use microservice_game_servic.State.Manager.{
  new_manager, create_map, get_or_create_map, update_at, all_maps, map_at, write_at,
}
use microservice_game_servic.Ws.Conn.{conn_at, write_conn, close, new_conn, send, send_all}
use microservice_game_servic.Ws.Hub.{
  new_hub, register_locked, close_conn, enqueue, broadcast_to_map, broadcast_to_map_exclude_user,
  on_broadcast, receivers,
}
use microservice_game_servic.Ws.Handler.{Game}
use microservice_game_servic.System.{
  add_conn, registers, closes, creates, in_hub, in_manager, Reach, here, later, start_game,
}
use microservice_game_servic.System.Healthy.{Healthy, Reach-Healthy}
use microservice_game_servic.System.Monotone.{Ages, Reach-Ages}
use microservice_game_servic.Auth.{invalid_token}
use microservice_game_servic.System.Disconnects.{send_all-end_read}
use microservice_game_servic.Ws.Loops.{end_read}
use microservice_game_servic.System.Kicked.{on_broadcast-handle_player_move}
use microservice_game_servic.Ws.Handler.{handle_player_move}
use microservice_game_servic.Ws.Hub.Rooms.{in_room}
use microservice_game_servic.Ws.Hub.{Hub, on_kick_user}
use microservice_game_servic.System.Calls.{Libraries, ticks, Call-Reach}
use microservice_game_servic.Tests.Samples.{
  map_b, playing-InOrder, map_a, sample_move, conn_of, in_a, in_a-Consistent, playing,
  one_player-IsSound,
}

-- Player 5 connects and is registered, while another goroutine creates the map "a".
abbrev pub joined : Game
joined = record {
  hub = register_locked 0 (record (new_hub true) { conns = conn_of (pos 5) ∷ [] });
  manager = (create_map map_a new_manager).1;
}

pub join_run : Reach (start_game true) joined
unfolding start_game new_hub
join_run =
    later
      (later (later here (in_hub (add_conn (conn_of (pos 5)) (new_hub true) refl refl)))
        (in_manager (creates map_a new_manager)))
      (in_hub (registers 0 (record (new_hub true) { conns = conn_of (pos 5) ∷ [] }) (omega arith)))

Reach-Healthy_example : Healthy joined
Reach-Healthy_example = Reach-Healthy true joined join_run

close_run : Reach playing (record playing { hub = close_conn 0 in_a })
close_run = later here (in_hub (closes 0 in_a (omega arith)))

Reach-Ages_test : Ages playing.hub.conns (close_conn 0 in_a).conns
Reach-Ages_test = Reach-Ages close_run

abbrev read_move : Bytes → Option Envelope
read_move content = some (player_move sample_move)

pub in_a_queues : (q : ℕ) → (conn_at q in_a.conns).queue ≡ []
unfolding conn_at new_conn
in_a_queues zero = refl
in_a_queues (suc zero) = refl
in_a_queues (suc (suc zero)) = refl
in_a_queues (suc (suc (suc q))) = refl

pub playing-Healthy : Healthy playing
playing-Healthy = record {
  hub = record {
    consistent = in_a-Consistent;
    jobs_bounded = omega arith;
    queues_bounded = λ q lt. rw in_a_queues (omega arith);
  };
  sound = one_player-IsSound;
}

unfoldable pub done_or {ℓ} : {A : Type ℓ} → A → Outcome A → A
done_or a (done b) = b
done_or a (panic p) = a

abbrev pub sample_ticker : Ticker
sample_ticker = record { interval = pos 50000000; flush_interval = 2000000000; last_flush = 0 }

abbrev pub encode : Envelope → Option Bytes
encode e = some (9 ∷ [])

abbrev pub two_ticks : List Event
two_ticks =
    ticked 50000000 (λ r. 101) 50000001 ∷ ticked 2000000000 (λ r. 102) 2000000001 ∷ stopped ∷ []

abbrev pub ticked_game : List (List PlayerMoveWithId) × Ticker × Game
ticked_game = done_or ([], sample_ticker, playing) (run encode two_ticks sample_ticker playing)

pub ticked_game_lem : run encode two_ticks sample_ticker playing ≡ done ticked_game
unfolding run tick tick_maps tick_map collect_at all_maps move_player update_at write_at map_at
    get_or_create_map lookup new_manager create_map insert collect_dirty collect_loop
    collect_both_loop collect_dirty_both update_from_move entry new_map_state apply_move new_player
    to_move to_sync close conn_at new_conn send send_all write_conn broadcast_to_map
    broadcast_to_map_exclude_user enqueue on_broadcast receivers done_or
ticked_game_lem = refl

-- No library of the sample but the marshaller is ever called.
abbrev sample_libraries : Libraries
sample_libraries = record {
  marshal = encode;
  unmarshal = read_move;
  verify = λ token session_id user_id. err invalid_token;
  parse_uuid = λ id. id;
  unmarshal_json = λ message. none;
}

Call-Reach_example : Reach playing ticked_game.2
Call-Reach_example =
    Call-Reach {l = sample_libraries} {g = playing} {g' = ticked_game.2} playing-Healthy (
      ticks two_ticks sample_ticker ticked_game.1 playing ticked_game.2 ticked_game.0
        ticked_game_lem)

-- Player 5 disconnects while a broadcast goes through the room of map "a".
send_all-end_read_example :
    send_all (9 ∷ []) (receivers map_a (pos 0) in_a) (end_read 0 playing).hub.conns
    ≡ panic send_on_closed
unfolding lookup conn_at
send_all-end_read_example =
    send_all-end_read map_a (9 ∷ []) (pos 0) 0 playing (end_read 0 playing) playing-InOrder refl
      here

-- Player 5 is kicked while a move to the map "b" is on its way.
abbrev kicked_then_moved : Hub
kicked_then_moved =
    (handle_player_move 101 0 (record sample_move { map_id = map_b })
      (record playing { hub = on_kick_user (pos 5) in_a })).hub

on_broadcast-handle_player_move_example :
    (in_room map_b 0 kicked_then_moved ≡ true)
    × (on_broadcast map_b (9 ∷ []) (pos 0) kicked_then_moved ≡ panic send_on_closed)
unfolding lookup conn_at
on_broadcast-handle_player_move_example =
    on_broadcast-handle_player_move 101 (pos 5) (pos 0) 0 (record sample_move { map_id = map_b })
      (9 ∷ []) playing playing-InOrder refl (ground arith) (ground arith) (ground arith)
