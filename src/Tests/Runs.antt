-- ===== src/Tests/Runs.antt =====
-- Runs of an instance at sample data: a queue, the table of snapshots, the counters.
use microservice_game_servic.Base.{
  ℕ, ◌+◌, ◌*◌, ◌<◌, ◌≤◌, ◌≡◌, refl, true, false, List, [], ◌∷◌, ◌++◌, Bytes, length, arith, done,
  some, bytes_comparable,
}
use microservice_game_servic.Player.Service.{PlayerMoveWithId}
use microservice_game_servic.Ws.Hub.Rooms.{in_room}
use microservice_game_servic.Ws.Handler.{Game, handle_player_move, current_map}
use microservice_game_servic.Base.Int.{pos, int_comparable}
use microservice_game_servic.Base.Map.{lookup, insert}
use microservice_game_servic.State.Manager.{
  new_manager, create_map, get_or_create_map, update_at, write_at, remove_at, map_at,
}
use microservice_game_servic.State.Manager.Spec.{move_player}
use microservice_game_servic.Ws.Conn.{Conn, conn_at, write_conn, close, send}
use microservice_game_servic.Ws.Hub.{Hub, close_conn, stats}
use microservice_game_servic.System.{
  sends, closes, writes, removes, collects, in_hub, in_manager, Reach, here, later,
}
use microservice_game_servic.System.Order.{queued, taken, queued_step, Reach-queue}
use microservice_game_servic.System.Table.{table, replay, find-replay}
use microservice_game_servic.State.Manager.Lookup.{find}
use microservice_game_servic.System.Counted.{stats-bounded}
use microservice_game_servic.Tests.System.{
  joined, join_run, playing-Healthy, encode, two_ticks, in_a_queues, sample_ticker,
}
use microservice_game_servic.Loop.Ticker.{Ticker, new_ticker, run, tick, with_id, collect_at}
use microservice_game_servic.Loop.Ticker.EndToEnd.{moved}
use microservice_game_servic.System.Flushed.{Untaken, tick-Untaken}
use microservice_game_servic.Tests.Loop.{after_move}
use mathlib.Core.List.{Memᴰ}
use microservice_game_servic.State.MapState.{update_from_move, new_map_state}
use microservice_game_servic.Loop.Ticker.Spaced.{Spaced, flush_times}
use microservice_game_servic.Loop.Ticker.Rate.{last_start}
use microservice_game_servic.Loop.Ticker.Lasting.{run_lasts}
use microservice_game_servic.Tests.Samples.{
  map_a, in_a, playing, one_player, conn_of, one_player-IsSound, in_a-Consistent, in_a_open,
  sample_move,
}

-- A packet is sent to player 5, whose connection is then closed, before the write loop takes it.
abbrev queued_conn : Conn
queued_conn = record (conn_of (pos 5)) { map_id = map_a; queue = (9 ∷ []) ∷ [] }

abbrev sent_hub : Hub
sent_hub = record in_a { conns = write_conn 0 queued_conn in_a.conns }

abbrev closed_hub : Hub
closed_hub = close_conn 0 sent_hub

abbrev written_hub : Hub
written_hub = record closed_hub {
  conns = write_conn 0 (record (conn_at 0 closed_hub.conns) { queue = [] }) closed_hub.conns;
}

queue_run : Reach playing (record playing { hub = written_hub })
unfolding conn_at write_conn close_conn close send
queue_run =
    later
      (later (later here (in_hub (sends (9 ∷ []) 0 queued_conn in_a (omega arith) refl)))
        (in_hub (closes 0 sent_hub (omega arith))))
      (in_hub (writes (9 ∷ []) [] 0 closed_hub (omega arith) refl))

queue_run_test : queued 0 queue_run ≡ (9 ∷ []) ∷ []
unfolding queued queued_step queue_run conn_at
queue_run_test = refl

Reach-queue_example :
    ((conn_at 0 in_a.conns).queue ++ queued 0 queue_run
      ≡ taken 0 queue_run ++ (conn_at 0 written_hub.conns).queue)
    × ((conn_at 0 in_a.conns).closed ≡ true → queued 0 queue_run ≡ [])
Reach-queue_example = Reach-queue 0 queue_run (omega arith)

-- Player 5 is taken out of the map "a".
remove_run : Reach playing (record playing { manager = remove_at (pos 5) 0 one_player })
unfolding move_player get_or_create_map create_map update_at write_at new_manager lookup insert
remove_run = later here (in_manager (removes (pos 5) 0 one_player (omega arith)))

find-replay_example :
    find map_a (pos 5) (remove_at (pos 5) 0 one_player)
    ≡ replay remove_run (table playing.manager) map_a (pos 5)
find-replay_example = find-replay remove_run map_a (pos 5) playing-Healthy

stats-bounded_example :
    ((stats joined.hub).0 ≤ length joined.hub.conns)
    × ((stats joined.hub).1 ≤ length joined.hub.conns)
stats-bounded_example = stats-bounded true joined join_run

run_lasts_example :
    (batches : List (List PlayerMoveWithId)) × (t' : Ticker) × (g' : Game) × (run encode two_ticks
        (new_ticker (pos 50000000) 0)
        playing
      ≡ done (batches, t', g'))
    × ((k : Bytes) (q : ℕ) → in_room k q g'.hub ≡ true → (conn_at q g'.hub.conns).closed ≡ false)
    × (length batches ≡ length (flush_times encode two_ticks (new_ticker (pos 50000000) 0) playing))
    × Spaced 2000000000 0 (flush_times encode two_ticks (new_ticker (pos 50000000) 0) playing)
    × (0 + length batches * 2000000000 ≤ t'.last_flush)
    × (last_start 0 two_ticks < t'.last_flush + 2000000000)
run_lasts_example =
    run_lasts encode two_ticks (pos 50000000) 0 playing one_player-IsSound in_a-Consistent refl
      (λ k q i. (in_a_open k q i, rw in_a_queues (omega arith))) (omega arith, (omega arith, tt))

-- Player 5 moves, and a tick that does not flush collects from the map.
abbrev broadcast_only : Game
broadcast_only = record after_move { manager = (collect_at false 0 after_move.manager).2 }

broadcast_run : Reach after_move broadcast_only
unfolding handle_player_move current_map conn_at lookup get_or_create_map create_map update_at
    write_at move_player new_manager insert
broadcast_run = later here (in_manager (collects false 0 after_move.manager (omega arith)))

broadcast_run-Untaken : Untaken broadcast_run map_a (pos 5)
unfolding broadcast_run handle_player_move current_map conn_at lookup get_or_create_map create_map
    update_at write_at move_player new_manager insert map_at update_from_move new_map_state
broadcast_run-Untaken = (refl, tt)

tick-Untaken_example :
    (batch : List PlayerMoveWithId) × (t' : Ticker) × (g' : Game) × (tick
        (λ e. some (9 ∷ []))
        2000000000
        (λ r. 102)
        2000000001
        sample_ticker
        broadcast_only
      ≡ done (some batch, t', g'))
    × Memᴰ (with_id (moved 101 0 sample_move playing)) batch
unfolding handle_player_move current_map conn_at
tick-Untaken_example =
    tick-Untaken (λ e. 9 ∷ []) 101 0 sample_move 2000000000 (λ r. 102) 2000000001 sample_ticker
      playing broadcast_only playing-Healthy (omega arith) broadcast_run broadcast_run-Untaken refl
      in_a_open (omega arith)
