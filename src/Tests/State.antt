-- ===== src/Tests/State.antt =====
-- The manager and its maps at sample data.
use mathlib.Core.List.{Memᴰ}
use microservice_game_servic.Base.{
  ◌≡◌, refl, true, false, [], ◌∷◌, none, some, bytes_comparable, arith,
}
use microservice_game_servic.Base.Int.{pos, int_comparable}
use microservice_game_servic.Base.Map.{lookup, insert, erase}
use microservice_game_servic.State.PlayerState.{new_player, apply_move, to_move}
use microservice_game_servic.State.PlayerState.Moves.{to_move-apply_move}
use microservice_game_servic.State.MapState.{
  MapState, new_map_state, update_from_move, entry, is_empty, remove_player, collect_dirty,
  collect_dirty_both, clear_dirty, clear_redis,
}
use microservice_game_servic.State.MapState.Dirty.{
  collect_dirty_lem, collect_dirty_both_lem, collect_dirty-update_from_move,
  collect_dirty_both-collect_dirty,
}
use microservice_game_servic.State.Manager.{
  Manager, new_manager, map_at, write_at, remove_at, get_or_create_map, create_map, update_at,
  delete_if_empty, remove_player_from_map, remove_and_clean, get_map, player_exists_in_map,
}
use microservice_game_servic.State.Manager.Lookup.{find, IsSound}
use microservice_game_servic.State.Manager.Spec.{
  Created, move_player, find-move_player, get_or_create_map-Created, entry_or_new,
}
use microservice_game_servic.State.Manager.Removal.{
  remove_player_from_map-IsSound, find-remove_player_from_map, player_exists_in_map-find,
  remove_player_from_map-no_empty,
}
use microservice_game_servic.State.Manager.Races.{
  move_start, remove_start, schedule, overtaken, run_alone, create_map_twice, move_lost,
  newcomer_dropped, run, finished,
}
use microservice_game_servic.Tests.Samples.{
  map_a, map_b, sample_move, five_moved, one_player, one_player-IsSound,
}

find-move_player_test :
    find map_a (pos 7) (move_player 101 map_a (pos 7) sample_move one_player)
    ≡ some (apply_move 101 sample_move (entry_or_new map_a (pos 7) (find map_a (pos 7) one_player)))
find-move_player_test =
    find-move_player 101 map_a (pos 7) sample_move one_player map_a (pos 7) one_player-IsSound

get_or_create_map-Created_test : Created map_b one_player (get_or_create_map map_b one_player)
get_or_create_map-Created_test = get_or_create_map-Created map_b one_player one_player-IsSound

find-remove_player_from_map_example :
    find map_a (pos 5) (remove_player_from_map map_a (pos 5) one_player) ≡ none
find-remove_player_from_map_example =
    find-remove_player_from_map map_a (pos 5) one_player map_a (pos 5) one_player-IsSound

remove_player_from_map-IsSound_test : IsSound (remove_player_from_map map_a (pos 5) one_player)
remove_player_from_map-IsSound_test =
    remove_player_from_map-IsSound map_a (pos 5) one_player one_player-IsSound

player_exists_in_map-find_test :
    player_exists_in_map map_a (pos 5) one_player
    ≡ elim (find map_a (pos 5) one_player) [ none ↦ false | some _ ↦ true ]
player_exists_in_map-find_test = player_exists_in_map-find map_a (pos 5) one_player

-- Player 7 leaves, and player 5 keeps the map in the table.
remove_player_from_map-no_empty_test :
    is_empty (map_at 0 (remove_player_from_map map_a (pos 7) one_player)) ≡ false
unfolding move_player get_or_create_map create_map update_at write_at new_manager lookup insert
    map_at update_from_move entry new_map_state remove_player_from_map remove_and_clean get_map
    remove_at remove_player is_empty
remove_player_from_map-no_empty_test =
    remove_player_from_map-no_empty map_a (pos 7) 0 one_player one_player-IsSound refl

run_alone_test :
    (run 3 (move_start 100 map_a (pos 5) sample_move) new_manager ≡ (finished, one_player))
    × (run 4 (remove_start map_a (pos 5)) new_manager
        ≡ (finished, remove_player_from_map map_a (pos 5) new_manager))
run_alone_test = run_alone 100 map_a (pos 5) sample_move new_manager

create_map_twice_test :
    create_map map_a (create_map map_a new_manager).1 ≡ create_map map_a new_manager
create_map_twice_test = create_map_twice map_a new_manager

move_lost_example :
    find map_a (pos 7) (
      schedule overtaken
        (move_start 101 map_a (pos 7) sample_move)
        (remove_start map_a (pos 5))
        one_player)
    ≡ none
unfolding move_player get_or_create_map create_map update_at write_at new_manager lookup insert
    erase map_at update_from_move entry new_map_state remove_at remove_player is_empty
move_lost_example = move_lost 101 map_a (pos 5) (pos 7) sample_move 0 one_player refl refl

-- A map that was emptied and dropped, while its pointer 0 is still in use.
dropped : Manager
dropped = record { maps = []; heap = new_map_state map_a ∷ [] }

newcomer_dropped_example :
    find map_a (pos 7) (delete_if_empty map_a 0 (move_player 101 map_a (pos 7) sample_move dropped))
    ≡ none
unfolding dropped lookup map_at new_map_state is_empty
newcomer_dropped_example =
    newcomer_dropped 101 map_a (pos 7) sample_move 0 dropped refl (omega arith) refl

abbrev sample_map : MapState
sample_map = record { map_id = map_a; players = (pos 5, five_moved) ∷ [] }

collect_dirty_both_lem_example : collect_dirty_both sample_map ≡ (
  five_moved ∷ [],
  clear_dirty five_moved ∷ [],
  record sample_map { players = (pos 5, clear_redis (clear_dirty five_moved)) ∷ [] },
)
unfolding apply_move
collect_dirty_both_lem_example = collect_dirty_both_lem sample_map

collect_dirty_lem_test :
    collect_dirty sample_map
    ≡ (five_moved ∷ [], record sample_map { players = (pos 5, clear_dirty five_moved) ∷ [] })
unfolding apply_move
collect_dirty_lem_test = collect_dirty_lem sample_map

collect_dirty-update_from_move_test :
    Memᴰ
      (apply_move 100 sample_move (entry (pos 5) sample_map))
      (collect_dirty (update_from_move 100 (pos 5) sample_move sample_map)).0
collect_dirty-update_from_move_test =
    collect_dirty-update_from_move 100 (pos 5) sample_move sample_map

collect_dirty_both-collect_dirty_test :
    Memᴰ
      (clear_dirty (apply_move 100 sample_move (entry (pos 5) sample_map)))
      (collect_dirty_both (collect_dirty (update_from_move 100 (pos 5) sample_move sample_map)).1).1
collect_dirty_both-collect_dirty_test =
    collect_dirty_both-collect_dirty 100 (pos 5) sample_move sample_map

to_move-apply_move_test :
    to_move (apply_move 100 sample_move (new_player (pos 5) map_a)) ≡ sample_move
unfolding new_player
to_move-apply_move_test = to_move-apply_move 100 sample_move (new_player (pos 5) map_a)
