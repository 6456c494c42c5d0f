-- ===== src/State/Manager/Races.antt =====
-- Two goroutines on one map: the atomic steps of GetOrCreateMap, UpdateFromMove and
-- RemovePlayerFromMap of internal/game/state/manager.go, as the handler and the hub run them, in
-- an order that the locks allow.
use microservice_game_servic.Base.{
  ℕ, ◌<◌, ◌≡◌, true, List, [], ◌∷◌, Bytes, none, some, length, length-append, bytes_comparable,
  ==_refl, if◌then◌else◌, arith, suc, zero,
}
use microservice_game_servic.Base.Int.{ℤ, int_comparable}
use microservice_game_servic.Base.Map.{lookup, lookup-insert, lookup-erase}
use microservice_game_servic.Protocol.{PlayerMove}
use microservice_game_servic.State.MapState.{MapState, new_map_state, update_from_move, is_empty}
use microservice_game_servic.State.Manager.{
  Manager, map_at, write_at, get_map, create_map, get_or_create_map, update_at, remove_at,
  delete_if_empty, remove_and_clean, remove_player_from_map,
}
use microservice_game_servic.State.Manager.Lookup.{find, maps-write_at, map_at-write_at}
use microservice_game_servic.State.Manager.Spec.{
  move_player, grown, map_at-grown, get_or_create_map_new,
}
use microservice_game_servic.State.Manager.Removal.{find-none}

-- Where a goroutine stands between two of its atomic steps.
pub data Thread : Type 0 where
  move_start move_slow : ℕ → Bytes → ℤ → PlayerMove → Thread
  move_update : ℕ → ℕ → ℤ → PlayerMove → Thread
  remove_start : Bytes → ℤ → Thread
  remove_player_step : Bytes → ℤ → ℕ → Thread
  remove_check remove_delete : Bytes → ℕ → Thread
  finished : Thread

unfoldable pub step : Thread → Manager → Thread × Manager
step (move_start now k u move) m = elim (lookup k m.maps) [
  | some r ↦ (move_update now r u move, m)
  | none ↦ (move_slow now k u move, m)
]
step (move_slow now k u move) m = let (r, m') = create_map k m in (move_update now r u move, m')
step (move_update now r u move) m = (finished, update_at now u move r m)
step (remove_start k u) m = elim (get_map k m) [
  | some r ↦ (remove_player_step k u r, m)
  | none ↦ (finished, m)
]
step (remove_player_step k u r) m = (remove_check k r, remove_at u r m)
step (remove_check k r) m = if is_empty (map_at r m) then (remove_delete k r, m) else (finished, m)
step (remove_delete k r) m = (finished, delete_if_empty k r m)
step finished m = (finished, m)

pub run : ℕ → Thread → Manager → Thread × Manager
run zero t m = (t, m)
run (suc n) t m = let (t', m') = step t m in run n t' m'

-- Without interference the steps of a goroutine are the whole operation.
pub run_alone :
    (now : ℕ) (k : Bytes) (u : ℤ) (move : PlayerMove) (m : Manager)
    → (run 3 (move_start now k u move) m ≡ (finished, move_player now k u move m))
      × (run 4 (remove_start k u) m ≡ (finished, remove_player_from_map k u m))
unfolding run step move_player get_or_create_map remove_player_from_map remove_and_clean get_map
run_alone now k u move m = (ground arith, ground arith)

-- Two goroutines that both miss a map on the fast path get one map: the second finds the first's.
pub create_map_twice : (k : Bytes) (m : Manager) → create_map k (create_map k m).1 ≡ create_map k m
unfolding create_map
create_map_twice k m = ground (arith, lookup-insert k k (length m.heap) m.maps, ==_refl k)

maps-update_at :
    (now : ℕ) (u : ℤ) (move : PlayerMove) (r : ℕ) (m : Manager)
    → (update_at now u move r m).maps ≡ m.maps
unfolding update_at
maps-update_at now u move r m = maps-write_at m r _

-- The last player of a map takes the map's name out of the table.
last_leaves :
    (k : Bytes) (u : ℤ) (r : ℕ) (m : Manager)
    → lookup k m.maps ≡ some r
    → is_empty (map_at r (remove_at u r m)) ≡ true
    → lookup k (remove_player_from_map k u m).maps ≡ none
unfolding remove_player_from_map remove_and_clean get_map delete_if_empty
last_leaves k u r m e h = ground (arith, lookup-erase k k (remove_at u r m).maps, ==_refl k)

is_empty-erased :
    (k : Bytes) (r : ℕ) (v : ℤ) (m : Manager)
    → is_empty (map_at r m) ≡ true
    → find k v (delete_if_empty k r m) ≡ none
unfolding delete_if_empty
is_empty-erased k r v m h = rw h (find-none k v _ (rw (lookup-erase, ==_refl k)))

pub data Turn : Type 0 where
  first second : Turn

-- Two goroutines under a schedule that says whose step is next.
pub schedule : List Turn → Thread → Thread → Manager → Manager
schedule [] a b m = m
schedule (first ∷ turns) a b m = let (a', m') = step a m in schedule turns a' b m'
schedule (second ∷ turns) a b m = let (b', m') = step b m in schedule turns a b' m'

-- A handler that has looked up its map, then all of a removal, then the handler's update.
abbrev pub overtaken : List Turn
overtaken = first ∷ second ∷ second ∷ second ∷ second ∷ first ∷ []

schedule-overtaken :
    (now : ℕ) (k : Bytes) (u v : ℤ) (move : PlayerMove) (r : ℕ) (m : Manager)
    → lookup k m.maps ≡ some r
    → schedule overtaken (move_start now k v move) (remove_start k u) m
      ≡ update_at now v move r (remove_player_from_map k u m)
unfolding schedule step remove_player_from_map remove_and_clean get_map
schedule-overtaken now k u v move r m e = ground arith

-- A lost move: a handler has looked up a map whose last player then leaves. The map is dropped
-- from the table, and the move goes to the dropped map, where no reader finds it.
pub move_lost :
    (now : ℕ) (k : Bytes) (u v : ℤ) (move : PlayerMove) (r : ℕ) (m : Manager)
    → lookup k m.maps ≡ some r
    → is_empty (map_at r (remove_at u r m)) ≡ true
    → find k v (schedule overtaken (move_start now k v move) (remove_start k u) m) ≡ none
move_lost now k u v move r m e h =
    rw (schedule-overtaken now k u v move r m e)
      (find-none k v _ (rw maps-update_at (last_leaves k u r m e h)))

-- A dropped newcomer: a goroutine that saw an empty map of that name deletes by the name, after
-- another one has dropped that map and a player has moved onto a new one.
pub newcomer_dropped :
    (now : ℕ) (k : Bytes) (v : ℤ) (move : PlayerMove) (r : ℕ) (m : Manager)
    → lookup k m.maps ≡ none
    → r < length m.heap
    → is_empty (map_at r m) ≡ true
    → find k v (delete_if_empty k r (move_player now k v move m)) ≡ none
unfolding move_player update_at
newcomer_dropped now k v move r m e lt h =
    rw (get_or_create_map_new k m e) (is_empty-erased k r v _ still)
  where
    q : ℕ
    q = length m.heap

    written : MapState
    written = update_from_move now v move (map_at q (grown k m))

    still : is_empty (map_at r (write_at q written (grown k m))) ≡ true
    still = ground (
      arith,
      map_at-write_at (grown k m) q r written,
      map_at-grown k m r,
      length-append m.heap (new_map_state k ∷ []),
    )
