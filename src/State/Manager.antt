-- ===== src/State/Manager.antt =====
-- Manager of internal/game/state/manager.go. MapState values are shared by pointer, between the
-- manager's table, the handlers and the ticker, so they stand in a heap and a pointer is an index.
-- A lock makes each of `get_map`, `create_map`, `write_at` and `delete_if_empty` one atomic step.
pub mod Lookup
pub mod Spec
pub mod Removal
pub mod Races
pub mod Names
use microservice_game_servic.Base.{
  ℕ, Bool, true, false, List, [], ◌∷◌, ◌++◌, map, Bytes, Option, none, some, length, get_elem?, set,
  bytes_comparable, if◌then◌else◌,
}
use microservice_game_servic.Base.Int.{ℤ, int_comparable}
use microservice_game_servic.Base.Map.{Map, lookup, insert, erase, has_key, values}
use microservice_game_servic.Protocol.{PlayerMove}
use microservice_game_servic.State.MapState.{
  MapState, new_map_state, update_from_move, is_empty, remove_player,
}

pub record Manager : Type 0 where
  pub maps : Map Bytes ℕ
  pub heap : List MapState

unfoldable pub new_manager : Manager
new_manager = record { maps = []; heap = [] }

-- The value behind a pointer. Every pointer that the code has comes from `heap`.
unfoldable pub map_at : ℕ → Manager → MapState
map_at r m = elim (get_elem? m.heap r) [ some ms ↦ ms | none ↦ new_map_state [] ]

unfoldable pub write_at : ℕ → MapState → Manager → Manager
write_at r ms m = record m { heap = set m.heap r ms }

unfoldable pub get_map : Bytes → Manager → Option ℕ
get_map map_id m = lookup map_id m.maps

-- The slow path of GetOrCreateMap, which looks once more under the write lock.
unfoldable pub create_map : Bytes → Manager → ℕ × Manager
create_map map_id m = elim (lookup map_id m.maps) [
  | some r ↦ (r, m)
  | none ↦
      let r = length m.heap in
      (r, record { maps = insert map_id r m.maps; heap = m.heap ++ new_map_state map_id ∷ [] })
]

unfoldable pub get_or_create_map : Bytes → Manager → ℕ × Manager
get_or_create_map map_id m = elim (lookup map_id m.maps) [
  | some r ↦ (r, m)
  | none ↦ create_map map_id m
]

unfoldable pub all_maps : Manager → List ℕ
all_maps m = values m.maps

-- `ms.UpdateFromMove(userID, move)` through a pointer.
unfoldable pub update_at : ℕ → ℤ → PlayerMove → ℕ → Manager → Manager
update_at now user_id move r m = write_at r (update_from_move now user_id move (map_at r m)) m

unfoldable pub remove_at : ℤ → ℕ → Manager → Manager
remove_at user_id r m = write_at r (remove_player user_id (map_at r m)).0 m

-- The part of RemovePlayerFromMap under the manager's lock: it looks at the map behind the
-- pointer, and deletes by the map's name.
unfoldable pub delete_if_empty : Bytes → ℕ → Manager → Manager
delete_if_empty map_id r m =
    if is_empty (map_at r m) then record m { maps = erase map_id m.maps } else m

-- What RemovePlayerFromMap does once it has the pointer `r`, with no other step between its own.
unfoldable pub remove_and_clean : Bytes → ℤ → ℕ → Manager → Manager
remove_and_clean map_id user_id r m =
    let m' = remove_at user_id r m in
    if is_empty (map_at r m') then delete_if_empty map_id r m' else m'

unfoldable pub remove_player_from_map : Bytes → ℤ → Manager → Manager
remove_player_from_map map_id user_id m = elim (get_map map_id m) [
  | none ↦ m
  | some r ↦ remove_and_clean map_id user_id r m
]

unfoldable pub player_exists_in_map : Bytes → ℤ → Manager → Bool
player_exists_in_map map_id user_id m = elim (get_map map_id m) [
  | none ↦ false
  | some r ↦ has_key user_id (map_at r m).players
]
