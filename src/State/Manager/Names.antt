-- ===== src/State/Manager/Names.antt =====
-- The names of the maps that the manager of internal/game/state/manager.go has in its heap: each
-- operation keeps a bound on their length.
use microservice_game_servic.Base.{
  ℕ, ◌≤◌, ◌≡◌, Bytes, length, get_elem?-set, Bool-cases, Option-cases, inl, inr, arith,
  bytes_comparable,
}
use microservice_game_servic.Base.Int.{ℤ}
use microservice_game_servic.Base.Map.{lookup}
use microservice_game_servic.Protocol.{PlayerMove}
use microservice_game_servic.State.MapState.{MapState, new_map_state, is_empty}
use microservice_game_servic.State.Manager.{
  Manager, new_manager, map_at, write_at, get_map, get_or_create_map, update_at, remove_at,
  delete_if_empty, remove_and_clean, remove_player_from_map,
}
use microservice_game_servic.State.Manager.Lookup.{map_id-update_from_move, map_id-remove_player}
use microservice_game_servic.State.Manager.Spec.{map_at-grown, get_or_create_map_new, move_player}

module _ (n : ℕ) where
  -- No map's name is longer than `n` bytes.
  abbrev pub ShortNames : Manager → Type 0
  ShortNames m = (r : ℕ) → length (map_at r m).map_id ≤ n

  pub new_manager-ShortNames : ShortNames new_manager
  unfolding new_manager map_at new_map_state
  new_manager-ShortNames r = omega arith

  -- A map that is written keeps its name.
  pub write_at-ShortNames :
      (r : ℕ) (ms : MapState) (m : Manager)
      → ms.map_id ≡ (map_at r m).map_id
      → ShortNames m
      → ShortNames (write_at r ms m)
  unfolding map_at write_at new_map_state
  write_at-ShortNames r ms m e s q = ground (arith, get_elem?-set m.heap r q ms, s q, s r)

  pub get_or_create_map-ShortNames :
      (k : Bytes) (m : Manager) → length k ≤ n → ShortNames m → ShortNames (get_or_create_map k m).1
  unfolding get_or_create_map new_map_state
  get_or_create_map-ShortNames k m short s q = elim (Option-cases (lookup k m.maps)) [
    | inl e ↦ rw (get_or_create_map_new k m e) (ground (arith, map_at-grown k m q, s q))
    | inr (r, e) ↦ rw (e, get_or_create_map) (s q)
  ]

  pub move_player-ShortNames :
      (now : ℕ) (k : Bytes) (u : ℤ) (move : PlayerMove) (m : Manager)
      → length k ≤ n
      → ShortNames m
      → ShortNames (move_player now k u move m)
  unfolding move_player update_at
  move_player-ShortNames now k u move m short s =
      let c = get_or_create_map k m in
      write_at-ShortNames c.0 _ c.1 (map_id-update_from_move now u move (map_at c.0 c.1))
        (get_or_create_map-ShortNames k m short s)

  remove_at-ShortNames : (u : ℤ) (r : ℕ) (m : Manager) → ShortNames m → ShortNames (remove_at u r m)
  unfolding remove_at
  remove_at-ShortNames u r m s = write_at-ShortNames r _ m (map_id-remove_player u (map_at r m)) s

  delete_if_empty-ShortNames :
      (k : Bytes) (r : ℕ) (m : Manager) → ShortNames m → ShortNames (delete_if_empty k r m)
  unfolding delete_if_empty map_at
  delete_if_empty-ShortNames k r m s q = ground (arith, s q)

  pub remove_player_from_map-ShortNames :
      (k : Bytes) (u : ℤ) (m : Manager) → ShortNames m → ShortNames (remove_player_from_map k u m)
  unfolding remove_player_from_map remove_and_clean get_map
  remove_player_from_map-ShortNames k u m s q = elim (Option-cases (lookup k m.maps)) [
    | inl e ↦ rw (e, remove_player_from_map, get_map) (s q)
    | inr (r, e) ↦
        let removed : ShortNames (remove_at u r m) = remove_at-ShortNames u r m s in
        rw (e, remove_player_from_map, get_map)
          (elim (Bool-cases (is_empty (map_at r (remove_at u r m)))) [
            | inl h ↦ rw h (delete_if_empty-ShortNames k r (remove_at u r m) removed q)
            | inr h ↦ rw h (removed q)
          ])
  ]
