-- ===== src/Tests/Samples.antt =====
-- Sample data: two players, 5 and 7, who move onto the map "a".
use microservice_game_servic.Base.{
  ℕ, zero, suc, ◌≡◌, refl, true, false, [], ◌∷◌, Bytes, some, arith, bytes_comparable,
}
use microservice_game_servic.Base.Int.{ℤ, pos, int_comparable}
use microservice_game_servic.Base.Map.{lookup, insert}
use microservice_game_servic.Protocol.{PlayerMove}
use microservice_game_servic.State.PlayerState.{PlayerState, new_player, apply_move}
use microservice_game_servic.State.MapState.{update_from_move, entry, new_map_state}
use microservice_game_servic.State.Manager.{
  Manager, new_manager, map_at, get_or_create_map, create_map, update_at, write_at,
}
use microservice_game_servic.State.Manager.Lookup.{find, IsSound, new_manager-IsSound}
use microservice_game_servic.State.Manager.Spec.{move_player, move_player-IsSound}
use microservice_game_servic.Ws.Conn.{Conn, conn_at, write_conn, set_map_id, new_conn}
use microservice_game_servic.Ws.Hub.{
  Hub, new_hub, register_locked, move_to_room, add_to_room_locked, remove_from_room_locked,
}
use microservice_game_servic.Ws.Hub.Rooms.{in_room}
use microservice_game_servic.Ws.Hub.Consistent.{Consistent, empty-Consistent}
use microservice_game_servic.Ws.Hub.Sessions.{register_locked-Consistent}
use microservice_game_servic.Ws.Hub.Operations.{move_to_room-Consistent}
use microservice_game_servic.Ws.Handler.{Game}
use microservice_game_servic.Ws.Loops.Ended.{InOrder}

abbrev pub map_a : Bytes
map_a = 97 ∷ []

abbrev pub map_b : Bytes
map_b = 98 ∷ []

abbrev pub sample_move : PlayerMove
sample_move = record {
  map_id = map_a;
  x = 11;
  y = 12;
  trangthai = 1;
  dir = pos 1;
  dau = [];
  than = [];
  chan_field = [];
  time_cho_hien_bay = 0;
  lech_dau_x = 0;
  lech_dau_y = 0;
  lech_than_x = 0;
  lech_than_y = 0;
  lech_chan_x = 0;
  lech_chan_y = 0;
  dang_mang_van_bay = false;
  ten_van_bay = [];
  rong = 3;
  cao = 4;
  avatar = [];
}

abbrev pub five_moved : PlayerState
five_moved = apply_move 100 sample_move (new_player (pos 5) map_a)

abbrev pub one_player : Manager
one_player = move_player 100 map_a (pos 5) sample_move new_manager

pub one_player-IsSound : IsSound one_player
one_player-IsSound =
    move_player-IsSound 100 map_a (pos 5) sample_move new_manager new_manager-IsSound

abbrev pub conn_of : ℤ → Conn
conn_of u = record { user_id = u; map_id = []; queue = []; closed = false }

-- Three connections: 0 and 2 of player 5, and 1 of player 7.
abbrev pub idle : Hub
idle = record {
  bus_set = true;
  conns = conn_of (pos 5) ∷ conn_of (pos 7) ∷ conn_of (pos 5) ∷ [];
  conns_by_user = [];
  rooms = [];
  publish_ch = [];
  publish_closed = false;
}

pub idle-Consistent : Consistent idle
unfolding new_hub
idle-Consistent = empty-Consistent true (conn_of (pos 5) ∷ conn_of (pos 7) ∷ conn_of (pos 5) ∷ [])

-- Connections 0 and 1 are registered.
abbrev pub registered : Hub
registered = record idle { conns_by_user = (pos 5, 0) ∷ (pos 7, 1) ∷ [] }

registered_lem : register_locked 1 (register_locked 0 idle) ≡ registered
unfolding register_locked add_to_room_locked remove_from_room_locked lookup insert conn_at
registered_lem = refl

pub registered-Consistent : Consistent registered
unfolding register_locked add_to_room_locked remove_from_room_locked lookup insert conn_at
registered-Consistent =
    register_locked-Consistent 1 (register_locked 0 idle)
      (register_locked-Consistent 0 idle idle-Consistent (omega arith)) (omega arith)

-- And they are in the room of map "a".
abbrev pub in_a : Hub
in_a = record registered {
  conns =
      record (conn_of (pos 5)) { map_id = map_a }
      ∷ record (conn_of (pos 7)) { map_id = map_a }
      ∷ conn_of (pos 5)
      ∷ [];
  rooms = (map_a, 0 ∷ 1 ∷ []) ∷ [];
}

pub in_a-Consistent : Consistent in_a
unfolding move_to_room add_to_room_locked remove_from_room_locked lookup insert conn_at write_conn
    set_map_id
in_a-Consistent =
    move_to_room-Consistent 1 map_a (move_to_room 0 map_a registered)
      (move_to_room-Consistent 0 map_a registered registered-Consistent (omega arith)) (omega arith)

abbrev pub playing : Game
playing = record { hub = in_a; manager = one_player }

pub playing-InOrder : InOrder 0 playing
playing-InOrder = record {
  consistent = in_a-Consistent;
  sound = one_player-IsSound;
  known = omega arith;
}

-- Player 5 is on map 0 of the heap.
pub map_a_stored : lookup map_a playing.manager.maps ≡ some 0
unfolding move_player get_or_create_map create_map update_at write_at new_manager lookup insert
map_a_stored = refl

pub five_stored : lookup (pos 5) (map_at 0 playing.manager).players ≡ some five_moved
unfolding move_player get_or_create_map create_map update_at write_at new_manager lookup insert
    map_at update_from_move entry new_map_state
five_stored = refl

pub five_found : find map_a (pos 5) playing.manager ≡ some five_moved
unfolding find move_player get_or_create_map create_map update_at write_at new_manager lookup insert
five_found = five_stored

-- Every connection of the sample is open.
pub in_a_open :
    (k : Bytes) (q : ℕ) → in_room k q in_a ≡ true → (conn_at q in_a.conns).closed ≡ false
unfolding conn_at new_conn
in_a_open k zero e = refl
in_a_open k (suc zero) e = refl
in_a_open k (suc (suc zero)) e = refl
in_a_open k (suc (suc (suc q))) e = refl
