-- ===== src/State/PlayerState.antt =====
-- PlayerState of internal/game/state/manager.go: the latest snapshot of a player on a map.
pub mod Moves
use microservice_game_servic.Base.{ℕ, Bool, true, false, [], Bytes}
use microservice_game_servic.Base.Int.{ℤ, pos}
use microservice_game_servic.Protocol.{Float32, PlayerMove, PlayerSync}

pub record PlayerState : Type 0 where
  pub user_id : ℤ
  pub map_id : Bytes
  pub x : Float32
  pub y : Float32
  pub trangthai : ℕ
  pub dir : ℤ
  pub dau : Bytes
  pub than : Bytes
  pub chan_field : Bytes
  pub time_cho_hien_bay : Float32
  pub lech_dau_x : Float32
  pub lech_dau_y : Float32
  pub lech_than_x : Float32
  pub lech_than_y : Float32
  pub lech_chan_x : Float32
  pub lech_chan_y : Float32
  pub dang_mang_van_bay : Bool
  pub ten_van_bay : Bytes
  pub rong : Float32
  pub cao : Float32
  pub avatar : Bytes
  pub updated_at : ℕ
  pub dirty : Bool
  pub redis_dirty : Bool

-- `server_time` is left at its zero value: the caller sets it.
unfoldable pub to_sync : PlayerState → PlayerSync
to_sync p = record {
  user_id = p.user_id;
  x = p.x;
  y = p.y;
  trangthai = p.trangthai;
  dir = p.dir;
  dau = p.dau;
  than = p.than;
  chan_field = p.chan_field;
  time_cho_hien_bay = p.time_cho_hien_bay;
  lech_dau_x = p.lech_dau_x;
  lech_dau_y = p.lech_dau_y;
  lech_than_x = p.lech_than_x;
  lech_than_y = p.lech_than_y;
  lech_chan_x = p.lech_chan_x;
  lech_chan_y = p.lech_chan_y;
  dang_mang_van_bay = p.dang_mang_van_bay;
  ten_van_bay = p.ten_van_bay;
  rong = p.rong;
  cao = p.cao;
  avatar = p.avatar;
  server_time = 0;
}

unfoldable pub to_move : PlayerState → PlayerMove
to_move p = record {
  map_id = p.map_id;
  x = p.x;
  y = p.y;
  trangthai = p.trangthai;
  dir = p.dir;
  dau = p.dau;
  than = p.than;
  chan_field = p.chan_field;
  time_cho_hien_bay = p.time_cho_hien_bay;
  lech_dau_x = p.lech_dau_x;
  lech_dau_y = p.lech_dau_y;
  lech_than_x = p.lech_than_x;
  lech_than_y = p.lech_than_y;
  lech_chan_x = p.lech_chan_x;
  lech_chan_y = p.lech_chan_y;
  dang_mang_van_bay = p.dang_mang_van_bay;
  ten_van_bay = p.ten_van_bay;
  rong = p.rong;
  cao = p.cao;
  avatar = p.avatar;
}

-- `&PlayerState{UserID: userID, MapID: mapID}`: every other field has its zero value.
unfoldable pub new_player : ℤ → Bytes → PlayerState
new_player user_id map_id = record {
  user_id = user_id;
  map_id = map_id;
  x = 0;
  y = 0;
  trangthai = 0;
  dir = pos 0;
  dau = [];
  than = [];
  chan_field = [];
  time_cho_hien_bay = 0;
  lech_dau_x = 0;
  lech_dau_y = 0;
  lech_than_x = 0;
  lech_than_y = 0;
  lech_chan_x = 0;
  lech_chan_y = 0;
  dang_mang_van_bay = false;
  ten_van_bay = [];
  rong = 0;
  cao = 0;
  avatar = [];
  updated_at = 0;
  dirty = false;
  redis_dirty = false;
}

-- The assignments of UpdateFromMove to the entry `p`, at server time `now`.
unfoldable pub apply_move : ℕ → PlayerMove → PlayerState → PlayerState
apply_move now m p = record p {
  x = m.x;
  y = m.y;
  trangthai = m.trangthai;
  dir = m.dir;
  dau = m.dau;
  than = m.than;
  chan_field = m.chan_field;
  time_cho_hien_bay = m.time_cho_hien_bay;
  lech_dau_x = m.lech_dau_x;
  lech_dau_y = m.lech_dau_y;
  lech_than_x = m.lech_than_x;
  lech_than_y = m.lech_than_y;
  lech_chan_x = m.lech_chan_x;
  lech_chan_y = m.lech_chan_y;
  dang_mang_van_bay = m.dang_mang_van_bay;
  ten_van_bay = m.ten_van_bay;
  rong = m.rong;
  cao = m.cao;
  avatar = m.avatar;
  updated_at = now;
  dirty = true;
  redis_dirty = true;
}
