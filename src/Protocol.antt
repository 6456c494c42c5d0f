-- ===== src/Protocol.antt =====
-- The messages of internal/protocol/pb/game.pb.go, generated from proto/game.proto. The struct
-- fields that the protobuf runtime keeps for itself are left out, and so is the wire format.
use microservice_game_servic.Base.{ℕ, Bool, List, Bytes}
use microservice_game_servic.Base.Int.{ℤ}

-- A float32 is its bit pattern: the program copies such values and computes with none.
abbrev pub Float32 : Type 0
Float32 = ℕ

pub data NackReason : Type 0 where
  unspecified version auth session internal : NackReason

pub record Handshake : Type 0 where
  pub protocol_version : ℕ
  pub user_id : ℤ
  pub token : Bytes
  pub game_session_id : Bytes

pub record PlayerMove : Type 0 where
  pub map_id : Bytes
  pub x : Float32
  pub y : Float32
  pub trangthai : ℕ
  pub dir : ℤ
  pub dau : Bytes
  pub than : Bytes
  pub chan_field : Bytes
  pub time_cho_hien_bay : Float32
  pub lech_dau_x : Float32
  pub lech_dau_y : Float32
  pub lech_than_x : Float32
  pub lech_than_y : Float32
  pub lech_chan_x : Float32
  pub lech_chan_y : Float32
  pub dang_mang_van_bay : Bool
  pub ten_van_bay : Bytes
  pub rong : Float32
  pub cao : Float32
  pub avatar : Bytes

pub record PlayerSync : Type 0 where
  pub user_id : ℤ
  pub x : Float32
  pub y : Float32
  pub trangthai : ℕ
  pub dir : ℤ
  pub dau : Bytes
  pub than : Bytes
  pub chan_field : Bytes
  pub time_cho_hien_bay : Float32
  pub lech_dau_x : Float32
  pub lech_dau_y : Float32
  pub lech_than_x : Float32
  pub lech_than_y : Float32
  pub lech_chan_x : Float32
  pub lech_chan_y : Float32
  pub dang_mang_van_bay : Bool
  pub ten_van_bay : Bytes
  pub rong : Float32
  pub cao : Float32
  pub avatar : Bytes
  pub server_time : ℕ

-- The `oneof` of an envelope; `empty` is an envelope whose payload is nil.
pub data Envelope : Type 0 where
  empty : Envelope
  handshake : Handshake → Envelope
  player_move : PlayerMove → Envelope
  handshake_ack : Envelope
  handshake_nack : NackReason → Envelope
  player_sync : PlayerSync → Envelope
  player_sync_batch : List PlayerSync → Envelope
