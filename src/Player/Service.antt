-- ===== src/Player/Service.antt =====
-- Service of internal/game/player/service.go. `format_int` and `format_float` stand for the
-- formatting of fmt and strconv, `exec` for one round trip of a pipeline to Redis, in which the
-- client turns the values into text, and which answers with an error or none, and the new content
-- of Redis.
pub mod Flush
use microservice_game_servic.Base.{ℕ, Bool, List, [], ◌∷◌, ◌++◌, Bytes, Option, none, some, ascii}
use microservice_game_servic.Base.Int.{ℤ}
use microservice_game_servic.Base.Map.{Map}
use microservice_game_servic.Protocol.{Float32, PlayerMove}
use microservice_game_servic.Player.Trangthai.{trangthai_to_string}

-- A value of a `map[string]interface{}`.
pub data FieldValue : Type 0 where
  text : Bytes → FieldValue
  int : ℤ → FieldValue
  bool : Bool → FieldValue

-- `set_nx key value ttl`, with both numbers in milliseconds, and `hset key fields`.
pub data Command : Type 0 where
  set_nx : Bytes → ℕ → ℕ → Command
  hset : Bytes → Map Bytes FieldValue → Command

pub record PlayerMoveWithId : Type 0 where
  pub user_id : ℤ
  pub move : PlayerMove

abbrev pub dirty_ttl : ℕ
dirty_ttl = 600000

module _ (format_int : ℤ → Bytes) where
  unfoldable pub player_key : ℤ → Bytes
  player_key user_id = ascii "GAME:PLAYER:" ++ format_int user_id

  unfoldable pub dirty_key : ℤ → Bytes
  dirty_key user_id = ascii "dirty:" ++ format_int user_id

module _ (format_float : Float32 → Bytes) where
  unfoldable pub move_fields : PlayerMove → Map Bytes FieldValue
  move_fields m =
      (ascii "x", text (format_float m.x))
      ∷ (ascii "y", text (format_float m.y))
      ∷ (ascii "trangthai", text (trangthai_to_string m.trangthai))
      ∷ (ascii "dir", int m.dir)
      ∷ (ascii "dau", text m.dau)
      ∷ (ascii "than", text m.than)
      ∷ (ascii "chan", text m.chan_field)
      ∷ (ascii "timeChoHienBay", text (format_float m.time_cho_hien_bay))
      ∷ (ascii "lechDauX", text (format_float m.lech_dau_x))
      ∷ (ascii "lechDauY", text (format_float m.lech_dau_y))
      ∷ (ascii "lechThanX", text (format_float m.lech_than_x))
      ∷ (ascii "lechThanY", text (format_float m.lech_than_y))
      ∷ (ascii "lechChanX", text (format_float m.lech_chan_x))
      ∷ (ascii "lechChanY", text (format_float m.lech_chan_y))
      ∷ (ascii "dangMangVanBay", bool m.dang_mang_van_bay)
      ∷ (ascii "tenVanBay", text m.ten_van_bay)
      ∷ (ascii "rong", text (format_float m.rong))
      ∷ (ascii "cao", text (format_float m.cao))
      ∷ (ascii "avatar", text m.avatar)
      ∷ []

module _ (format_int : ℤ → Bytes) (format_float : Float32 → Bytes) where
  -- The two commands that HandleMove pipelines.
  unfoldable pub move_commands : ℕ → ℤ → PlayerMove → List Command
  move_commands now user_id m =
      set_nx (dirty_key format_int user_id) now dirty_ttl
      ∷ hset (player_key format_int user_id) (move_fields format_float m)
      ∷ []

  -- The commands that the loop of HandleMoveBatch pipelines, all with one reading of the clock.
  unfoldable pub batch_commands : ℕ → List PlayerMoveWithId → List Command
  batch_commands now [] = []
  batch_commands now (p ∷ ps) =
      set_nx (dirty_key format_int p.user_id) now dirty_ttl
      ∷ hset (player_key format_int p.user_id) (move_fields format_float p.move)
      ∷ batch_commands now ps

  module _ {ℓ κ} {E : Type ℓ} {R : Type κ} (exec : List Command → R → Option E × R) where
    unfoldable pub handle_move : ℕ → ℤ → PlayerMove → R → Option E × R
    handle_move now user_id m redis = exec (move_commands now user_id m) redis

    -- With no player there is no round trip.
    unfoldable pub handle_move_batch : ℕ → List PlayerMoveWithId → R → Option E × R
    handle_move_batch now [] redis = (none, redis)
    handle_move_batch now (p ∷ ps) redis = exec (batch_commands now (p ∷ ps)) redis
