-- ===== src/Bus/Wire.antt =====
-- Messages between instances: publish, PublishBroadcast, PublishKickUser and dispatch, which
-- internal/infra/bus/redis.go and internal/infra/bus/nats.go write alike, and the interfaces of
-- internal/infra/bus/bus.go.
pub mod Delivery
use microservice_game_servic.Base.{
  ℕ, Bool, List, [], ◌∷◌, ◌++◌, length, take, drop, Bytes, ltb, ◌==◌, bytes_comparable,
  nat_comparable, if◌then◌else◌, Outcome, done, panic, slice_bounds, ◌>>=◌, ok, err,
}
use microservice_game_servic.Base.Int.{ℤ}
use microservice_game_servic.Bus.Codec.{
  Broadcast, encode_broadcast, decode_broadcast, encode_kick, decode_kick,
}

-- What a bus calls when a message from another instance arrives, over the handler's state.
pub record BusHandler {ℓ} (S : Type ℓ) : Type ℓ where
  pub on_broadcast : Bytes → Bytes → ℤ → S → Outcome S
  pub on_kick_user : ℤ → S → Outcome S

abbrev pub msg_type_broadcast : ℕ
msg_type_broadcast = 1

abbrev pub msg_type_kick : ℕ
msg_type_kick = 2

pub data Channel : Type 0 where
  chan_broadcast chan_kick_user : Channel

pub record Message : Type 0 where
  pub channel : Channel
  pub payload : Bytes

-- `parse_uuid` stands for uuid.Parse followed by the copy of its 16 bytes.
module _ (parse_uuid : Bytes → Bytes) where
  abbrev pub node_id_bytes : Bytes → Bytes
  node_id_bytes node_id = parse_uuid node_id

  abbrev pub publish : Bytes → Channel → ℕ → Bytes → Message
  publish node_id channel msg_type body = record {
    channel = channel;
    payload = node_id_bytes node_id ++ msg_type ∷ body;
  }

  unfoldable pub publish_broadcast : Bytes → Bytes → Bytes → ℤ → Message
  publish_broadcast node_id map_id payload exclude_user_id =
      publish node_id chan_broadcast msg_type_broadcast
        (encode_broadcast map_id payload exclude_user_id)

  unfoldable pub publish_kick_user : Bytes → ℤ → Message
  publish_kick_user node_id user_id =
      publish node_id chan_kick_user msg_type_kick (encode_kick user_id)

  module _ {ℓ} {S : Type ℓ} (handler : BusHandler S) where
    abbrev pub dispatch_broadcast : Bytes → S → Outcome S
    dispatch_broadcast body s = decode_broadcast body >>= elim [
      | ok b ↦ handler.on_broadcast b.map_id b.payload b.exclude_user_id s
      | err _ ↦ done s
    ]

    abbrev pub dispatch_kick : Bytes → S → Outcome S
    dispatch_kick body s =
        decode_kick body >>= elim [ ok user_id ↦ handler.on_kick_user user_id s | err _ ↦ done s ]

    -- The `switch` on `payload[16]`.
    abbrev pub dispatch_body : Bytes → S → Outcome S
    dispatch_body [] s = panic slice_bounds
    dispatch_body (msg_type ∷ body) s =
        if msg_type == msg_type_broadcast
        then dispatch_broadcast body s
        else (if msg_type == msg_type_kick then dispatch_kick body s else done s)

    unfoldable pub dispatch : Bytes → Bytes → S → Outcome S
    dispatch node_id payload s =
        if ltb (length payload) 17
        then done s
        else (if take 16 payload == node_id_bytes node_id
            then done s
            else dispatch_body (drop 16 payload) s)
