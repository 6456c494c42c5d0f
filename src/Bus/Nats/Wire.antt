-- ===== src/Bus/Nats/Wire.antt =====
-- The messages of NATSBus in internal/infra/bus/nats.go, which has publish and dispatch once more,
-- and the message that another service sends when a player disconnects. `parse_uuid` stands for
-- uuid.Parse followed by the copy of its 16 bytes, and `unmarshal` for json.Unmarshal into the
-- struct of a user id and a map, `none` where it fails.
pub mod Same
use microservice_game_servic.Base.{
  ℕ, List, [], ◌∷◌, ◌++◌, length, take, drop, Bytes, ltb, ◌==◌, bytes_comparable, nat_comparable,
  if◌then◌else◌, Option, none, some, Outcome, done, panic, slice_bounds, ◌>>=◌, ok, err,
}
use microservice_game_servic.Base.Int.{ℤ}
use microservice_game_servic.Bus.Codec.{
  encode_broadcast, decode_broadcast, encode_kick, decode_kick, Broadcast,
}
use microservice_game_servic.Bus.Wire.{BusHandler, msg_type_broadcast, msg_type_kick}
use microservice_game_servic.State.Manager.{Manager, remove_player_from_map}

pub data Subject : Type 0 where
  subj_broadcast subj_kick_user : Subject

pub record Msg : Type 0 where
  pub subject : Subject
  pub payload : Bytes

module _ (parse_uuid : Bytes → Bytes) where
  unfoldable pub publish : Bytes → Subject → ℕ → Bytes → Msg
  publish node_id subject msg_type body = record {
    subject = subject;
    payload = parse_uuid node_id ++ msg_type ∷ [] ++ body;
  }

  unfoldable pub publish_broadcast : Bytes → Bytes → Bytes → ℤ → Msg
  publish_broadcast node_id map_id payload exclude_user_id =
      publish node_id subj_broadcast msg_type_broadcast
        (encode_broadcast map_id payload exclude_user_id)

  unfoldable pub publish_kick_user : Bytes → ℤ → Msg
  publish_kick_user node_id user_id =
      publish node_id subj_kick_user msg_type_kick (encode_kick user_id)

  module _ {ℓ} {S : Type ℓ} (handler : BusHandler S) where
    -- The `switch` on the message type.
    unfoldable pub dispatch_type : ℕ → Bytes → S → Outcome S
    dispatch_type msg_type body s =
        if msg_type == msg_type_broadcast
        then (decode_broadcast body >>= elim [
          | ok b ↦ handler.on_broadcast b.map_id b.payload b.exclude_user_id s
          | err _ ↦ done s
        ])
        else (if msg_type == msg_type_kick
            then (decode_kick body >>= elim [ ok u ↦ handler.on_kick_user u s | err _ ↦ done s ])
            else done s)

    unfoldable pub dispatch_body : Bytes → S → Outcome S
    dispatch_body [] s = panic slice_bounds
    dispatch_body (msg_type ∷ body) s = dispatch_type msg_type body s

    unfoldable pub dispatch : Bytes → Bytes → S → Outcome S
    dispatch node_id payload s =
        if ltb (length payload) 17
        then done s
        else (if take 16 payload == parse_uuid node_id
            then done s
            else dispatch_body (drop 16 payload) s)

-- What SubscribePlayerDisconnect runs on a message, with the callback that NewHub passes to it.
unfoldable pub on_disconnect : (Bytes → Option (ℤ × Bytes)) → Bytes → Manager → Manager
on_disconnect unmarshal message m = elim (unmarshal message) [
  | none ↦ m
  | some (user_id, map_id) ↦ remove_player_from_map map_id user_id m
]
