-- ===== src/Bus/Nats/Wire/Same.antt =====
-- The two buses speak one language.
use mathlib.Core.Path.{fun_ext}
use microservice_game_servic.Base.{
  Outcome, done, if◌then◌else◌, ◌≡◌, refl, ap, [], ◌∷◌, Bytes, length, ltb, take, drop, ◌==◌,
  bytes_comparable, nat_comparable,
}
use microservice_game_servic.Base.Int.{ℤ}
use mathlib.Core.List.{append_assoc}
use microservice_game_servic.Bus.Codec.{encode_broadcast, encode_kick}
use microservice_game_servic.Bus.Wire as Redis
use microservice_game_servic.Bus.Wire.{BusHandler, msg_type_broadcast, msg_type_kick}
use microservice_game_servic.Bus.Nats.Wire as Nats
use microservice_game_servic.Bus.Nats.Wire.{Subject}

dispatch_body_lem {ℓ} :
    (parse_uuid : Bytes → Bytes) {S : Type ℓ} (handler : BusHandler S) (s : S) (body : Bytes)
    → Nats.dispatch_body parse_uuid handler body s ≡ Redis.dispatch_body parse_uuid handler body s
unfolding Nats.dispatch_body Nats.dispatch_type
dispatch_body_lem parse_uuid handler s [] = refl
dispatch_body_lem parse_uuid handler s (t ∷ body) = refl

module _ (parse_uuid : Bytes → Bytes) where
  -- The payloads that the NATS bus publishes are those of the Redis bus, and what it does with a
  -- payload is what the Redis bus does, for every handler, node id and payload, panics included.
  pub nats_wire_lem {ℓ} :
      {S : Type ℓ} (handler : BusHandler S) (node_id map_id content payload : Bytes) (u : ℤ) (s : S)
      → ((Nats.publish_broadcast parse_uuid node_id map_id content u).payload
          ≡ (Redis.publish_broadcast parse_uuid node_id map_id content u).payload)
        × ((Nats.publish_kick_user parse_uuid node_id u).payload
            ≡ (Redis.publish_kick_user parse_uuid node_id u).payload)
        × (Nats.dispatch parse_uuid handler node_id payload s
            ≡ Redis.dispatch parse_uuid handler node_id payload s)
  unfolding Nats.publish_broadcast Nats.publish_kick_user Nats.publish Redis.publish_broadcast
      Redis.publish_kick_user Nats.dispatch Redis.dispatch Nats.dispatch_body Nats.dispatch_type
  nats_wire_lem handler node_id map_id content payload u s = (
    append_assoc (parse_uuid node_id) (msg_type_broadcast ∷ []) (encode_broadcast map_id content u),
    append_assoc (parse_uuid node_id) (msg_type_kick ∷ []) (encode_kick u),
    ap
        (λ (f : Bytes → Outcome _).
          if ltb (length payload) 17
          then done s
          else (if take 16 payload == parse_uuid node_id then done s else f (drop 16 payload)))
        (fun_ext (dispatch_body_lem parse_uuid handler s)),
  )
