-- ===== src/Tests/Bus.antt =====
-- Bus messages at sample data.
use microservice_game_servic.Base.{
  ℕ, ◌≡◌, ◌≢◌, refl, true, [], ◌∷◌, Bytes, arith, length, done, ok, bytes_comparable,
}
use microservice_game_servic.Base.Int.{pos, negsuc}
use microservice_game_servic.Bus.Codec.{
  encode_broadcast, decode_broadcast, encode_kick, decode_kick,
}
use microservice_game_servic.Bus.Codec.RoundTrip.{
  decode_broadcast-encode_broadcast, decode_kick-encode_kick,
}
use microservice_game_servic.Bus.Codec.Overflow.{panics, panics-decode_broadcast}
use microservice_game_servic.Bus.Wire.{publish_broadcast, publish_kick_user, dispatch}
use microservice_game_servic.Bus.Wire.Delivery.{
  dispatch-publish_own, dispatch-publish_broadcast, dispatch-publish_kick_user,
}
use microservice_game_servic.Ws.Hub.{hub_handler}
use microservice_game_servic.Tests.Samples.{map_a, in_a}

decode_broadcast-encode_broadcast_test :
    decode_broadcast (encode_broadcast map_a (1 ∷ 2 ∷ []) (negsuc 4))
    ≡ done (ok (record { map_id = map_a; payload = 1 ∷ 2 ∷ []; exclude_user_id = negsuc 4 }))
decode_broadcast-encode_broadcast_test =
    decode_broadcast-encode_broadcast map_a (1 ∷ 2 ∷ []) (negsuc 4) (omega arith) (omega arith)

decode_kick-encode_kick_test : decode_kick (encode_kick (pos 5)) ≡ done (ok (pos 5))
decode_kick-encode_kick_test = decode_kick-encode_kick (pos 5) (omega arith)

panics-decode_broadcast_example : panics (decode_broadcast (0 ∷ 0 ∷ 0 ∷ 0 ∷ 255 ∷ 250 ∷ [])) ≡ true
panics-decode_broadcast_example =
    panics-decode_broadcast 0 0 0 0 255 250 [] (omega arith) (omega arith)

-- A node id in the form in which every byte of the 16 is its first one.
sixteen : ℕ → Bytes
sixteen b = b ∷ b ∷ b ∷ b ∷ b ∷ b ∷ b ∷ b ∷ b ∷ b ∷ b ∷ b ∷ b ∷ b ∷ b ∷ b ∷ []

pub parse_id : Bytes → Bytes
parse_id [] = sixteen 0
parse_id (b ∷ _) = sixteen b

pub length-parse_id : (s : Bytes) → length (parse_id s) ≡ 16
unfolding parse_id sixteen
length-parse_id [] = refl
length-parse_id (b ∷ _) = refl

pub ids_differ : parse_id (2 ∷ []) ≢ parse_id (1 ∷ [])
unfolding parse_id sixteen
ids_differ e = let first : ◌≡◌ {A = ℕ} 2 1 = cc in absurd (omega (arith, first))

dispatch-publish_own_test :
    (dispatch parse_id hub_handler
        (1 ∷ [])
        (publish_broadcast parse_id (1 ∷ []) map_a (9 ∷ []) (pos 0)).payload
        in_a
      ≡ done in_a)
    × (dispatch parse_id hub_handler
          (1 ∷ [])
          (publish_kick_user parse_id (1 ∷ []) (pos 5)).payload
          in_a
        ≡ done in_a)
dispatch-publish_own_test =
    dispatch-publish_own parse_id length-parse_id hub_handler (1 ∷ []) map_a (9 ∷ []) (pos 0)
      (pos 5) in_a

dispatch-publish_broadcast_example :
    dispatch parse_id hub_handler
      (1 ∷ [])
      (publish_broadcast parse_id (2 ∷ []) map_a (9 ∷ []) (pos 0)).payload
      in_a
    ≡ hub_handler.on_broadcast map_a (9 ∷ []) (pos 0) in_a
dispatch-publish_broadcast_example =
    dispatch-publish_broadcast parse_id length-parse_id hub_handler (1 ∷ []) (2 ∷ []) map_a (9 ∷ [])
      (pos 0) in_a ids_differ (omega arith) (omega arith)

dispatch-publish_kick_user_test :
    dispatch parse_id hub_handler
      (1 ∷ [])
      (publish_kick_user parse_id (2 ∷ []) (pos 5)).payload
      in_a
    ≡ hub_handler.on_kick_user (pos 5) in_a
dispatch-publish_kick_user_test =
    dispatch-publish_kick_user parse_id length-parse_id hub_handler (1 ∷ []) (2 ∷ []) (pos 5) in_a
      ids_differ (omega arith)
