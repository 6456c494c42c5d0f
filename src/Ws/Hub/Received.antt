-- ===== src/Ws/Hub/Received.antt =====
-- What a payload from the bus makes of the hub of internal/transport/ws/hub.go.
use microservice_game_servic.Base.{
  ◌≡◌, ◌⊎◌, [], ◌∷◌, length, ltb, take, drop, Bytes, ◌==◌, bytes_comparable, nat_comparable,
  Bool-cases, Result-cases, inl, inr, done, bind_done, done_injective,
}
use microservice_game_servic.Base.Int.{ℤ}
use microservice_game_servic.Bus.Codec.{decode_broadcast, decode_kick}
use microservice_game_servic.Bus.Wire.{
  dispatch, dispatch_body, dispatch_broadcast, dispatch_kick, node_id_bytes, msg_type_broadcast,
  msg_type_kick,
}
use microservice_game_servic.Ws.Hub.{Hub, on_broadcast, on_kick_user, hub_handler}

-- The hub is left alone, or it broadcasts, or it kicks a user.
abbrev pub Acted : Hub → Hub → Type 0
Acted h h' =
    (h ≡ h')
    ⊎ ((k : Bytes) × (message : Bytes) × (u : ℤ) × (on_broadcast k message u h ≡ done h'))
    ⊎ ((u : ℤ) × (on_kick_user u h ≡ h'))

module _ (parse_uuid : Bytes → Bytes) where
  dispatch_broadcast_done :
      (body : Bytes) (h h' : Hub)
      → dispatch_broadcast parse_uuid hub_handler body h ≡ done h'
      → Acted h h'
  unfolding hub_handler
  dispatch_broadcast_done body h h' e =
      let (read, decoded, acted) = bind_done (decode_broadcast body) _ h' e in
      elim (Result-cases read) [
        | inl (f, bad) ↦ let out : done h ≡ done h' = rw bad at acted in inl (done_injective out)
        | inr (b, good) ↦ inr (inl (b.map_id, b.payload, b.exclude_user_id, rw good at acted))
      ]

  dispatch_kick_done :
      (body : Bytes) (h h' : Hub)
      → dispatch_kick parse_uuid hub_handler body h ≡ done h'
      → Acted h h'
  unfolding hub_handler
  dispatch_kick_done body h h' e =
      let (read, decoded, acted) = bind_done (decode_kick body) _ h' e in
      elim (Result-cases read) [
        | inl (f, bad) ↦ let out : done h ≡ done h' = rw bad at acted in inl (done_injective out)
        | inr (u, good) ↦
            let out : done (on_kick_user u h) ≡ done h' = rw good at acted in
            inr (inr (u, done_injective out))
      ]

  dispatch_body_done :
      (payload : Bytes) (h h' : Hub)
      → dispatch_body parse_uuid hub_handler payload h ≡ done h'
      → Acted h h'
  dispatch_body_done [] h h' e = cc
  dispatch_body_done (t ∷ body) h h' e = elim (Bool-cases (t == msg_type_broadcast)) [
    | inl b ↦ dispatch_broadcast_done body h h' (rw b at e)
    | inr nb ↦ elim (Bool-cases (t == msg_type_kick)) [
      | inl k ↦ dispatch_kick_done body h h' (rw (nb, k) at e)
      | inr nk ↦ let out : done h ≡ done h' = rw (nb, nk) at e in inl (done_injective out)
    ]
  ]

  -- A payload that does not make `dispatch` panic, whatever its bytes, is dropped, or it is a
  -- broadcast or a kick of the hub.
  pub dispatch_done :
      (node_id payload : Bytes) (h h' : Hub)
      → dispatch parse_uuid hub_handler node_id payload h ≡ done h'
      → Acted h h'
  unfolding dispatch
  dispatch_done node_id payload h h' e = elim (Bool-cases (ltb (length payload) 17)) [
    | inl short ↦ let out : done h ≡ done h' = rw short at e in inl (done_injective out)
    | inr long ↦ elim (Bool-cases (take 16 payload == node_id_bytes parse_uuid node_id)) [
      | inl echo ↦ let out : done h ≡ done h' = rw (long, echo) at e in inl (done_injective out)
      | inr other ↦ dispatch_body_done (drop 16 payload) h h' (rw (long, other) at e)
    ]
  ]
