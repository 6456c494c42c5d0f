-- ===== src/Bus/Wire/Delivery.antt =====
-- What a message does at the instances that receive it.
use microservice_game_servic.Base.{
  ℕ, ◌<◌, ◌≡◌, ◌≢◌, ap, ◌∙◌, false, ◌∷◌, ◌++◌, length, take, drop, Bytes, length-append,
  take-length-append, drop-length-append, ◌==◌, ==_refl, bytes_comparable, bytes_beq_iff,
  Bool-cases, inl, inr, bytes_beq, le→ltb_false, arith, sym, if◌then◌else◌, done,
}
use microservice_game_servic.Base.Int.{ℤ, IsInt32}
use microservice_game_servic.Bus.Codec.RoundTrip.{
  decode_broadcast-encode_broadcast, decode_kick-encode_kick,
}
use microservice_game_servic.Bus.Wire.{
  BusHandler, publish_broadcast, publish_kick_user, dispatch, dispatch_body,
}

not-beq : (a b : Bytes) → a ≢ b → bytes_beq a b ≡ false
not-beq a b h = elim (Bool-cases (bytes_beq a b)) [
  | inl e ↦ absurd (h ((bytes_beq_iff a b).0 e))
  | inr e ↦ e
]

module _ {ℓ} {S : Type ℓ} (parse_uuid : Bytes → Bytes)
    (length-parse_uuid : (s : Bytes) → length (parse_uuid s) ≡ 16) (handler : BusHandler S) where
  -- The header of 16 bytes decides between an echo and a message to act on.
  pub dispatch_header :
      (node_id from_id body : Bytes) (t : ℕ) (s : S)
      → dispatch parse_uuid handler node_id (parse_uuid from_id ++ t ∷ body) s ≡ (
          if parse_uuid from_id == parse_uuid node_id
          then done s
          else dispatch_body parse_uuid handler (t ∷ body) s)
  unfolding dispatch
  dispatch_header node_id from_id body t s = rw (
    le→ltb_false (length (parse_uuid from_id ++ t ∷ body)) 17
        (omega (arith, length-append (parse_uuid from_id) (t ∷ body), length-parse_uuid from_id)),
    ap (λ n. take n (parse_uuid from_id ++ t ∷ body)) (sym (length-parse_uuid from_id))
        ∙ take-length-append (parse_uuid from_id) (t ∷ body),
    ap (λ n. drop n (parse_uuid from_id ++ t ∷ body)) (sym (length-parse_uuid from_id))
        ∙ drop-length-append (parse_uuid from_id) (t ∷ body),
  )

  -- An instance ignores what it published itself, where a node id has 16 bytes: a broadcast and
  -- a kick leave its state as it is.
  pub dispatch-publish_own :
      (node_id map_id payload : Bytes) (exclude user_id : ℤ) (s : S)
      → (dispatch parse_uuid handler node_id
            (publish_broadcast parse_uuid node_id map_id payload exclude).payload
            s
          ≡ done s)
        × (dispatch parse_uuid handler node_id
              (publish_kick_user parse_uuid node_id user_id).payload
              s
            ≡ done s)
  unfolding publish_broadcast publish_kick_user
  dispatch-publish_own node_id map_id payload exclude user_id s = (
    rw (dispatch_header, ==_refl (parse_uuid node_id)),
    rw (dispatch_header, ==_refl (parse_uuid node_id)),
  )

  -- Another instance calls its handler with the arguments that were published, where the node ids
  -- differ, the excluded user id is an int32 and the map's name is shorter than 65530 bytes.
  pub dispatch-publish_broadcast :
      (node_id from_id map_id payload : Bytes) (exclude : ℤ) (s : S)
      → parse_uuid from_id ≢ parse_uuid node_id
      → IsInt32 exclude
      → length map_id < 65530
      → dispatch parse_uuid handler node_id
          (publish_broadcast parse_uuid from_id map_id payload exclude).payload
          s
        ≡ handler.on_broadcast map_id payload exclude s
  unfolding publish_broadcast
  dispatch-publish_broadcast node_id from_id map_id payload exclude s other hi hm = rw (
    dispatch_header,
    not-beq _ _ other,
    decode_broadcast-encode_broadcast map_id payload exclude hi hm,
  )

  -- A kick calls the handler of another instance with the user that was published, where the node
  -- ids differ and the user id is an int32.
  pub dispatch-publish_kick_user :
      (node_id from_id : Bytes) (user_id : ℤ) (s : S)
      → parse_uuid from_id ≢ parse_uuid node_id
      → IsInt32 user_id
      → dispatch parse_uuid handler node_id (publish_kick_user parse_uuid from_id user_id).payload s
        ≡ handler.on_kick_user user_id s
  unfolding publish_kick_user
  dispatch-publish_kick_user node_id from_id user_id s other hi =
      rw (dispatch_header, not-beq _ _ other, decode_kick-encode_kick user_id hi)
