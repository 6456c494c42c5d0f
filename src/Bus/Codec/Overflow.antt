-- ===== src/Bus/Codec/Overflow.antt =====
-- Where the uint16 sum in decodeBroadcast of internal/infra/bus/redis.go wraps.
use microservice_game_servic.Base.{
  ℕ, ◌+◌, ◌*◌, ◌^◌, ◌<◌, ◌≡◌, Bool, true, false, leb, ◌∷◌, length, Bytes, lt→ltb, arith, Outcome,
  done, panic, err,
}
use microservice_game_servic.Bus.Codec.{broadcast_too_short, decode_broadcast}

abbrev pub panics {ℓ} : {A : Type ℓ} → Outcome A → Bool
panics (done _) = false
panics (panic _) = true

-- decodeBroadcast panics on exactly those bodies whose length field is 65530 or more; with a
-- smaller field it decodes the body or refuses it with an error.
pub panics-decode_broadcast :
    (a b c d e f : ℕ) (rest : Bytes)
    → e < 256
    → f < 256
    → panics (decode_broadcast (a ∷ b ∷ c ∷ d ∷ e ∷ f ∷ rest)) ≡ leb 65530 (e * 2 ^ 8 + f)
unfolding decode_broadcast
panics-decode_broadcast a b c d e f rest he hf = ground arith

-- Below six bytes it answers with an error.
decode_broadcast_short :
    (body : Bytes) → length body < 6 → decode_broadcast body ≡ done (err broadcast_too_short)
unfolding decode_broadcast
decode_broadcast_short body h = rw (lt→ltb (length body) 6 h)
