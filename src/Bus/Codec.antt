-- ===== src/Bus/Codec.antt =====
-- The bodies of bus messages: encodeBroadcast, decodeBroadcast, encodeKick and decodeKick of
-- internal/infra/bus/redis.go, with the functions of encoding/binary that they call.
pub mod RoundTrip
pub mod Overflow
use microservice_game_servic.Base.{
  ℕ, ◌+◌, ◌-◌, ◌*◌, ◌/◌, ◌%◌, ◌^◌, Bool, ◌&&◌, List, [], ◌∷◌, ◌++◌, length, take, drop, Bytes, ltb,
  leb, if◌then◌else◌, Outcome, done, panic, slice_bounds, ◌>>=◌, Result, ok, err,
}
use microservice_game_servic.Base.Int.{ℤ, to_uint32, of_uint32}

-- binary.BigEndian.PutUint32 and PutUint16.
abbrev pub put_uint32 : ℕ → Bytes
put_uint32 w = w / 2 ^ 24 % 256 ∷ w / 2 ^ 16 % 256 ∷ w / 2 ^ 8 % 256 ∷ w % 256 ∷ []

abbrev pub put_uint16 : ℕ → Bytes
put_uint16 w = w / 2 ^ 8 % 256 ∷ w % 256 ∷ []

-- binary.BigEndian.Uint32 and Uint16. On a shorter slice they panic; the callers test the length.
abbrev pub uint32 : Bytes → Outcome ℕ
uint32 (a ∷ b ∷ c ∷ d ∷ _) = done (a * 2 ^ 24 + b * 2 ^ 16 + c * 2 ^ 8 + d)
uint32 _ = panic slice_bounds

abbrev pub uint16 : Bytes → Outcome ℕ
uint16 (a ∷ b ∷ _) = done (a * 2 ^ 8 + b)
uint16 _ = panic slice_bounds

-- `bs[lo:hi]`, for `hi` up to the length of the slice.
abbrev pub slice : ℕ → ℕ → Bytes → Outcome Bytes
slice lo hi bs =
    if leb lo hi && leb hi (length bs)
    then done (take (hi - lo) (drop lo bs))
    else panic slice_bounds

pub record Broadcast : Type 0 where
  pub map_id : Bytes
  pub payload : Bytes
  pub exclude_user_id : ℤ

pub data DecodeError : Type 0 where
  broadcast_too_short broadcast_truncated kick_too_short : DecodeError

unfoldable pub encode_broadcast : Bytes → Bytes → ℤ → Bytes
encode_broadcast map_id payload exclude_user_id =
    put_uint32 (to_uint32 exclude_user_id)
    ++ (put_uint16 (length map_id % 2 ^ 16) ++ (map_id ++ payload))

-- The fields after the header, for `end` the index where the map's name ends.
abbrev pub decode_fields : ℕ → ℤ → Bytes → Outcome (Result DecodeError Broadcast)
decode_fields end exclude_user_id body = do
  map_id ← slice 6 end body
  payload ← slice end (length body) body
  done (ok (record { map_id = map_id; payload = payload; exclude_user_id = exclude_user_id }))

-- `6 + mapLen` is computed in uint16, so it wraps before it is converted to int.
abbrev pub fields_end : ℕ → ℕ
fields_end map_len = (6 + map_len) % 2 ^ 16

unfoldable pub decode_broadcast : Bytes → Outcome (Result DecodeError Broadcast)
decode_broadcast body =
    if ltb (length body) 6
    then done (err broadcast_too_short)
    else (uint32 body >>= λ exclude. uint16 (drop 4 body) >>= λ map_len.
        if ltb (length body) (fields_end map_len)
        then done (err broadcast_truncated)
        else decode_fields (fields_end map_len) (of_uint32 exclude) body)

unfoldable pub encode_kick : ℤ → Bytes
encode_kick user_id = put_uint32 (to_uint32 user_id)

unfoldable pub decode_kick : Bytes → Outcome (Result DecodeError ℤ)
decode_kick body =
    if ltb (length body) 4
    then done (err kick_too_short)
    else do user_id ← uint32 body; done (ok (of_uint32 user_id))
