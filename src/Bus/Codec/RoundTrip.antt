-- ===== src/Bus/Codec/RoundTrip.antt =====
-- Decoding what was encoded.
use microservice_game_servic.Base.{
  ℕ, ◌+◌, ◌-◌, ◌*◌, ◌^◌, ◌≤◌, ◌<◌, ◌≡◌, refl, ap, ◌∙◌, [], ◌∷◌, ◌++◌, length, take, drop, Bytes,
  length-append, take-length-append, drop-length-append, le→leb, le→ltb_false, suc, arith, done, ok,
}
use microservice_game_servic.Base.Int.{ℤ, IsInt32, of_uint32, to_uint32-lt, of_uint32-to_uint32}
use microservice_game_servic.Bus.Codec.{
  encode_broadcast, decode_broadcast, encode_kick, decode_kick, put_uint32, put_uint16, uint32,
  uint16, slice, decode_fields, fields_end,
}

uint32-put_uint32 : (w : ℕ) (rest : Bytes) → w < 2 ^ 32 → uint32 (put_uint32 w ++ rest) ≡ done w
uint32-put_uint32 w rest h = ap done (omega arith)

uint16-put_uint16 : (w : ℕ) (rest : Bytes) → w < 2 ^ 16 → uint16 (put_uint16 w ++ rest) ≡ done w
uint16-put_uint16 w rest h = ap done (omega arith)

take-length : (xs : Bytes) → take (length xs) xs ≡ xs
take-length [] = refl
take-length (x ∷ xs) = ap (◌∷◌ x) (take-length xs)

slice_if :
    (lo hi : ℕ) (bs : Bytes)
    → lo ≤ hi
    → hi ≤ length bs
    → slice lo hi bs ≡ done (take (hi - lo) (drop lo bs))
slice_if lo hi bs p q = rw (le→leb lo hi p, le→leb hi (length bs) q)

-- The part between two prefixes.
slice-append :
    (xs ys zs : Bytes) → slice (length xs) (length xs + length ys) (xs ++ (ys ++ zs)) ≡ done ys
slice-append xs ys zs =
    slice_if (length xs) (length xs + length ys) (xs ++ (ys ++ zs)) (omega arith)
      (omega (arith, length-append xs (ys ++ zs), length-append ys zs))
    ∙ ap done (
        rw drop-length-append
          (ap (λ n. take n (ys ++ zs)) (omega arith) ∙ take-length-append ys zs))

decode_fields_lem :
    (a b c d e f : ℕ) (map_id payload : Bytes) (exclude : ℤ) (end : ℕ)
    → end ≡ 6 + length map_id
    → decode_fields end exclude (a ∷ b ∷ c ∷ d ∷ e ∷ f ∷ (map_id ++ payload))
      ≡ done (ok (record { map_id = map_id; payload = payload; exclude_user_id = exclude }))
decode_fields_lem a b c d e f map_id payload exclude end h = rw (h, first, second)
  where
    header : Bytes
    header = a ∷ b ∷ c ∷ d ∷ e ∷ f ∷ []

    header_end : 6 + length map_id ≡ suc (suc (suc (suc (suc (suc (length map_id))))))
    header_end = omega arith

    first : slice 6 (6 + length map_id) (a ∷ b ∷ c ∷ d ∷ e ∷ f ∷ (map_id ++ payload)) ≡ done map_id
    first = slice-append header map_id payload

    second :
        slice
          (6 + length map_id)
          (length (a ∷ b ∷ c ∷ d ∷ e ∷ f ∷ (map_id ++ payload)))
          (a ∷ b ∷ c ∷ d ∷ e ∷ f ∷ (map_id ++ payload))
        ≡ done payload
    second =
        slice_if (6 + length map_id) (length (a ∷ b ∷ c ∷ d ∷ e ∷ f ∷ (map_id ++ payload)))
          (a ∷ b ∷ c ∷ d ∷ e ∷ f ∷ (map_id ++ payload))
          (omega (arith, length-append map_id payload)) (omega arith)
        ∙ ap done (
            rw header_end (
              rw drop-length-append (
                ap (λ n. take n payload) (omega (arith, length-append map_id payload))
                ∙ take-length payload)))

-- A kick reaches the decoder as it was sent, where the user id is an int32.
pub decode_kick-encode_kick :
    (user_id : ℤ) → IsInt32 user_id → decode_kick (encode_kick user_id) ≡ done (ok user_id)
unfolding decode_kick encode_kick
decode_kick-encode_kick u h =
    ap (λ w. done (ok (of_uint32 w))) (omega (arith, to_uint32-lt u h))
    ∙ ap (λ v. done (ok v)) (of_uint32-to_uint32 u h)

decode_broadcast_lem :
    (a b c d e f : ℕ) (map_id payload : Bytes)
    → length map_id < 65530
    → e * 2 ^ 8 + f ≡ length map_id
    → decode_broadcast (a ∷ b ∷ c ∷ d ∷ e ∷ f ∷ (map_id ++ payload))
      ≡ done (
          ok (record {
            map_id = map_id;
            payload = payload;
            exclude_user_id = of_uint32 (a * 2 ^ 24 + b * 2 ^ 16 + c * 2 ^ 8 + d);
          }))
unfolding decode_broadcast
decode_broadcast_lem a b c d e f map_id payload h he =
    rw
      (
        le→ltb_false (length (a ∷ b ∷ c ∷ d ∷ e ∷ f ∷ (map_id ++ payload))) 6 (omega arith),
        he,
        le→ltb_false (length (a ∷ b ∷ c ∷ d ∷ e ∷ f ∷ (map_id ++ payload)))
            (fields_end (length map_id)) (omega (arith, length-append map_id payload)),
      )
      (decode_fields_lem a b c d e f map_id payload _ (fields_end (length map_id)) (omega arith))

-- A broadcast is decoded to what was encoded, where the user id is an int32 and the map's name is
-- shorter than 65530 bytes.
pub decode_broadcast-encode_broadcast :
    (map_id payload : Bytes) (exclude : ℤ)
    → IsInt32 exclude
    → length map_id < 65530
    → decode_broadcast (encode_broadcast map_id payload exclude)
      ≡ done (ok (record { map_id = map_id; payload = payload; exclude_user_id = exclude }))
unfolding decode_broadcast encode_broadcast
decode_broadcast-encode_broadcast map_id payload exclude hi hm =
    decode_broadcast_lem _ _ _ _ _ _ map_id payload hm (omega arith)
    ∙ ap (λ v. done (ok (record { map_id = map_id; payload = payload; exclude_user_id = v })))
        (ap of_uint32 (omega (arith, to_uint32-lt exclude hi)) ∙ of_uint32-to_uint32 exclude hi)
