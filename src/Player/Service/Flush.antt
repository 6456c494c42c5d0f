-- ===== src/Player/Service/Flush.antt =====
-- What a flush leaves in Redis, from the documented effect of HSET. Redis keeps text: `to_arg` is
-- the client's conversion of a value.
use mathlib.Core.Option
use microservice_game_servic.Base.{
  ℕ, ◌≡◌, refl, ◌∙◌, sym, ap, List, [], ◌∷◌, ◌++◌, Bytes, Option, none, some, map, ◌==◌, ==_refl,
  bytes_comparable, bytes_beq_iff, if◌then◌else◌, arith, Bool-cases, Option-cases, inl, inr, ascii,
}
use microservice_game_servic.Base.Int.{ℤ, int_comparable, int_beq_iff}
use microservice_game_servic.Base.Map.{Map, lookup}
use microservice_game_servic.Protocol.{Float32, PlayerMove}
use microservice_game_servic.Player.Service.{
  FieldValue, Command, set_nx, hset, PlayerMoveWithId, player_key, move_fields, move_commands,
  batch_commands, handle_move, handle_move_batch,
}

abbrev pub or_else {ℓ} : {A : Type ℓ} → Option A → Option A → Option A
or_else none b = b
or_else (some a) b = some a

-- The last value that a pipeline writes into a field of the hash at `key`.
unfoldable pub written : Bytes → Bytes → List Command → Option FieldValue
written key field [] = none
written key field (set_nx k value ttl ∷ cs) = written key field cs
written key field (hset k fields ∷ cs) =
    or_else (written key field cs) (if k == key then lookup field fields else none)

-- The move of a user that stands last in a batch.
unfoldable pub last_move : ℤ → List PlayerMoveWithId → Option PlayerMove
last_move u [] = none
last_move u (p ∷ ps) = or_else (last_move u ps) (if p.user_id == u then some p.move else none)

keys : Map Bytes FieldValue → List Bytes
keys = map (λ e. e.0)

-- Of two hashes with the same fields the earlier one is overwritten whole.
overwrite :
    (field : Bytes) (xs ys : Map Bytes FieldValue)
    → keys xs ≡ keys ys
    → or_else (lookup field xs) (lookup field ys) ≡ lookup field xs
unfolding lookup keys
overwrite field [] [] e = refl
overwrite field [] (y ∷ ys) e = cc
overwrite field ((k, v) ∷ xs) [] e = cc
overwrite field ((k, v) ∷ xs) ((j, w) ∷ ys) e =
    let same : k ≡ j = cc in
    let rest : keys xs ≡ keys ys = cc in
    elim (Bool-cases (k == field)) [
      | inl here ↦ rw here
      | inr there ↦ rw (there, sym (ap (λ n. n == field) same) ∙ there) (overwrite field xs ys rest)
    ]

module _ (format_float : Float32 → Bytes) where
  move_fields_overwrite :
      (field : Bytes) (m n : PlayerMove)
      → or_else
          (lookup field (move_fields format_float m))
          (lookup field (move_fields format_float n))
        ≡ lookup field (move_fields format_float m)
  unfolding move_fields keys
  move_fields_overwrite field m n =
      overwrite field (move_fields format_float m) (move_fields format_float n) refl

overwrite_none {ℓ} : {A : Type ℓ} (a : Option A) → or_else a none ≡ a
overwrite_none none = refl
overwrite_none (some a) = refl

append_cancel : (xs ys zs : Bytes) → xs ++ ys ≡ xs ++ zs → ys ≡ zs
append_cancel [] ys zs e = e
append_cancel (x ∷ xs) ys zs e = append_cancel xs ys zs cc

module _ {ℓ κ} {E : Type ℓ} {R : Type κ} (format_int : ℤ → Bytes) (format_float : Float32 → Bytes)
    (exec : List Command → R → Option E × R) where
  -- A batch of one player is HandleMove.
  pub handle_move_batch-handle_move :
      (now : ℕ) (u : ℤ) (m : PlayerMove) (redis : R)
      → handle_move_batch format_int format_float exec now
          (record { user_id = u; move = m } ∷ [])
          redis
        ≡ handle_move format_int format_float exec now u m redis
  unfolding handle_move_batch handle_move batch_commands move_commands
  handle_move_batch-handle_move now u m redis = refl

  module _ (format_int_injective : (u v : ℤ) → format_int u ≡ format_int v → u ≡ v) where
    player_key_beq : (u v : ℤ) → (player_key format_int u == player_key format_int v) ≡ (u == v)
    unfolding player_key
    player_key_beq u v = elim (Bool-cases (u == v)) [
      | inl e ↦ rw (e, (int_beq_iff u v).0 e) (==_refl (player_key format_int v))
      | inr e ↦ ground (
        arith,
        bytes_beq_iff (player_key format_int u) (player_key format_int v),
        append_cancel (ascii "GAME:PLAYER:") (format_int u) (format_int v),
        format_int_injective u v,
        int_beq_iff u v,
      )
    ]

    written-batch_commands :
        (now : ℕ) (u : ℤ) (field : Bytes) (ps : List PlayerMoveWithId)
        → written (player_key format_int u) field (batch_commands format_int format_float now ps)
          ≡ elim (last_move u ps) [
            | none ↦ none
            | some m ↦ lookup field (move_fields format_float m)
          ]
    unfolding written batch_commands last_move
    written-batch_commands now u field [] = refl
    written-batch_commands now u field (p ∷ ps) = elim (Option-cases (last_move u ps)) [
      | inl e ↦ elim (Bool-cases (p.user_id == u)) [
        | inl own ↦ rw (player_key_beq p.user_id u, written-batch_commands now u field ps, e, own)
        | inr other ↦
            rw (player_key_beq p.user_id u, written-batch_commands now u field ps, e, other)
      ]
      | inr (m, e) ↦ elim (Bool-cases (p.user_id == u)) [
        | inl own ↦
            rw (player_key_beq p.user_id u, written-batch_commands now u field ps, e, own)
              (move_fields_overwrite format_float field m p.move)
        | inr other ↦
            rw (player_key_beq p.user_id u, written-batch_commands now u field ps, e, other)
              (overwrite_none (lookup field (move_fields format_float m)))
      ]
    ]

    module _ (to_arg : FieldValue → Bytes) (get_field : Bytes → Bytes → R → Option Bytes)
        (get_field-exec : (cs : List Command) (redis : R) (key field : Bytes)
          → (exec cs redis).0 ≡ none
          → get_field key field (exec cs redis).1
            ≡ or_else (Option.map to_arg (written key field cs)) (get_field key field redis)) where
      -- A flush that reports no error leaves in the hash of each user of the batch the fields of
      -- the user's last move, each as the text that the client makes of its value, and the hash of
      -- every other user as it was, where `format_int` tells numbers apart, and a pipeline of HSET
      -- without an error leaves in each field the text of the last value written to it.
      pub get_field-handle_move_batch :
          (now : ℕ) (ps : List PlayerMoveWithId) (redis : R) (u : ℤ) (field : Bytes)
          → (handle_move_batch format_int format_float exec now ps redis).0 ≡ none
          → get_field
              (player_key format_int u)
              field
              (handle_move_batch format_int format_float exec now ps redis).1
            ≡ or_else
                (Option.map to_arg (elim (last_move u ps) [
                  | none ↦ none
                  | some m ↦ lookup field (move_fields format_float m)
                ]))
                (get_field (player_key format_int u) field redis)
      unfolding handle_move_batch last_move
      get_field-handle_move_batch now [] redis u field h = refl
      get_field-handle_move_batch now (p ∷ ps) redis u field h =
          get_field-exec (batch_commands format_int format_float now (p ∷ ps)) redis
            (player_key format_int u) field h
          ∙ ap
              (λ w. or_else (Option.map to_arg w) (get_field (player_key format_int u) field redis))
              (written-batch_commands now u field (p ∷ ps))
