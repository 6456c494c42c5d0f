-- ===== src/Tests/Player.antt =====
-- The player service and the authenticator at sample data.
use mathlib.Core.Option
use microservice_game_servic.Base.{
  ℕ, zero, ap, ◌≡◌, refl, [], ◌∷◌, List, Bytes, Option, none, some, arith, suc, bytes_comparable,
  true, false, ◌∙◌, ◌==◌, if◌then◌else◌, Bool-cases, Option-cases, inl, inr, ascii,
}
use microservice_game_servic.Base.Int.{ℤ, pos, negsuc, int_comparable}
use microservice_game_servic.Base.Map.{lookup}
use microservice_game_servic.Player.Trangthai.{
  trangthai_to_string, string_to_trangthai, string_to_trangthai-trangthai_to_string,
}
use microservice_game_servic.Player.Service.{
  FieldValue, text, int, bool, Command, set_nx, hset, PlayerMoveWithId, player_key, move_fields,
  handle_move_batch,
}
use microservice_game_servic.Player.Service.Flush.{
  or_else, written, last_move, get_field-handle_move_batch,
}
use microservice_game_servic.Tests.Samples.{sample_move}

string_to_trangthai-trangthai_to_string_test : string_to_trangthai (trangthai_to_string 4) ≡ 4
string_to_trangthai-trangthai_to_string_test = string_to_trangthai-trangthai_to_string 4

-- Numbers in unary, after a sign.
unary : ℕ → Bytes
unary zero = []
unary (suc n) = 49 ∷ unary n

format : ℤ → Bytes
format (pos n) = 43 ∷ unary n
format (negsuc n) = 45 ∷ unary n

unary_injective : (m n : ℕ) → unary m ≡ unary n → m ≡ n
unfolding unary
unary_injective zero zero e = refl
unary_injective zero (suc n) e = cc
unary_injective (suc m) zero e = cc
unary_injective (suc m) (suc n) e =
    let rest : unary m ≡ unary n = cc in ap suc (unary_injective m n rest)

format_injective : (u v : ℤ) → format u ≡ format v → u ≡ v
unfolding format
format_injective (pos m) (pos n) e =
    let rest : unary m ≡ unary n = cc in ap pos (unary_injective m n rest)
format_injective (negsuc m) (negsuc n) e =
    let rest : unary m ≡ unary n = cc in ap negsuc (unary_injective m n rest)
format_injective (pos m) (negsuc n) e =
    let clash : ◌≡◌ {A = ℕ} 43 45 = cc in absurd (omega (arith, clash))
format_injective (negsuc m) (pos n) e =
    let clash : ◌≡◌ {A = ℕ} 45 43 = cc in absurd (omega (arith, clash))

-- The client's conversion of values to text.
to_arg : FieldValue → Bytes
to_arg (text t) = t
to_arg (int n) = format n
to_arg (bool true) = 49 ∷ []
to_arg (bool false) = 48 ∷ []

-- A Redis with its strings and, by key and field, its hashes.
record Redis : Type 0 where
  strings : Bytes → Option ℕ
  hashes : Bytes → Bytes → Option Bytes

exec_one : Command → Redis → Redis
exec_one (set_nx key value ttl) redis = record redis {
  strings = λ k. or_else (redis.strings k) (if k == key then some value else none);
}
exec_one (hset k fields) redis = record redis {
  hashes = λ key field.
      or_else (if k == key then Option.map to_arg (lookup field fields) else none)
        (redis.hashes key field);
}

exec_all : List Command → Redis → Redis
exec_all [] redis = redis
exec_all (c ∷ cs) redis = exec_all cs (exec_one c redis)

exec : List Command → Redis → Option ℕ × Redis
exec cs redis = (none, exec_all cs redis)

abbrev get_field : Bytes → Bytes → Redis → Option Bytes
get_field key field redis = redis.hashes key field

get_field-exec_all :
    (cs : List Command) (redis : Redis) (key field : Bytes)
    → get_field key field (exec_all cs redis)
      ≡ or_else (Option.map to_arg (written key field cs)) (get_field key field redis)
unfolding exec_all exec_one written
get_field-exec_all [] redis key field = refl
get_field-exec_all (set_nx k value ttl ∷ cs) redis key field =
    get_field-exec_all cs (exec_one (set_nx k value ttl) redis) key field
get_field-exec_all (hset k fields ∷ cs) redis key field =
    get_field-exec_all cs (exec_one (hset k fields) redis) key field
    ∙ elim (Option-cases (written key field cs)) [
      | inl e ↦ rw e (elim (Bool-cases (k == key)) [ inl own ↦ rw own | inr other ↦ rw other ])
      | inr (w, e) ↦ rw e
    ]

get_field-exec :
    (cs : List Command) (redis : Redis) (key field : Bytes)
    → (exec cs redis).0 ≡ none
    → get_field key field (exec cs redis).1
      ≡ or_else (Option.map to_arg (written key field cs)) (get_field key field redis)
unfolding exec
get_field-exec cs redis key field e = get_field-exec_all cs redis key field

abbrev empty : Redis
empty = record { strings = λ k. none; hashes = λ key field. none }

abbrev batch : List PlayerMoveWithId
batch =
    record { user_id = pos 5; move = sample_move }
    ∷ record { user_id = pos 7; move = sample_move }
    ∷ []

get_field-handle_move_batch_example :
    get_field
      (player_key format (pos 5))
      (ascii "dir")
      (handle_move_batch format unary exec 100 batch empty).1
    ≡ or_else
        (Option.map to_arg (elim (last_move (pos 5) batch) [
          | none ↦ none
          | some m ↦ lookup (ascii "dir") (move_fields unary m)
        ]))
        (get_field (player_key format (pos 5)) (ascii "dir") empty)
unfolding exec handle_move_batch
get_field-handle_move_batch_example =
    get_field-handle_move_batch format unary exec format_injective to_arg get_field get_field-exec
      100 batch empty (pos 5) (ascii "dir") refl
