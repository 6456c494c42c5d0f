-- ===== src/State/PlayerState/Moves.antt =====
-- What a snapshot keeps of the move that it was made from.
use microservice_game_servic.Base.{ℕ, ◌≡◌, refl, arith}
use microservice_game_servic.Protocol.{PlayerMove}
use microservice_game_servic.State.PlayerState.{PlayerState, to_sync, to_move, apply_move}

-- A snapshot gives back the move that was applied to it, under the snapshot's own map.
pub to_move-apply_move :
    (now : ℕ) (m : PlayerMove) (p : PlayerState)
    → to_move (apply_move now m p) ≡ record m { map_id = p.map_id }
unfolding to_move apply_move
to_move-apply_move now m p = refl

-- A later move replaces an earlier one whole.
pub apply_move_twice :
    (now later : ℕ) (m n : PlayerMove) (p : PlayerState)
    → apply_move later n (apply_move now m p) ≡ apply_move later n p
unfolding apply_move
apply_move_twice now later m n p = refl

-- The packet that is broadcast depends on the player and the last move only.
pub to_sync-apply_move :
    (now later : ℕ) (m : PlayerMove) (p q : PlayerState)
    → p.user_id ≡ q.user_id
    → to_sync (apply_move now m p) ≡ to_sync (apply_move later m q)
unfolding to_sync apply_move
to_sync-apply_move now later m p q e = ground arith
