-- ===== src/State/MapState.antt =====
-- MapState of internal/game/state/manager.go. Its lock makes each method one step. No method
-- lets a pointer into `players` escape, so the entries are values.
pub mod Dirty
pub mod Unordered
use microservice_game_servic.Base.{
  ℕ, Bool, true, false, List, [], ◌∷◌, Bytes, Option, none, some, length, nat_beq, if◌then◌else◌,
}
use microservice_game_servic.Base.Int.{ℤ, int_comparable}
use microservice_game_servic.Base.Map.{Map, lookup, insert, erase, has_key}
use microservice_game_servic.Protocol.{PlayerMove}
use microservice_game_servic.State.PlayerState.{PlayerState, new_player, apply_move}

pub record MapState : Type 0 where
  pub map_id : Bytes
  pub players : Map ℤ PlayerState

unfoldable pub new_map_state : Bytes → MapState
new_map_state map_id = record { map_id = map_id; players = [] }

-- The entry of a player, made where there is none.
unfoldable pub entry : ℤ → MapState → PlayerState
entry user_id ms = elim (lookup user_id ms.players) [
  | some p ↦ p
  | none ↦ new_player user_id ms.map_id
]

unfoldable pub update_from_move : ℕ → ℤ → PlayerMove → MapState → MapState
update_from_move now user_id m ms = record ms {
  players = insert user_id (apply_move now m (entry user_id ms)) ms.players;
}

unfoldable pub is_empty : MapState → Bool
is_empty ms = nat_beq (length ms.players) 0

unfoldable pub remove_player : ℤ → MapState → MapState × Bool
remove_player user_id ms =
    if has_key user_id ms.players
    then (record ms { players = erase user_id ms.players }, true)
    else (ms, false)

abbrev pub clear_dirty : PlayerState → PlayerState
clear_dirty p = record p { dirty = false }

abbrev pub clear_redis : PlayerState → PlayerState
clear_redis p = record p { redis_dirty = false }

-- The loop of CollectDirty: the copies that it appends, and the entries that it leaves.
unfoldable pub collect_loop : Map ℤ PlayerState → List PlayerState × Map ℤ PlayerState
collect_loop [] = ([], [])
collect_loop ((u, p) ∷ ps) =
    let (dirty, rest) = collect_loop ps in
    if p.dirty then (p ∷ dirty, (u, clear_dirty p) ∷ rest) else (dirty, (u, p) ∷ rest)

unfoldable pub collect_dirty : MapState → List PlayerState × MapState
collect_dirty ms =
    let (dirty, players) = collect_loop ms.players in (dirty, record ms { players = players })

-- One round of the loop of CollectDirtyBoth: the broadcast copy is taken first, so the copy for
-- Redis is taken from an entry whose `dirty` is false already.
abbrev pub collect_one :
    PlayerState
    → List PlayerState × List PlayerState
    → List PlayerState × List PlayerState × PlayerState
collect_one p (broadcast, redis) =
    let q = if p.dirty then clear_dirty p else p in
    let broadcast' = if p.dirty then p ∷ broadcast else broadcast in
    if q.redis_dirty then (broadcast', q ∷ redis, clear_redis q) else (broadcast', redis, q)

unfoldable pub collect_both_loop :
    Map ℤ PlayerState → List PlayerState × List PlayerState × Map ℤ PlayerState
collect_both_loop [] = ([], [], [])
collect_both_loop ((u, p) ∷ ps) =
    let (broadcast, redis, rest) = collect_both_loop ps in
    let (broadcast', redis', q) = collect_one p (broadcast, redis) in
    (broadcast', redis', (u, q) ∷ rest)

unfoldable pub collect_dirty_both : MapState → List PlayerState × List PlayerState × MapState
collect_dirty_both ms =
    let (broadcast, redis, players) = collect_both_loop ms.players in
    (broadcast, redis, record ms { players = players })
