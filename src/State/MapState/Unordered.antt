-- ===== src/State/MapState/Unordered.antt =====
-- Go leaves the order in which CollectDirtyBoth of internal/game/state/manager.go goes through the
-- players open.
use mathlib.Core.List.{Permᴰ}
use mathlib.Core.List.Permᴰ as Permᴰ
use microservice_game_servic.Base.Int.{ℤ}
use microservice_game_servic.Base.Orders.{select-Permᴰ}
use microservice_game_servic.State.PlayerState.{PlayerState}
use microservice_game_servic.State.MapState.{
  MapState, clear_dirty, collect_dirty, collect_dirty_both,
}
use microservice_game_servic.State.MapState.Dirty.{collect_dirty_lem, collect_dirty_both_lem}

-- Two maps with the same players, in any order, hand out the same players for the broadcast and
-- for Redis, in some order, and leave the same players behind, in some order.
pub collect_dirty_both_unordered :
    (ms ns : MapState)
    → Permᴰ ms.players ns.players
    → Permᴰ (collect_dirty ms).0 (collect_dirty ns).0
      × Permᴰ (collect_dirty ms).1.players (collect_dirty ns).1.players
      × Permᴰ (collect_dirty_both ms).0 (collect_dirty_both ns).0
      × Permᴰ (collect_dirty_both ms).1 (collect_dirty_both ns).1
      × Permᴰ (collect_dirty_both ms).2.players (collect_dirty_both ns).2.players
collect_dirty_both_unordered ms ns p =
    let values : Permᴰ _ _ = Permᴰ.map (λ (e : ℤ × PlayerState). e.1) p in
    rw (collect_dirty_lem, collect_dirty_lem, collect_dirty_both_lem, collect_dirty_both_lem)
      (
        select-Permᴰ (λ q. q.dirty) values,
        Permᴰ.map _ p,
        select-Permᴰ (λ q. q.dirty) values,
        Permᴰ.map clear_dirty (select-Permᴰ (λ q. q.redis_dirty) values),
        Permᴰ.map _ p,
      )
