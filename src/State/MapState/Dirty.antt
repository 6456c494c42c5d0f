-- ===== src/State/MapState/Dirty.antt =====
-- What the tick loop collects from a map: CollectDirty and CollectDirtyBoth of
-- internal/game/state/manager.go.
use mathlib.Core.List.{Memᴰ}
use mathlib.Core.Option
use microservice_game_servic.Base.{
  ℕ, ◌≡◌, refl, ap, ◌∙◌, [], ◌∷◌, map, some, select, Bool-cases, inl, inr, ==_refl,
}
use microservice_game_servic.Base.Int.{ℤ, int_comparable}
use microservice_game_servic.Base.Map.{
  Map, lookup, lookup-insert, values, map_values, select-map_values, select-lookup,
  lookup-map_values, Memᴰ-map,
}
use microservice_game_servic.Protocol.{PlayerMove}
use microservice_game_servic.State.PlayerState.{PlayerState, apply_move}
use microservice_game_servic.State.MapState.{
  MapState, entry, update_from_move, clear_dirty, clear_redis, collect_loop, collect_dirty,
  collect_both_loop, collect_dirty_both,
}

collect_loop_lem :
    (ps : Map ℤ PlayerState)
    → collect_loop ps ≡ (select (λ p. p.dirty) (values ps), map_values clear_dirty ps)
unfolding collect_loop
collect_loop_lem [] = refl
collect_loop_lem ((u, p) ∷ ps) = elim (Bool-cases p.dirty) [
  | inl d ↦ rw (collect_loop_lem ps, d)
  | inr d ↦ rw (collect_loop_lem ps, d)
]

-- CollectDirty hands out the entries whose flag is set, and clears that flag on every entry; the
-- flag for Redis and the moves stay as they were.
pub collect_dirty_lem :
    (ms : MapState)
    → collect_dirty ms ≡ (
      select (λ p. p.dirty) (values ms.players),
      record ms { players = map_values clear_dirty ms.players },
    )
unfolding collect_dirty
collect_dirty_lem ms = rw (collect_loop_lem ms.players)

collect_both_loop_lem :
    (ps : Map ℤ PlayerState)
    → collect_both_loop ps ≡ (
      select (λ p. p.dirty) (values ps),
      map clear_dirty (select (λ p. p.redis_dirty) (values ps)),
      map_values (λ p. clear_redis (clear_dirty p)) ps,
    )
unfolding collect_both_loop
collect_both_loop_lem [] = refl
collect_both_loop_lem ((u, p) ∷ ps) = elim (Bool-cases p.dirty) [
  | inl d ↦ elim (Bool-cases p.redis_dirty) [
    | inl r ↦ rw (collect_both_loop_lem ps, d, r)
    | inr r ↦ rw (collect_both_loop_lem ps, d, r)
  ]
  | inr d ↦ elim (Bool-cases p.redis_dirty) [
    | inl r ↦ rw (collect_both_loop_lem ps, d, r)
    | inr r ↦ rw (collect_both_loop_lem ps, d, r)
  ]
]

-- CollectDirtyBoth hands out both kinds of entries in one pass and clears both flags; the copies
-- for Redis have lost the flag for the broadcast.
pub collect_dirty_both_lem :
    (ms : MapState)
    → collect_dirty_both ms ≡ (
      select (λ p. p.dirty) (values ms.players),
      map clear_dirty (select (λ p. p.redis_dirty) (values ms.players)),
      record ms { players = map_values (λ p. clear_redis (clear_dirty p)) ms.players },
    )
unfolding collect_dirty_both
collect_dirty_both_lem ms = rw (collect_both_loop_lem ms.players)

-- The broadcast flag is cleared for good: a second CollectDirty with no move between finds nobody.
pub collect_dirty_twice : (ms : MapState) → (collect_dirty (collect_dirty ms).1).0 ≡ []
collect_dirty_twice ms =
    rw (collect_dirty_lem, collect_dirty_lem)
      (select-map_values clear_dirty (λ p. p.dirty) ms.players (λ p. refl))

lookup-update_from_move :
    (now : ℕ) (u : ℤ) (m : PlayerMove) (ms : MapState)
    → lookup u (update_from_move now u m ms).players ≡ some (apply_move now m (entry u ms))
unfolding update_from_move
lookup-update_from_move now u m ms = rw (lookup-insert, ==_refl u)

-- A move is in the next broadcast of its map, as it was applied.
pub collect_dirty-update_from_move :
    (now : ℕ) (u : ℤ) (m : PlayerMove) (ms : MapState)
    → Memᴰ (apply_move now m (entry u ms)) (collect_dirty (update_from_move now u m ms)).0
unfolding apply_move
collect_dirty-update_from_move now u m ms =
    rw collect_dirty_lem
      (select-lookup (λ p. p.dirty) u _ _ (lookup-update_from_move now u m ms) refl)

-- A broadcast between a move and the next flush does not lose the move for Redis: the flush still
-- hands it out.
pub collect_dirty_both-collect_dirty :
    (now : ℕ) (u : ℤ) (m : PlayerMove) (ms : MapState)
    → Memᴰ
        (clear_dirty (apply_move now m (entry u ms)))
        (collect_dirty_both (collect_dirty (update_from_move now u m ms)).1).1
unfolding apply_move
collect_dirty_both-collect_dirty now u m ms =
    rw (collect_dirty_both_lem, collect_dirty_lem)
      (Memᴰ-map clear_dirty (
        select-lookup (λ p. p.redis_dirty) u (clear_dirty (apply_move now m (entry u ms))) _
          (lookup-map_values clear_dirty u _
            ∙ ap (Option.map clear_dirty) (lookup-update_from_move now u m ms))
          refl))
