-- ===== src/System/Limits/Ticks.antt =====
-- The tick loop of internal/game/loop/ticker.go queues jobs only for the names of maps in memory.
use microservice_game_servic.Base.{
  ℕ, ◌≡◌, sym, ap, refl, Bool, true, false, List, [], ◌∷◌, Bytes, Option, inl, inr, done, bind_done,
  done_injective,
}
use microservice_game_servic.Protocol.{Envelope}
use microservice_game_servic.Player.Service.{PlayerMoveWithId}
use microservice_game_servic.State.MapState.{collect_dirty, collect_dirty_both}
use microservice_game_servic.State.Manager.{Manager, map_at, all_maps}
use microservice_game_servic.State.Manager.Names.{ShortNames, write_at-ShortNames}
use microservice_game_servic.Ws.Handler.{Game}
use microservice_game_servic.Ws.Loops.{max_message_size}
use microservice_game_servic.Loop.Ticker.{Ticker, Event, collect_at, tick_map, tick_maps, run}
use microservice_game_servic.Loop.Ticker.Kept.{tick_map_done, run_keeps}
use microservice_game_servic.System.Limits.{Short}
use microservice_game_servic.System.Limits.Jobs.{broadcast_to_map-ShortJobs}

collect_at-ShortNames :
    (n : ℕ) (both : Bool) (r : ℕ) (m : Manager)
    → ShortNames n m
    → ShortNames n (collect_at both r m).2
unfolding collect_at collect_dirty collect_dirty_both
collect_at-ShortNames n true r m s = write_at-ShortNames n r _ m refl s
collect_at-ShortNames n false r m s = write_at-ShortNames n r _ m refl s

module _ (marshal : Envelope → Option Bytes) where
  tick_map-Short :
      (now : ℕ) (do_flush : Bool) (r : ℕ) (moves moves' : List PlayerMoveWithId) (g g' : Game)
      → Short g
      → tick_map marshal now do_flush r moves g ≡ done (moves', g')
      → Short g'
  tick_map-Short now do_flush r moves moves' g g' s e =
      let m : Manager = (collect_at do_flush r g.manager).2 in
      let names : ShortNames max_message_size m =
        collect_at-ShortNames max_message_size do_flush r g.manager s.names in
      elim (tick_map_done marshal now do_flush r moves moves' g g' e) [
        | inl alone ↦ rw alone (record { names = names; jobs = s.jobs })
        | inr (packet, hub, broadcast, both) ↦ rw both (record {
          names = names;
          jobs =
              broadcast_to_map-ShortJobs max_message_size (map_at r m).map_id packet g.hub hub
                (names r) s.jobs broadcast;
        })
      ]

  tick_maps-Short :
      (clock : ℕ → ℕ) (do_flush : Bool) (rs : List ℕ) (moves moves' : List PlayerMoveWithId)
      (g g' : Game)
      → Short g
      → tick_maps marshal clock do_flush rs moves g ≡ done (moves', g')
      → Short g'
  unfolding tick_maps
  tick_maps-Short clock do_flush [] moves moves' g g' s e =
      rw (sym (ap (λ p. p.1) (done_injective e))) s
  tick_maps-Short clock do_flush (r ∷ rs) moves moves' g g' s e =
      let ((moves1, g1), one, rest) =
        bind_done (tick_map marshal (clock r) do_flush r moves g)
          (λ p. tick_maps marshal clock do_flush rs p.0 p.1) (moves', g') e in
      tick_maps-Short clock do_flush rs moves1 moves' g1 g'
        (tick_map-Short (clock r) do_flush r moves moves1 g g1 s one) rest

  -- A run of the tick loop that returns queues only jobs with short names.
  pub run-Short :
      (events : List Event) (t t' : Ticker) (g g' : Game) (batches : List (List PlayerMoveWithId))
      → Short g
      → run marshal events t g ≡ done (batches, t', g')
      → Short g'
  run-Short = run_keeps marshal Short (λ clock do_flush moves' g1 g2 s looped.
      tick_maps-Short clock do_flush (all_maps g1.manager) [] moves' g1 g2 s looped)
