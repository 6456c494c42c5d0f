-- ===== src/System/Runs/Ticking.antt =====
-- The tick loop as a run of the atomic steps: internal/game/loop/ticker.go.
use microservice_game_servic.Base.{
  ℕ, ◌<◌, ◌≡◌, sym, ap, List, [], ◌∷◌, Bytes, Bool, Option, length, inl, inr, done, bind_done,
  done_injective,
}
use microservice_game_servic.Base.Map.{values}
use microservice_game_servic.Protocol.{Envelope}
use microservice_game_servic.Player.Service.{PlayerMoveWithId}
use microservice_game_servic.State.Manager.{Manager, map_at, all_maps}
use microservice_game_servic.Ws.Conn.Sends.{AllBelow, AllBelow-grows}
use microservice_game_servic.Ws.Handler.{Game}
use microservice_game_servic.Loop.Ticker.{Ticker, Event, collect_at, tick_map, tick_maps, run}
use microservice_game_servic.Loop.Ticker.Flush.{values-AllBelow}
use microservice_game_servic.Loop.Ticker.Kept.{tick_map_done, run_keeps}
use microservice_game_servic.System.{collects, Reach, here}
use microservice_game_servic.System.Monotone.{Reach-grows}
use microservice_game_servic.System.Healthy.{Healthy, Steps-Healthy}
use microservice_game_servic.System.Runs.{Reach-trans, manager_step, broadcast_to_map-Reach}

module _ (marshal : Envelope → Option Bytes) where
  tick_map-Reach :
      (now : ℕ) (do_flush : Bool) (r : ℕ) (moves moves' : List PlayerMoveWithId) (g g' : Game)
      → Healthy g
      → r < length g.manager.heap
      → tick_map marshal now do_flush r moves g ≡ done (moves', g')
      → Reach g g'
  tick_map-Reach now do_flush r moves moves' g g' i lt e =
      let m : Manager = (collect_at do_flush r g.manager).2 in
      let collected : Reach g (record g { manager = m }) =
        manager_step (collects do_flush r g.manager lt) in
      elim (tick_map_done marshal now do_flush r moves moves' g g' e) [
        | inl alone ↦ rw alone collected
        | inr (packet, hub, broadcast, both) ↦ rw both (
            Reach-trans collected (
              broadcast_to_map-Reach (map_at r m).map_id packet g.hub hub m i.hub.consistent
                broadcast))
      ]

  tick_maps-Reach :
      (clock : ℕ → ℕ) (do_flush : Bool) (rs : List ℕ) (moves moves' : List PlayerMoveWithId)
      (g g' : Game)
      → Healthy g
      → AllBelow (length g.manager.heap) rs
      → tick_maps marshal clock do_flush rs moves g ≡ done (moves', g')
      → Reach g g'
  unfolding tick_maps
  tick_maps-Reach clock do_flush [] moves moves' g g' i b e =
      rw (sym (ap (λ p. p.1) (done_injective e))) here
  tick_maps-Reach clock do_flush (r ∷ rs) moves moves' g g' i b e =
      let ((moves1, g1), one, rest) =
        bind_done (tick_map marshal (clock r) do_flush r moves g)
          (λ p. tick_maps marshal clock do_flush rs p.0 p.1) (moves', g') e in
      let first : Reach g g1 = tick_map-Reach (clock r) do_flush r moves moves1 g g1 i b.0 one in
      Reach-trans first (
        tick_maps-Reach clock do_flush rs moves1 moves' g1 g' (Steps-Healthy first i)
          (AllBelow-grows _ _ rs (Reach-grows first) b.1) rest)

  -- A run of the tick loop that does not panic, over a healthy instance, does nothing but the
  -- atomic steps of the instance.
  pub run-Reach :
      (events : List Event) (t t' : Ticker) (g g' : Game) (batches : List (List PlayerMoveWithId))
      → Healthy g
      → run marshal events t g ≡ done (batches, t', g')
      → Reach g g'
  unfolding all_maps
  run-Reach events t t' g g' batches i e =
      run_keeps marshal (Reach g)
        (λ clock do_flush moves' g1 g2 r looped.
          let i1 : Healthy g1 = Steps-Healthy r i in
          Reach-trans r (
            tick_maps-Reach clock do_flush (values g1.manager.maps) [] moves' g1 g2 i1
              (values-AllBelow (length g1.manager.heap) g1.manager.maps i1.sound.distinct
                i1.sound.in_heap)
              looped))
        events t t' g g' batches here e
