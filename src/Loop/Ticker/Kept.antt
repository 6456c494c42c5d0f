-- ===== src/Loop/Ticker/Kept.antt =====
-- What a run of the tick loop of internal/game/loop/ticker.go that returns has done: the rule by
-- which a fact about the game is carried through it.
use microservice_game_servic.Base.{
  ℕ, ◌≡◌, ◌&&◌, ◌⊎◌, sym, ap, Bool, List, [], ◌∷◌, ◌++◌, map, Bytes, Option, none, some, length,
  nat_beq, Bool-cases, Option-cases, inl, inr, done, bind_done, done_injective,
}
use microservice_game_servic.Protocol.{Envelope, player_sync_batch}
use microservice_game_servic.Player.Service.{PlayerMoveWithId}
use microservice_game_servic.State.PlayerState.{PlayerState}
use microservice_game_servic.State.Manager.{Manager, map_at, all_maps}
use microservice_game_servic.Ws.Hub.{Hub, broadcast_to_map}
use microservice_game_servic.Ws.Handler.{Game}
use microservice_game_servic.Loop.Ticker.{
  Ticker, Event, stopped, ticked, sync_at, with_id, collect_at, due, tick_map, tick_maps, tick, run,
}

module _ (marshal : Envelope → Option Bytes) where
  -- One round collects from its map, and then broadcasts to the room of that map or does nothing.
  pub tick_map_done :
      (now : ℕ) (do_flush : Bool) (r : ℕ) (moves moves' : List PlayerMoveWithId) (g g' : Game)
      → tick_map marshal now do_flush r moves g ≡ done (moves', g')
      → let m : Manager = (collect_at do_flush r g.manager).2 in
        (g' ≡ record g { manager = m })
        ⊎ ((packet : Bytes) × (hub : Hub) × (broadcast_to_map (map_at r m).map_id packet none g.hub
              ≡ done hub)
            × (g' ≡ record { hub = hub; manager = m }))
  unfolding tick_map
  tick_map_done now do_flush r moves moves' g g' e =
      let m : Manager = (collect_at do_flush r g.manager).2 in
      let dirty : List PlayerState = (collect_at do_flush r g.manager).0 in
      let redis : List PlayerState = (collect_at do_flush r g.manager).1 in
      let alone = λ (out : done (moves, record g { manager = m }) ≡ done (moves', g')).
        sym (ap (λ p. p.1) (done_injective out)) in
      elim (Bool-cases (nat_beq (length dirty) 0 && nat_beq (length redis) 0)) [
        | inl none_left ↦ inl (alone (rw none_left at e))
        | inr some_left ↦
            elim (Option-cases (marshal (player_sync_batch (map (sync_at now) dirty)))) [
              | inl failed ↦ inl (alone (rw (some_left, failed) at e))
              | inr (packet, made) ↦
                  let (hub, sent, out) =
                    bind_done (broadcast_to_map (map_at r m).map_id packet none g.hub)
                      (λ hub. done (moves ++ map with_id redis, record { hub = hub; manager = m }))
                      (moves', g') (rw (some_left, made) at e) in
                  inr (packet, hub, sent, sym (ap (λ p. p.1) (done_injective out)))
            ]
      ]

  -- A tick is a run of the loop over the maps, with the time of the flush beside it.
  pub tick_done :
      (start : ℕ) (clock : ℕ → ℕ) (finish : ℕ) (t t' : Ticker) (g g' : Game)
      (moves : Option (List PlayerMoveWithId))
      → tick marshal start clock finish t g ≡ done (moves, t', g')
      → (moves' : List PlayerMoveWithId) × (tick_maps marshal clock
            (due start t)
            (all_maps g.manager)
            []
            g
          ≡ done (moves', g'))
  unfolding tick
  tick_done start clock finish t t' g g' moves e =
      let ((moves1, g1), looped, after) =
        bind_done (tick_maps marshal clock (due start t) (all_maps g.manager) [] g) _
          (moves, t', g') e in
      elim (Bool-cases (due start t)) [
        | inl flush ↦
            let out : done (some moves1, record t { last_flush = finish }, g1)
                ≡ done (moves, t', g') =
              rw flush at after in
            (moves1, rw (← ap (λ p. p.2) (done_injective out)) looped)
        | inr wait ↦
            let out : done (none, t, g1) ≡ done (moves, t', g') = rw wait at after in
            (moves1, rw (← ap (λ p. p.2) (done_injective out)) looped)
      ]

  -- What the loop over the maps keeps, the tick and the loop over the ticks keep.
  module _ (P : Game → Type 0)
      (keeps : (clock : ℕ → ℕ) (do_flush : Bool) (moves' : List PlayerMoveWithId) (g g' : Game)
        → P g
        → tick_maps marshal clock do_flush (all_maps g.manager) [] g ≡ done (moves', g')
        → P g') where
    pub run_keeps :
        (events : List Event) (t t' : Ticker) (g g' : Game) (batches : List (List PlayerMoveWithId))
        → P g
        → run marshal events t g ≡ done (batches, t', g')
        → P g'
    unfolding run
    run_keeps [] t t' g g' batches s e = rw (sym (ap (λ p. p.2) (done_injective e))) s
    run_keeps (stopped ∷ events) t t' g g' batches s e =
        rw (sym (ap (λ p. p.2) (done_injective e))) s
    run_keeps (ticked start clock finish ∷ events) t t' g g' batches s e =
        let ((moves, t1, g1), one, after) =
          bind_done (tick marshal start clock finish t g) _ (batches, t', g') e in
        let ((batches2, t2, g2), rest, out) =
          bind_done (run marshal events t1 g1) _ (batches, t', g') after in
        let (moves1, looped) = tick_done start clock finish t t1 g g1 moves one in
        rw (sym (ap (λ p. p.2) (done_injective out))) (
          run_keeps events t1 t2 g1 g2 batches2 (keeps clock (due start t) moves1 g g1 s looped)
            rest)
