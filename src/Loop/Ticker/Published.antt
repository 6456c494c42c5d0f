-- ===== src/Loop/Ticker/Published.antt =====
-- What a tick of internal/game/loop/ticker.go leaves in the hub's channel for the other instances.
use mathlib.Core.List.{Memᴰ}
use mathlib.Core.List.Memᴰ as Memᴰ
use microservice_game_servic.Base.{
  ℕ, ◌+◌, ◌≤◌, ◌<◌, ◌≡◌, ◌⊎◌, refl, sym, ap, ◌∙◌, Bool, true, false, List, [], ◌∷◌, ◌++◌, map,
  Bytes, Option, none, some, length, length-append, ltb, lt→ltb, nat_beq, nat_beq_iff, Bool-cases,
  inl, inr, arith, done, Outcome, bind_done, done_injective,
}
use microservice_game_servic.Base.Int.{pos}
use microservice_game_servic.Protocol.{Envelope, player_sync_batch}
use microservice_game_servic.Player.Service.{PlayerMoveWithId}
use microservice_game_servic.State.PlayerState.{PlayerState}
use microservice_game_servic.State.Manager.{Manager, map_at}
use microservice_game_servic.Ws.Conn.Sends.{elem, AllBelow}
use microservice_game_servic.Ws.Hub.{
  Hub, PublishJob, publish_broadcast_job, publish_ch_buf_size, enqueue, on_broadcast,
  broadcast_to_map, broadcast_to_map_exclude_user,
}
use microservice_game_servic.Ws.Hub.Frames.{jobs-on_broadcast}
use microservice_game_servic.Ws.Handler.{Game}
use microservice_game_servic.Loop.Ticker.{sync_at, with_id, collect_at, tick_map, tick_maps}
use microservice_game_servic.Loop.Ticker.Kept.{tick_map_done}
use microservice_game_servic.Loop.Ticker.Collected.{
  dirty_of, collect_at_dirty, collect_at_maps, collect_at-SameNames,
}

-- The hub keeps its bus and the jobs that wait, and at most `n` more come.
pub record Fills (n : ℕ) (h h' : Hub) : Type 0 where
  pub bus : h'.bus_set ≡ h.bus_set
  pub size : length h'.publish_ch ≤ length h.publish_ch + n
  pub keeps : (job : PublishJob) → Memᴰ job h.publish_ch → Memᴰ job h'.publish_ch

Fills-refl : (h : Hub) → Fills 0 h h
Fills-refl h = record { bus = refl; size = omega arith; keeps = λ job m. m }

jobs-enqueue :
    (job : PublishJob) (h h' : Hub)
    → enqueue job h ≡ done h'
    → (h'.publish_ch ≡ h.publish_ch) ⊎ (h'.publish_ch ≡ h.publish_ch ++ job ∷ [])
unfolding enqueue
jobs-enqueue job h h' e = elim (Bool-cases h.bus_set) [
  | inr alone ↦ inl (ground arith)
  | inl bus ↦ elim (Bool-cases (ltb (length h.publish_ch) publish_ch_buf_size)) [
    | inl space ↦ inr (ground arith)
    | inr full ↦ inl (ground arith)
  ]
]

enqueue-Fills : (job : PublishJob) (h h' : Hub) → enqueue job h ≡ done h' → Fills 1 h h'
unfolding enqueue
enqueue-Fills job h h' e = record {
  bus = ground arith;
  size = elim (jobs-enqueue job h h' e) [
    | inl same ↦ omega (arith, ap length same)
    | inr more ↦ omega (arith, ap length more, length-append h.publish_ch (job ∷ []))
  ];
  keeps = λ j m. elim (jobs-enqueue job h h' e) [
    | inl same ↦ rw same m
    | inr more ↦ rw more (Memᴰ.append_left (job ∷ []) m)
  ];
}

-- With a bus and with room in the channel the job is queued.
enqueue_room :
    (job : PublishJob) (h h' : Hub)
    → h.bus_set ≡ true
    → length h.publish_ch < publish_ch_buf_size
    → enqueue job h ≡ done h'
    → Memᴰ job h'.publish_ch
unfolding enqueue
enqueue_room job h h' bus space e =
    let queued : h'.publish_ch ≡ h.publish_ch ++ job ∷ [] =
      ground (arith, lt→ltb (length h.publish_ch) publish_ch_buf_size space) in
    rw queued (Memᴰ.append_right h.publish_ch (Memᴰ.head refl))

broadcast_to_map-Fills :
    (k packet : Bytes) (h h' : Hub)
    → broadcast_to_map k packet none h ≡ done h'
    → Fills 1 h h'
      × (h.bus_set ≡ true
          → length h.publish_ch < publish_ch_buf_size
          → Memᴰ (publish_broadcast_job k packet (pos 0)) h'.publish_ch)
unfolding broadcast_to_map broadcast_to_map_exclude_user
broadcast_to_map-Fills k packet h h' e =
    let job : PublishJob = publish_broadcast_job k packet (pos 0) in
    let (h1, local, queued) = bind_done (on_broadcast k packet (pos 0) h) (enqueue job) h' e in
    let (same_bus, same_jobs) = jobs-on_broadcast k packet (pos 0) h h1 local in
    let fills : Fills 1 h1 h' = enqueue-Fills job h1 h' queued in
    (
      record {
        bus = fills.bus ∙ same_bus;
        size = omega (arith, fills.size, ap length same_jobs);
        keeps = λ j m. fills.keeps j (rw same_jobs m);
      },
      λ bus space.
          enqueue_room job h1 h' (same_bus ∙ bus) (omega (arith, ap length same_jobs)) queued,
    )

module _ (marshal : Envelope → Option Bytes) where
  tick_map-Fills :
      (now : ℕ) (do_flush : Bool) (r : ℕ) (moves moves' : List PlayerMoveWithId) (g g' : Game)
      → tick_map marshal now do_flush r moves g ≡ done (moves', g')
      → Fills 1 g.hub g'.hub × (g'.manager ≡ (collect_at do_flush r g.manager).2)
  tick_map-Fills now do_flush r moves moves' g g' e =
      elim (tick_map_done marshal now do_flush r moves moves' g g' e) [
        | inl alone ↦ rw alone (record { bus = refl; size = omega arith; keeps = λ job m. m }, refl)
        | inr (packet, hub, broadcast, both) ↦
            rw both ((broadcast_to_map-Fills _ packet g.hub hub broadcast).0, refl)
      ]

  tick_maps-Fills :
      (clock : ℕ → ℕ) (do_flush : Bool) (rs : List ℕ) (moves moves' : List PlayerMoveWithId)
      (g g' : Game)
      → tick_maps marshal clock do_flush rs moves g ≡ done (moves', g')
      → Fills (length rs) g.hub g'.hub
  unfolding tick_maps
  tick_maps-Fills clock do_flush [] moves moves' g g' e =
      rw (sym (ap (λ p. p.1) (done_injective e))) (Fills-refl g.hub)
  tick_maps-Fills clock do_flush (r ∷ rs) moves moves' g g' e =
      let ((moves1, g1), one, rest) =
        bind_done (tick_map marshal (clock r) do_flush r moves g)
          (λ p. tick_maps marshal clock do_flush rs p.0 p.1) (moves', g') e in
      let (first, collected) = tick_map-Fills (clock r) do_flush r moves moves1 g g1 one in
      let others : Fills (length rs) g1.hub g'.hub =
        tick_maps-Fills clock do_flush rs moves1 moves' g1 g' rest in
      record {
        bus = others.bus ∙ first.bus;
        size = omega (arith, others.size, first.size);
        keeps = λ job m. others.keeps job (first.keeps job m);
      }

-- The job for the news of the map behind `r`.
abbrev pub job_for : (Envelope → Bytes) → ℕ → ℕ → Manager → PublishJob
job_for encode now r m =
    publish_broadcast_job (map_at r m).map_id
      (encode (player_sync_batch (map (sync_at now) (dirty_of (map_at r m))))) (pos 0)

module _ (encode : Envelope → Bytes) where
  -- A round for a map with news broadcasts them.
  tick_map_sends :
      (now : ℕ) (do_flush : Bool) (r : ℕ) (moves moves' : List PlayerMoveWithId) (g g' : Game)
      → r < length g.manager.heap
      → nat_beq (length (dirty_of (map_at r g.manager))) 0 ≡ false
      → tick_map (λ e. some (encode e)) now do_flush r moves g ≡ done (moves', g')
      → broadcast_to_map
          (map_at r g.manager).map_id
          (encode (player_sync_batch (map (sync_at now) (dirty_of (map_at r g.manager)))))
          none
          g.hub
        ≡ done g'.hub
  unfolding tick_map
  tick_map_sends now do_flush r moves moves' g g' lt news e =
      let m : Manager = (collect_at do_flush r g.manager).2 in
      let dirty : List PlayerState = (collect_at do_flush r g.manager).0 in
      let some_left : nat_beq (length dirty) 0 ≡ false = rw collect_at_dirty news in
      let after : Hub → Outcome (List PlayerMoveWithId × Game) = λ hub. done (
        moves ++ map with_id (collect_at do_flush r g.manager).1,
        record { hub = hub; manager = m },
      ) in
      let (hub, sent, out) =
        bind_done
          (broadcast_to_map (map_at r m).map_id
            (encode (player_sync_batch (map (sync_at now) dirty))) none g.hub)
          after (moves', g') (rw some_left at e) in
      let same : hub ≡ g'.hub = ap (λ p. p.1.hub) (done_injective out) in
      rw
        (
          ← same,
          ← collect_at_dirty do_flush r g.manager,
          ← (collect_at-SameNames do_flush r g.manager lt).1 r,
        )
        sent

  -- In a run over maps each one with news has its job queued, where the hub has a bus and the
  -- channel has room for one job a map.
  pub tick_maps_publishes :
      (clock : ℕ → ℕ) (do_flush : Bool) (rs : List ℕ) (moves moves' : List PlayerMoveWithId)
      (g g' : Game) (r : ℕ)
      → AllBelow (length g.manager.heap) rs
      → g.hub.bus_set ≡ true
      → length g.hub.publish_ch + length rs ≤ publish_ch_buf_size
      → elem r rs ≡ true
      → nat_beq (length (dirty_of (map_at r g.manager))) 0 ≡ false
      → tick_maps (λ e. some (encode e)) clock do_flush rs moves g ≡ done (moves', g')
      → Memᴰ (job_for encode (clock r) r g.manager) g'.hub.publish_ch
  unfolding tick_maps
  tick_maps_publishes clock do_flush [] moves moves' g g' r b bus space member news e = cc
  tick_maps_publishes clock do_flush (q ∷ rs) moves moves' g g' r b bus space member news e =
      let ((moves1, g1), one, rest) =
        bind_done (tick_map (λ e. some (encode e)) (clock q) do_flush q moves g)
          (λ p. tick_maps (λ e. some (encode e)) clock do_flush rs p.0 p.1) (moves', g') e in
      let (first, collected) =
        tick_map-Fills (λ e. some (encode e)) (clock q) do_flush q moves moves1 g g1 one in
      elim (Bool-cases (nat_beq q r)) [
        | inl here ↦
            let same : q ≡ r = (nat_beq_iff q r).0 here in
            let sent =
              tick_map_sends (clock q) do_flush q moves moves1 g g1 b.0
                (ap (λ i. nat_beq (length (dirty_of (map_at i g.manager))) 0) same ∙ news) one in
            let queued : Memᴰ (job_for encode (clock q) q g.manager) g1.hub.publish_ch =
              (broadcast_to_map-Fills _ _ g.hub g1.hub sent).1 bus (omega arith) in
            (tick_maps-Fills (λ e. some (encode e)) clock do_flush rs moves1 moves' g1 g'
                rest).keeps
              (job_for encode (clock r) r g.manager) (rw same at queued)
        | inr there ↦
            let kept : map_at r g1.manager ≡ map_at r g.manager =
              ap (map_at r) collected ∙ collect_at_maps do_flush q r g.manager b.0 there in
            let heap : length g1.manager.heap ≡ length g.manager.heap =
              ap (λ m. length m.heap) collected
              ∙ (collect_at-SameNames do_flush q g.manager b.0).0 in
            let job : Memᴰ (job_for encode (clock r) r g1.manager) g'.hub.publish_ch =
              tick_maps_publishes clock do_flush rs moves1 moves' g1 g' r (rw heap b.1)
                (first.bus ∙ bus) (omega (arith, first.size)) (ground arith) (rw kept news) rest in
            rw kept at job
      ]
