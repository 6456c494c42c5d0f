-- ===== src/Loop/Ticker/Round.antt =====
-- One map of a tick: what its round does to the hub and to the manager.
use microservice_game_servic.Base.{
  ℕ, ◌<◌, ◌≡◌, ◌⊎◌, refl, ap, ◌∙◌, Bool, true, false, ◌&&◌, List, [], ◌∷◌, ◌++◌, map, Bytes, Option,
  some, length, nat_beq, if◌then◌else◌, done, arith, Bool-cases, Option-cases, inl, inr,
  bytes_comparable,
}
use microservice_game_servic.Base.Int.{ℤ, pos, int_comparable}
use microservice_game_servic.Protocol.{Envelope, player_sync_batch}
use microservice_game_servic.Player.Service.{PlayerMoveWithId}
use microservice_game_servic.State.PlayerState.{PlayerState}
use microservice_game_servic.State.Manager.Lookup.{IsSound}
use microservice_game_servic.State.Manager.{Manager, map_at}
use microservice_game_servic.Ws.Conn.{Conn, conn_at}
use microservice_game_servic.Ws.Conn.Sends.{sent, elem, AllOpen}
use microservice_game_servic.Ws.Hub.{Hub, receivers}
use microservice_game_servic.Ws.Hub.Rooms.{in_room}
use microservice_game_servic.Ws.Hub.Broadcasts.{receives, elem-receivers}
use microservice_game_servic.Ws.Hub.Consistent.{Consistent}
use microservice_game_servic.Ws.Hub.Packets.{broadcast_to_map_lem}
use microservice_game_servic.Ws.Handler.{Game}
use microservice_game_servic.Loop.Ticker.Collected.{
  SameNames, collect_at-SameNames, collect_at-IsSound, collect_at_dirty, collect_at_maps, dirty_of,
}
use microservice_game_servic.Loop.Ticker.{sync_at, with_id, collect_at, tick_map}

-- A hub that runs.
pub record Running (h : Hub) : Type 0 where
  pub consistent : Consistent h
  pub publishing : h.publish_closed ≡ false

-- The connections of a room are open.
abbrev pub OpenRoom : Hub → Bytes → Type 0
OpenRoom h k = (q : ℕ) → in_room k q h ≡ true → (conn_at q h.conns).closed ≡ false

AllOpen-elem :
    (conns : List Conn) (rs : List ℕ)
    → ((q : ℕ) → elem q rs ≡ true → (conn_at q conns).closed ≡ false)
    → AllOpen conns rs
AllOpen-elem conns [] f = tt
AllOpen-elem conns (r ∷ rs) f =
    (f r (ground arith), AllOpen-elem conns rs (λ q e. f q (ground arith)))

receivers-AllOpen : (k : Bytes) (u : ℤ) (h : Hub) → OpenRoom h k → AllOpen h.conns (receivers k u h)
receivers-AllOpen k u h f =
    AllOpen-elem h.conns (receivers k u h) (λ q e. f q (ground (arith, elem-receivers k u h q)))

-- The packet of a map with the players `dirty`.
abbrev pub packet_of : (Envelope → Option Bytes) → ℕ → List PlayerState → Option Bytes
packet_of marshal now dirty = marshal (player_sync_batch (map (sync_at now) dirty))

-- A connection that has got at most one message.
abbrev pub AtMostOne : Conn → Conn → Type 0
AtMostOne c c' = (c' ≡ c) ⊎ ((packet : Bytes) × (c' ≡ sent packet c))

-- What a round for the map behind `r` with the packet `made` does: it leaves the tables, the other
-- maps and the other rooms as they were, and sends the packet, if there is news, to the room.
pub record Round (r : ℕ) (made : Option Bytes) (g g' : Game) : Type 0 where
  pub running : Running g'.hub
  pub rooms : g'.hub.rooms ≡ g.hub.rooms
  pub names : SameNames g.manager g'.manager
  pub sound : IsSound g.manager → IsSound g'.manager
  pub maps : (q : ℕ) → nat_beq r q ≡ false → map_at q g'.manager ≡ map_at q g.manager
  pub others :
      (c : ℕ)
      → in_room (map_at r g.manager).map_id c g.hub ≡ false
      → conn_at c g'.hub.conns ≡ conn_at c g.hub.conns
  pub once : (c : ℕ) → AtMostOne (conn_at c g.hub.conns) (conn_at c g'.hub.conns)
  pub delivered :
      (c : ℕ) (packet : Bytes)
      → made ≡ some packet
      → nat_beq (length (dirty_of (map_at r g.manager))) 0 ≡ false
      → receives (map_at r g.manager).map_id (pos 0) c g.hub ≡ true
      → conn_at c g'.hub.conns ≡ sent packet (conn_at c g.hub.conns)

-- A round without a packet, or without news.
unsent-Round :
    (do_flush : Bool) (r : ℕ) (made : Option Bytes) (g : Game)
    → Running g.hub
    → r < length g.manager.heap
    → ((packet : Bytes)
        → made ≡ some packet
        → nat_beq (length (dirty_of (map_at r g.manager))) 0 ≡ true)
    → Round r made g (record g { manager = (collect_at do_flush r g.manager).2 })
unsent-Round do_flush r made g run b no_news = record {
  running = run;
  rooms = refl;
  names = collect_at-SameNames do_flush r g.manager b;
  sound = collect_at-IsSound do_flush r g.manager b;
  others = λ q e. refl;
  once = λ q. inl refl;
  maps = λ q e. collect_at_maps do_flush r q g.manager b e;
  delivered = λ c packet e news i. absurd (ground (arith, no_news packet e, news));
}

-- A round whose packet the hub has sent.
sent-Round :
    (do_flush : Bool) (r : ℕ) (packet : Bytes) (g : Game) (hub : Hub)
    → r < length g.manager.heap
    → Running hub
    → hub.rooms ≡ g.hub.rooms
    → ((q : ℕ)
        → conn_at q hub.conns ≡ (
            if receives (map_at r g.manager).map_id (pos 0) q g.hub
            then sent packet (conn_at q g.hub.conns)
            else conn_at q g.hub.conns))
    → Round r (some packet) g (record { hub = hub; manager = (collect_at do_flush r g.manager).2 })
sent-Round do_flush r packet g hub b run rooms f = record {
  running = run;
  rooms = rooms;
  names = collect_at-SameNames do_flush r g.manager b;
  sound = collect_at-IsSound do_flush r g.manager b;
  others = λ q e. ground (arith, f q);
  once = λ q. elim (Bool-cases (receives (map_at r g.manager).map_id (pos 0) q g.hub)) [
    | inl member ↦ inr (packet, rw member at (f q))
    | inr outside ↦ inl (rw outside at (f q))
  ];
  maps = λ q e. collect_at_maps do_flush r q g.manager b e;
  delivered = λ c other e news i.
      let same : packet ≡ other = cc in
      rw (← same) (
        f c
        ∙ ap
            (λ (b : Bool). if b then sent packet (conn_at c g.hub.conns) else conn_at c g.hub.conns)
            i);
}

module _ (marshal : Envelope → Option Bytes) where
  pub tick_map_returns :
      (now : ℕ) (do_flush : Bool) (r : ℕ) (moves : List PlayerMoveWithId) (g : Game)
      → Running g.hub
      → r < length g.manager.heap
      → OpenRoom g.hub (map_at r g.manager).map_id
      → (moves' : List PlayerMoveWithId) × (g' : Game) × (tick_map marshal now do_flush r moves g
          ≡ done (moves', g'))
        × Round r (packet_of marshal now (dirty_of (map_at r g.manager))) g g'
  unfolding tick_map
  tick_map_returns now do_flush r moves g run b o =
      let dirty : List PlayerState = dirty_of (map_at r g.manager) in
      let redis : List PlayerState = (collect_at do_flush r g.manager).1 in
      let m : Manager = (collect_at do_flush r g.manager).2 in
      let made : Option Bytes = packet_of marshal now dirty in
      elim (Bool-cases (nat_beq (length dirty) 0 && nat_beq (length redis) 0)) [
        | inl none_left ↦ (
          moves,
          record g { manager = m },
          rw (collect_at_dirty, none_left),
          unsent-Round do_flush r made g run b (λ packet e. ground (arith, none_left)),
        )
        | inr some_left ↦ elim (Option-cases made) [
          | inl failed ↦ (
            moves,
            record g { manager = m },
            rw (collect_at_dirty, some_left, failed),
            unsent-Round do_flush r made g run b (λ packet e. absurd (ground (arith, failed, e))),
          )
          | inr (packet, is_made) ↦
              let k : Bytes = (map_at r g.manager).map_id in
              let (hub, returned, consistent, publishing, rooms, f) =
                broadcast_to_map_lem k packet g.hub run.consistent run.publishing
                  (receivers-AllOpen k (pos 0) g.hub o) in
              (
                moves ++ map with_id redis,
                record { hub = hub; manager = m },
                rw (
                  collect_at_dirty,
                  some_left,
                  is_made,
                  (collect_at-SameNames do_flush r g.manager b).1 r,
                  returned,
                ),
                rw is_made (
                    sent-Round do_flush r packet g hub b
                      (record { consistent = consistent; publishing = publishing }) rooms f),
              )
        ]
      ]
