-- ===== src/Loop/Ticker/Delivery.antt =====
-- Where the packets of a tick go, and that the tick returns.
use mathlib.Core.List.{Memᴰ}
use microservice_game_servic.Base.{
  ℕ, ◌≡◌, ◌≢◌, ◌≤◌, ◌-◌, refl, true, false, List, [], map, Bytes, Option, none, some, length,
  nat_beq, done, arith, Bool-cases, inl, inr, bytes_comparable,
}
use microservice_game_servic.Base.Int.{ℤ, pos, int_comparable, int_beq_iff}
use microservice_game_servic.Base.Map.{lookup, values, select-lookup, Memᴰ-map}
use microservice_game_servic.Protocol.{Envelope, player_sync_batch, PlayerSync}
use microservice_game_servic.Player.Service.{PlayerMoveWithId}
use microservice_game_servic.State.PlayerState.{PlayerState}
use microservice_game_servic.State.Manager.{map_at, all_maps}
use microservice_game_servic.State.Manager.Lookup.{find, IsSound}
use microservice_game_servic.Ws.Conn.{conn_at}
use microservice_game_servic.Ws.Conn.Sends.{sent}
use microservice_game_servic.Ws.Hub.Rooms.{in_room}
use microservice_game_servic.Ws.Hub.Consistent.{Consistent}
use microservice_game_servic.Ws.Handler.{Game}
use microservice_game_servic.Loop.Ticker.Collected.{dirty_of}
use microservice_game_servic.Loop.Ticker.Rounds.{Sent, tick_maps_returns, values-Apart}
use microservice_game_servic.Loop.Ticker.Flush.{values-AllBelow, elem-values, tick_flush}
use microservice_game_servic.Loop.Ticker.{Ticker, sync_at, with_id, due, tick}

pub length_of_mem {ℓ} :
    {A : Type ℓ} {a : A} {xs : List A} → Memᴰ a xs → nat_beq (length xs) 0 ≡ false
length_of_mem (Memᴰ.head e) = ground arith
length_of_mem (Memᴰ.tail m) = ground arith

module _ (marshal : Envelope → Option Bytes) where
  pub tick-Sent :
      (start : ℕ) (clock : ℕ → ℕ) (finish : ℕ) (t : Ticker) (g : Game)
      → IsSound g.manager
      → Consistent g.hub
      → g.hub.publish_closed ≡ false
      → ((k : Bytes) (q : ℕ) → in_room k q g.hub ≡ true → (conn_at q g.hub.conns).closed ≡ false)
      → (moves : Option (List PlayerMoveWithId)) × (t' : Ticker) × (g' : Game) × (tick marshal start
            clock finish t g
          ≡ done (moves, t', g'))
        × Sent marshal clock (values g.manager.maps) g g'
  unfolding tick all_maps
  tick-Sent start clock finish t g s c p o =
      let (moves, g', looped, out) =
        tick_maps_returns marshal clock (due start t) (values g.manager.maps) [] g
          (record { consistent = c; publishing = p })
          (values-AllBelow (length g.manager.heap) g.manager.maps s.distinct s.in_heap)
          (values-Apart g.manager s g.manager.maps s.distinct (λ k r e. e))
          (λ r e. o (map_at r g.manager).map_id) in
      elim (Bool-cases (due start t)) [
        | inl flush ↦ (some moves, record t { last_flush = finish }, g', rw (looped, flush), out)
        | inr wait ↦ (none, t, g', rw (looped, wait), out)
      ]

  -- Where the manager is sound, the hub is consistent and not shut down, every connection in a
  -- room is open, a tick returns, whether packets can be marshalled or not, and leaves the hub
  -- consistent and not shut down.
  pub tick_returns :
      (start : ℕ) (clock : ℕ → ℕ) (finish : ℕ) (t : Ticker) (g : Game)
      → IsSound g.manager
      → Consistent g.hub
      → g.hub.publish_closed ≡ false
      → ((k : Bytes) (q : ℕ) → in_room k q g.hub ≡ true → (conn_at q g.hub.conns).closed ≡ false)
      → (moves : Option (List PlayerMoveWithId)) × (t' : Ticker) × (g' : Game) × (tick marshal start
            clock finish t g
          ≡ done (moves, t', g'))
        × Consistent g'.hub
        × (g'.hub.publish_closed ≡ false)
  tick_returns start clock finish t g s c p o =
      let (moves, t', g', e, out) = tick-Sent start clock finish t g s c p o in
      (moves, t', g', e, out.running.consistent, out.running.publishing)

module _ (encode : Envelope → Bytes) where
  -- Where the manager is sound, the hub is consistent and not shut down, every connection in a
  -- room is open and packets can be marshalled, a tick returns, and sends one packet with the
  -- news of a map to each connection `c` of its room whose user id is not 0: the packet is
  -- queued, or `c` is closed if its queue is full. The snapshot `p` of a player of the map who
  -- moved since the last tick is in that packet, also for the player's own connection.
  pub tick_delivers :
      (start : ℕ) (clock : ℕ → ℕ) (finish : ℕ) (t : Ticker) (g : Game) (k : Bytes) (r : ℕ) (v : ℤ)
      (p : PlayerState) (c : ℕ)
      → IsSound g.manager
      → Consistent g.hub
      → g.hub.publish_closed ≡ false
      → ((j : Bytes) (q : ℕ) → in_room j q g.hub ≡ true → (conn_at q g.hub.conns).closed ≡ false)
      → lookup k g.manager.maps ≡ some r
      → lookup v (map_at r g.manager).players ≡ some p
      → p.dirty ≡ true
      → in_room k c g.hub ≡ true
      → (conn_at c g.hub.conns).user_id ≢ pos 0
      → (moves : Option (List PlayerMoveWithId)) × (t' : Ticker) × (g' : Game) × (batch : List
          PlayerSync)
        × (tick (λ e. some (encode e)) start clock finish t g ≡ done (moves, t', g'))
        × Memᴰ (sync_at (clock r) p) batch
        × (conn_at c g'.hub.conns ≡ sent (encode (player_sync_batch batch)) (conn_at c g.hub.conns))
  tick_delivers start clock finish t g k r v p c s con pc o here player d member user =
      let (moves, t', g', e, out) =
        tick-Sent (λ e. some (encode e)) start clock finish t g s con pc o in
      let dirty : List PlayerState = dirty_of (map_at r g.manager) in
      let batch : List PlayerSync = map (sync_at (clock r)) dirty in
      let inside : Memᴰ p dirty =
        select-lookup (λ q. q.dirty) v p (map_at r g.manager).players player d in
      (
        moves,
        t',
        g',
        batch,
        e,
        Memᴰ-map (sync_at (clock r)) inside,
        out.delivered r c (encode (player_sync_batch batch)) (elem-values k r g.manager.maps here)
            refl (length_of_mem inside)
            (rw (s.named k r here)
              (ground (arith, int_beq_iff (conn_at c g.hub.conns).user_id (pos 0)))),
      )

  -- Where the manager is sound, the hub is consistent and not shut down, every connection in a
  -- room is open and packets can be marshalled, a tick at which the flush is due returns, and
  -- hands HandleMoveBatch the snapshot of every player, on any map, who moved since the last
  -- flush.
  pub tick_flushes :
      (start : ℕ) (clock : ℕ → ℕ) (finish : ℕ) (t : Ticker) (g : Game) (k : Bytes) (v : ℤ)
      (p : PlayerState)
      → IsSound g.manager
      → Consistent g.hub
      → g.hub.publish_closed ≡ false
      → ((j : Bytes) (q : ℕ) → in_room j q g.hub ≡ true → (conn_at q g.hub.conns).closed ≡ false)
      → t.flush_interval ≤ start - t.last_flush
      → find k v g.manager ≡ some p
      → p.redis_dirty ≡ true
      → (batch : List PlayerMoveWithId) × (t' : Ticker) × (g' : Game) × (tick
            (λ e. some (encode e))
            start
            clock
            finish
            t
            g
          ≡ done (some batch, t', g'))
        × Memᴰ (with_id p) batch
  tick_flushes start clock finish t g k v p s c pc o late f d =
      let (moves, t', g', e, out) =
        tick-Sent (λ e. some (encode e)) start clock finish t g s c pc o in
      let (batch, is_batch, inside) =
        tick_flush encode start clock finish t t' g g' moves k v p s f d late e in
      (batch, t', g', rw is_batch at e, inside)
