-- ===== src/Cluster/Ticked.antt =====
-- From the move of a client at one instance to the clients on that map at another.
use mathlib.Core.List.{Memᴰ}
use mathlib.Core.List.Memᴰ as Memᴰ
use microservice_game_servic.Base.{
  ℕ, ◌+◌, ◌≤◌, ◌<◌, ◌≡◌, ◌≢◌, ◌∙◌, true, false, List, map, Bytes, Option, some, length,
  if◌then◌else◌, done, arith, bytes_comparable,
}
use microservice_game_servic.Base.Int.{ℤ, pos, int_comparable}
use microservice_game_servic.Base.Map.{lookup, values, select-lookup, Memᴰ-map}
use microservice_game_servic.Protocol.{Envelope, PlayerMove, PlayerSync, player_sync_batch}
use microservice_game_servic.Player.Service.{PlayerMoveWithId}
use microservice_game_servic.State.PlayerState.{PlayerState}
use microservice_game_servic.State.Manager.{map_at, all_maps}
use microservice_game_servic.State.Manager.Lookup.{IsSound}
use microservice_game_servic.Bus.Wire.{Message, dispatch}
use microservice_game_servic.Bus.Wire.Delivery.{dispatch-publish_broadcast}
use microservice_game_servic.Ws.Conn.{conn_at}
use microservice_game_servic.Ws.Conn.Sends.{sent, AllOpen}
use microservice_game_servic.Ws.Hub.{
  Hub, PublishJob, publish_ch_buf_size, receivers, publish_job, hub_handler,
}
use microservice_game_servic.Ws.Hub.Rooms.{in_room}
use microservice_game_servic.Ws.Hub.Broadcasts.{receives, on_broadcast_lem}
use microservice_game_servic.Ws.Hub.Consistent.{Consistent}
use microservice_game_servic.Ws.Handler.{Game, handle_player_move}
use microservice_game_servic.Ws.Handler.Moves.{
  handle_player_move-IsSound, handle_player_move-Consistent,
}
use microservice_game_servic.Ws.Loops.Ended.{InOrder}
use microservice_game_servic.Loop.Ticker.{Ticker, sync_at, due, tick}
use microservice_game_servic.Loop.Ticker.Collected.{dirty_of}
use microservice_game_servic.Loop.Ticker.Flush.{values-AllBelow, elem-values}
use microservice_game_servic.Loop.Ticker.Kept.{tick_done}
use microservice_game_servic.Loop.Ticker.Delivery.{tick_returns, length_of_mem}
use microservice_game_servic.Loop.Ticker.EndToEnd.{moved, found_in, find-moved, dirty-apply_move}
use microservice_game_servic.Loop.Ticker.Published.{job_for, tick_maps_publishes}
use microservice_game_servic.Cluster.{publish_rounds}
use microservice_game_servic.Cluster.Drained.{publish_rounds_lem}

module _ (encode : Envelope → Bytes) where
  -- A tick queues the news of a map.
  tick_publishes :
      (start : ℕ) (clock : ℕ → ℕ) (finish : ℕ) (t t' : Ticker) (g g' : Game)
      (moves : Option (List PlayerMoveWithId)) (k : Bytes) (r : ℕ) (v : ℤ) (p : PlayerState)
      → IsSound g.manager
      → g.hub.bus_set ≡ true
      → length g.hub.publish_ch + length (all_maps g.manager) ≤ publish_ch_buf_size
      → lookup k g.manager.maps ≡ some r
      → lookup v (map_at r g.manager).players ≡ some p
      → p.dirty ≡ true
      → tick (λ e. some (encode e)) start clock finish t g ≡ done (moves, t', g')
      → Memᴰ (job_for encode (clock r) r g.manager) g'.hub.publish_ch
  unfolding all_maps
  tick_publishes start clock finish t t' g g' moves k r v p s bus space here player d e =
      let (moves1, looped) =
        tick_done (λ e. some (encode e)) start clock finish t t' g g' moves e in
      let inside : Memᴰ p (dirty_of (map_at r g.manager)) =
        select-lookup (λ q. q.dirty) v p (map_at r g.manager).players player d in
      tick_maps_publishes encode clock (due start t) (values g.manager.maps) _ moves1 g g' r
        (values-AllBelow (length g.manager.heap) g.manager.maps s.distinct s.in_heap) bus space
        (elem-values k r g.manager.maps here) (length_of_mem inside) looped

module _ (parse_uuid : Bytes → Bytes) (length-parse_uuid : (s : Bytes) → length (parse_uuid s) ≡ 16)
    (encode : Envelope → Bytes) where
  -- Where the hub is consistent, the manager sound and the sender's connection in the heap, where
  -- after the move the hub has a bus, is not shut down, every connection in a room is open and the
  -- channel has room for one job a map, where packets can be marshalled, the node ids differ, the
  -- map's name is shorter than 65530 bytes and no other step comes between: the tick after a
  -- client's move returns, and once the publish workers have emptied the channel, one of the
  -- messages holds the snapshot that the move made of its sender. Another instance that gets this
  -- message, whose hub is consistent with open receivers, sends the packet once to each connection
  -- in its room of that map whose user id is not 0.
  pub dispatch-handle_player_move :
      (from_id node_id : Bytes) (now r : ℕ) (move : PlayerMove) (start : ℕ) (clock : ℕ → ℕ)
      (finish : ℕ) (t : Ticker) (g : Game) (b : Hub)
      → parse_uuid from_id ≢ parse_uuid node_id
      → length move.map_id < 65530
      → InOrder r g
      → (handle_player_move now r move g).hub.bus_set ≡ true
      → (handle_player_move now r move g).hub.publish_closed ≡ false
      → ((j : Bytes) (q : ℕ)
          → in_room j q (handle_player_move now r move g).hub ≡ true
          → (conn_at q (handle_player_move now r move g).hub.conns).closed ≡ false)
      → length (handle_player_move now r move g).hub.publish_ch
          + length (all_maps (handle_player_move now r move g).manager)
        ≤ publish_ch_buf_size
      → Consistent b
      → AllOpen b.conns (receivers move.map_id (pos 0) b)
      → (moves : Option (List PlayerMoveWithId)) × (t' : Ticker) × (g' : Game) × (at : ℕ)
        × (batch : List PlayerSync) × (message : Message) × (b' : Hub) × (tick
              (λ e. some (encode e))
              start
              clock
              finish
              t
              (handle_player_move now r move g)
            ≡ done (moves, t', g'))
        × Memᴰ message (publish_rounds parse_uuid (length g'.hub.publish_ch) from_id g'.hub).0
        × Memᴰ (sync_at (clock at) (moved now r move g)) batch
        × (dispatch parse_uuid hub_handler node_id message.payload b ≡ done b')
        × ((q : ℕ)
            → conn_at q b'.conns ≡ (
                if receives move.map_id (pos 0) q b
                then sent (encode (player_sync_batch batch)) (conn_at q b.conns)
                else conn_at q b.conns))
  unfolding publish_job hub_handler
  dispatch-handle_player_move from_id node_id now r move start clock finish t g b other short o bus
        running open_ space cb ob =
      let g1 : Game = handle_player_move now r move g in
      let u : ℤ = (conn_at r g.hub.conns).user_id in
      let p : PlayerState = moved now r move g in
      let s : IsSound g1.manager = handle_player_move-IsSound now r move g o.sound in
      let (at, here, player) =
        found_in move.map_id u p g1.manager (find-moved now r move g o.sound) in
      let (moves, t', g', ticked, consistent, still) =
        tick_returns (λ e. some (encode e)) start clock finish t g1 s
          (handle_player_move-Consistent now r move g o.consistent o.known) running open_ in
      let job : PublishJob = job_for encode (clock at) at g1.manager in
      let queued : Memᴰ job g'.hub.publish_ch =
        tick_publishes encode start clock finish t t' g1 g' moves move.map_id at u p s bus space
          here player (dirty-apply_move now move _) ticked in
      let batch : List PlayerSync = map (sync_at (clock at)) (dirty_of (map_at at g1.manager)) in
      let packet : Bytes = encode (player_sync_batch batch) in
      let (conns, reached, each) = on_broadcast_lem move.map_id packet (pos 0) b cb ob in
      (
        moves,
        t',
        g',
        at,
        batch,
        publish_job parse_uuid from_id job,
        record b { conns = conns },
        ticked,
        rw ((publish_rounds_lem parse_uuid from_id g'.hub).0)
            (Memᴰ.map (publish_job parse_uuid from_id) queued),
        Memᴰ-map (sync_at (clock at)) (
            select-lookup (λ q. q.dirty) u p (map_at at g1.manager).players player
              (dirty-apply_move now move _)),
        rw (s.named move.map_id at here) (
            dispatch-publish_broadcast parse_uuid length-parse_uuid hub_handler node_id from_id
              move.map_id packet (pos 0) b other (omega arith) short
            ∙ reached),
        each,
      )
