-- ===== src/Cluster/Relayed.antt =====
-- A broadcast from one instance to the connections of another.
use microservice_game_servic.Base.{
  ℕ, ◌<◌, ◌≡◌, ◌≢◌, refl, ap, ◌∙◌, true, [], ◌∷◌, Bytes, length, done, ◌>>=◌, bind_done,
  if◌then◌else◌, arith,
}
use microservice_game_servic.Base.Int.{ℤ, IsInt32}
use microservice_game_servic.Bus.Wire.Delivery.{
  dispatch-publish_broadcast, dispatch-publish_kick_user,
}
use microservice_game_servic.Ws.Conn.{conn_at}
use microservice_game_servic.Ws.Conn.Sends.{AllOpen, sent}
use microservice_game_servic.Ws.Hub.{
  Hub, PublishJob, publish_broadcast_job, publish_kick_job, enqueue, receivers, on_broadcast,
  on_kick_user, broadcast_to_map_exclude_user, publish_worker, publish_job, hub_handler,
}
use microservice_game_servic.Ws.Hub.Frames.{jobs-on_broadcast}
use microservice_game_servic.Ws.Hub.Consistent.{Consistent}
use microservice_game_servic.Ws.Hub.Broadcasts.{receives, on_broadcast_lem}
use microservice_game_servic.Cluster.{relay}

-- The only job of a hub with a bus whose channel was empty.
pub enqueue_first :
    (job : PublishJob) (h h' : Hub)
    → h.bus_set ≡ true
    → h.publish_ch ≡ []
    → enqueue job h ≡ done h'
    → h' ≡ record h { publish_ch = job ∷ [] }
unfolding enqueue
enqueue_first job h h' bus none_left e = ground (arith, ap length none_left)

module _ (parse_uuid : Bytes → Bytes) (length-parse_uuid : (s : Bytes) → length (parse_uuid s) ≡ 16)
    (from_id node_id : Bytes) (other : parse_uuid from_id ≢ parse_uuid node_id) where
  relay_broadcast :
      (k message : Bytes) (u : ℤ) (a b : Hub)
      → IsInt32 u
      → length k < 65530
      → relay parse_uuid from_id node_id
          (record a { publish_ch = publish_broadcast_job k message u ∷ [] })
          b
        ≡ (on_broadcast k message u b >>= λ b'. done (record a { publish_ch = [] }, b'))
  unfolding relay publish_worker publish_job hub_handler
  relay_broadcast k message u a b small short = rw (
      dispatch-publish_broadcast parse_uuid length-parse_uuid hub_handler node_id from_id k message
        u b other small short)

  pub relay_kick :
      (u : ℤ) (a b : Hub)
      → IsInt32 u
      → relay parse_uuid from_id node_id (record a { publish_ch = publish_kick_job u ∷ [] }) b
        ≡ done (record a { publish_ch = [] }, on_kick_user u b)
  unfolding relay publish_worker publish_job hub_handler
  relay_kick u a b small = rw (
      dispatch-publish_kick_user parse_uuid length-parse_uuid hub_handler node_id from_id u b other
        small)

  -- Where a broadcast of an instance with a bus and no other job returns, the node ids differ, the
  -- excluded id is an int32, the map's name is shorter than 65530 bytes, and the hub of the other
  -- instance is consistent with open receivers: the job that was queued, once relayed, sends the
  -- message to each connection of that room at the other instance but those of the excluded user,
  -- once, and no job is left.
  pub relay-broadcast_to_map_exclude_user :
      (k message : Bytes) (u : ℤ) (a a' b : Hub)
      → IsInt32 u
      → length k < 65530
      → a.bus_set ≡ true
      → a.publish_ch ≡ []
      → broadcast_to_map_exclude_user k message u a ≡ done a'
      → Consistent b
      → AllOpen b.conns (receivers k u b)
      → (a'' : Hub) × (b' : Hub) × (relay parse_uuid from_id node_id a' b ≡ done (a'', b'))
        × (a''.publish_ch ≡ [])
        × ((q : ℕ)
            → conn_at q b'.conns
              ≡ (if receives k u q b then sent message (conn_at q b.conns) else conn_at q b.conns))
  unfolding broadcast_to_map_exclude_user
  relay-broadcast_to_map_exclude_user k message u a a' b small short bus empty e c o =
      let job : PublishJob = publish_broadcast_job k message u in
      let (a1, local, queued) = bind_done (on_broadcast k message u a) (enqueue job) a' e in
      let (same_bus, same_jobs) = jobs-on_broadcast k message u a a1 local in
      let queue : a' ≡ record a1 { publish_ch = job ∷ [] } =
        enqueue_first job a1 a' (same_bus ∙ bus) (same_jobs ∙ empty) queued in
      let (conns, reached, each) = on_broadcast_lem k message u b c o in
      (
        record a1 { publish_ch = [] },
        record b { conns = conns },
        ap (λ x. relay parse_uuid from_id node_id x b) queue
            ∙ relay_broadcast k message u a1 b small short
            ∙ rw reached,
        refl,
        each,
      )
