-- ===== src/Cluster/Drained.antt =====
-- The publish workers empty the channel.
use microservice_game_servic.Base.{◌≡◌, refl, List, [], ◌∷◌, map, Bytes, none, length}
use microservice_game_servic.Ws.Hub.{Hub, PublishJob, publish_worker, publish_job}
use microservice_game_servic.Cluster.{publish_rounds}

module _ (parse_uuid : Bytes → Bytes) where
  rounds_over :
      (node_id : Bytes) (jobs : List PublishJob) (h : Hub)
      → publish_rounds parse_uuid (length jobs) node_id (record h { publish_ch = jobs })
        ≡ (map (publish_job parse_uuid node_id) jobs, record h { publish_ch = [] })
  unfolding publish_rounds publish_worker
  rounds_over node_id [] h = refl
  rounds_over node_id (job ∷ jobs) h = rw (rounds_over node_id jobs h)

  -- As many rounds as there are jobs in the channel publish every job once, in the order in which
  -- they were queued, whether the channel is closed or not, and then the workers find none.
  pub publish_rounds_lem :
      (node_id : Bytes) (h : Hub)
      → (publish_rounds parse_uuid (length h.publish_ch) node_id h
          ≡ (map (publish_job parse_uuid node_id) h.publish_ch, record h { publish_ch = [] }))
        × (publish_worker parse_uuid node_id
              (publish_rounds parse_uuid (length h.publish_ch) node_id h).1
            ≡ none)
  unfolding publish_worker
  publish_rounds_lem node_id h = let all = rounds_over node_id h.publish_ch h in (all, rw all)
