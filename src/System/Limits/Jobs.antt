-- ===== src/System/Limits/Jobs.antt =====
-- The names of maps in the jobs that internal/transport/ws/hub.go queues for the other instances.
use microservice_game_servic.Base.{
  ℕ, ◌≤◌, ◌≡◌, ap, List, [], ◌∷◌, ◌++◌, Bytes, length, arith, done, bind_done, none, some,
  List-cases, Bool-cases, inl, inr, bytes_comparable, ◌==◌,
}
use microservice_game_servic.Base.Int.{pos}
use microservice_game_servic.Protocol.{PlayerMove}
use microservice_game_servic.Bus.Wire.{Message}
use microservice_game_servic.Ws.Conn.{conn_at}
use microservice_game_servic.Ws.Handler.{Game, handle_player_move}
use microservice_game_servic.Ws.Handler.Moves.{hub-handle_player_move}
use microservice_game_servic.Ws.Hub.{
  Hub, PublishJob, publish_broadcast_job, publish_kick_job, enqueue, on_broadcast, broadcast_to_map,
  broadcast_to_map_exclude_user, register, register_locked, unregister_locked, publish_worker,
  publish_job,
}
use microservice_game_servic.System.Channels.{jobs-register_locked}
use microservice_game_servic.Ws.Hub.Frames.{
  jobs-on_broadcast, move_to_room-SameChannel, unregister_locked-SameChannel,
}

pub jobs-handle_player_move :
    (now r : ℕ) (move : PlayerMove) (g : Game)
    → (handle_player_move now r move g).hub.publish_ch ≡ g.hub.publish_ch
jobs-handle_player_move now r move g =
    elim (Bool-cases ((conn_at r g.hub.conns).map_id == move.map_id)) [
      | inl stays ↦ rw (hub-handle_player_move, stays)
      | inr moves ↦
          rw (hub-handle_player_move, moves)
            (ap (λ x. x.publish_ch) (move_to_room-SameChannel r move.map_id g.hub))
    ]

pub jobs-unregister_locked : (r : ℕ) (h : Hub) → (unregister_locked r h).publish_ch ≡ h.publish_ch
jobs-unregister_locked r h = ap (λ x. x.publish_ch) (unregister_locked-SameChannel r h)

-- A publish worker takes the first job.
pub publish_worker-some :
    (parse_uuid : Bytes → Bytes) (node_id : Bytes) (message : Message) (h h' : Hub)
    → publish_worker parse_uuid node_id h ≡ some (message, h')
    → (job : PublishJob) × (jobs : List PublishJob) × (h.publish_ch ≡ job ∷ jobs)
      × (publish_job parse_uuid node_id job ≡ message)
      × (h'.publish_ch ≡ jobs)
unfolding publish_worker
publish_worker-some parse_uuid node_id message h h' e = elim (List-cases h.publish_ch) [
  | inl none_left ↦ absurd (ground arith)
  | inr (job, jobs, waiting) ↦ (job, jobs, waiting, ground arith, ground arith)
]

module _ (n : ℕ) where
  abbrev pub ShortJob : PublishJob → Type 0
  ShortJob (publish_broadcast_job k message u) = length k ≤ n
  ShortJob (publish_kick_job u) = Unit {0}

  abbrev pub ShortJobs : List PublishJob → Type 0
  ShortJobs [] = Unit {0}
  ShortJobs (job ∷ jobs) = ShortJob job × ShortJobs jobs

  ShortJobs-snoc :
      (jobs : List PublishJob) (job : PublishJob)
      → ShortJobs jobs
      → ShortJob job
      → ShortJobs (jobs ++ job ∷ [])
  ShortJobs-snoc [] job s t = (t, tt)
  ShortJobs-snoc (j ∷ jobs) job s t = (s.0, ShortJobs-snoc jobs job s.1 t)

  pub enqueue-ShortJobs :
      (job : PublishJob) (h h' : Hub)
      → ShortJob job
      → ShortJobs h.publish_ch
      → enqueue job h ≡ done h'
      → ShortJobs h'.publish_ch
  unfolding enqueue
  enqueue-ShortJobs job h h' short s e = ground (arith, ShortJobs-snoc h.publish_ch job s short)

  pub broadcast_to_map-ShortJobs :
      (k message : Bytes) (h h' : Hub)
      → length k ≤ n
      → ShortJobs h.publish_ch
      → broadcast_to_map k message none h ≡ done h'
      → ShortJobs h'.publish_ch
  unfolding broadcast_to_map broadcast_to_map_exclude_user
  broadcast_to_map-ShortJobs k message h h' short s e =
      let (h1, local, queued) =
        bind_done (on_broadcast k message (pos 0) h)
          (enqueue (publish_broadcast_job k message (pos 0))) h' e in
      enqueue-ShortJobs (publish_broadcast_job k message (pos 0)) h1 h' short
        (rw ((jobs-on_broadcast k message (pos 0) h h1 local).1) s) queued

  pub register-ShortJobs :
      (r : ℕ) (h h' : Hub)
      → ShortJobs h.publish_ch
      → register r h ≡ done h'
      → ShortJobs h'.publish_ch
  unfolding register
  register-ShortJobs r h h' s e =
      enqueue-ShortJobs (publish_kick_job (conn_at r h.conns).user_id) (register_locked r h) h' tt
        (rw jobs-register_locked s) e
