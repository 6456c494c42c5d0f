-- ===== src/System/Channels.antt =====
-- The queue of jobs for the other instances, and the size of the heap, at each step of
-- internal/transport/ws/hub.go.
use microservice_game_servic.Base.{
  ℕ, ◌<◌, ◌≤◌, ◌≡◌, refl, ap, ◌∙◌, ◌⊎◌, true, [], ◌∷◌, ◌++◌, length, get_elem?_snoc, length-append,
  nat_beq, nat_beq_iff, Bool-cases, Option-cases, inl, inr, arith, done, bytes_comparable,
}
use microservice_game_servic.Base.Int.{ℤ, int_comparable}
use microservice_game_servic.Base.Map.{lookup}
use microservice_game_servic.Ws.Conn.{Conn, conn_at}
use microservice_game_servic.Ws.Conn.Sends.{length-write_conn}
use microservice_game_servic.Ws.Hub.{
  Hub, PublishJob, publish_ch_buf_size, register_locked, close_conn, on_kick_user, enqueue,
  close_hub,
}
use microservice_game_servic.Ws.Hub.Operations.{length-unregister_locked, length-move_to_room}
use microservice_game_servic.Ws.Hub.Frames.{
  SameChannel, register_locked-SameChannel, unregister_locked-SameChannel, move_to_room-SameChannel,
  on_kick_user-SameChannel,
}
use microservice_game_servic.Ws.Hub.Rooms.{conns-remove_from_room_locked, conns-add_to_room_locked}
use microservice_game_servic.Ws.Hub.Broadcasts.{enqueue_bounded}
use microservice_game_servic.Ws.Handler.{Game}
use microservice_game_servic.System.{
  HubStep, add_conn, registers, unregisters, moves, closes, kicks, sends, writes, enqueues,
  publishes, shuts, in_hub, in_manager, Reach, here, later,
}

pub enqueue-jobs :
    (job : PublishJob) (h h' : Hub)
    → enqueue job h ≡ done h'
    → h' ≡ record h { publish_ch = h'.publish_ch }
unfolding enqueue
enqueue-jobs job h h' e = ground arith

pub close_hub-jobs : (h h' : Hub) → close_hub h ≡ done h' → h' ≡ record h { publish_closed = true }
unfolding close_hub
close_hub-jobs h h' e = ground arith

same_jobs : (h h' : Hub) → SameChannel h h' → h'.publish_ch ≡ h.publish_ch
same_jobs h h' e = ap (λ x. x.publish_ch) e

pub jobs-register_locked : (r : ℕ) (h : Hub) → (register_locked r h).publish_ch ≡ h.publish_ch
jobs-register_locked r h = same_jobs h _ (register_locked-SameChannel r h)

pub bus-register_locked : (r : ℕ) (h : Hub) → (register_locked r h).bus_set ≡ h.bus_set
bus-register_locked r h = ap (λ x. x.bus_set) (register_locked-SameChannel r h)

pub jobs-on_kick_user : (u : ℤ) (h : Hub) → (on_kick_user u h).publish_ch ≡ h.publish_ch
jobs-on_kick_user u h = same_jobs h _ (on_kick_user-SameChannel u h)

-- No step of the hub lets the queue of jobs outgrow its channel.
pub HubStep-jobs :
    {h h' : Hub}
    → HubStep h h'
    → length h.publish_ch ≤ publish_ch_buf_size
    → length h'.publish_ch ≤ publish_ch_buf_size
unfolding close_conn
HubStep-jobs (add_conn c h e f) b = b
HubStep-jobs (registers r h lt) b = rw jobs-register_locked b
HubStep-jobs (unregisters r h) b = rw (same_jobs h _ (unregister_locked-SameChannel r h)) b
HubStep-jobs (moves r k h lt) b = rw (same_jobs h _ (move_to_room-SameChannel r k h)) b
HubStep-jobs (closes r h lt) b = b
HubStep-jobs (kicks u h) b = rw jobs-on_kick_user b
HubStep-jobs (sends message r c h lt e) b = b
HubStep-jobs (writes message queue r h lt e) b = b
HubStep-jobs (enqueues job h h' e) b = enqueue_bounded job h h' b e
HubStep-jobs (publishes job jobs h e) b = omega (arith, ap length e)
HubStep-jobs (shuts h h' e) b = rw (close_hub-jobs h h' e) b

length-register_locked : (r : ℕ) (h : Hub) → length (register_locked r h).conns ≡ length h.conns
unfolding register_locked close_conn
length-register_locked r h =
    rw conns-add_to_room_locked
      (elim (Option-cases (lookup (conn_at r h.conns).user_id h.conns_by_user)) [
        | inl e ↦ rw e
        | inr (old, e) ↦ rw (e, conns-remove_from_room_locked, length-write_conn)
      ])

length-on_kick_user : (u : ℤ) (h : Hub) → length (on_kick_user u h).conns ≡ length h.conns
unfolding on_kick_user close_conn
length-on_kick_user u h = elim (Option-cases (lookup u h.conns_by_user)) [
  | inl e ↦ rw (e, on_kick_user)
  | inr (r, e) ↦ rw (e, on_kick_user, length-write_conn, conns-remove_from_room_locked)
]

conn_at-append_eq :
    (h : Hub) (c : Conn) (q : ℕ)
    → q < length (h.conns ++ c ∷ [])
    → (q < length h.conns) ⊎ (conn_at q (h.conns ++ c ∷ []) ≡ c)
unfolding conn_at
conn_at-append_eq h c q lt = elim (Bool-cases (nat_beq (length h.conns) q)) [
  | inl e ↦ inr (ground (arith, get_elem?_snoc h.conns q c))
  | inr e ↦ inl (ground (arith, nat_beq_iff (length h.conns) q, length-append h.conns (c ∷ [])))
]

-- A connection that a step adds has an empty queue.
pub HubStep-fresh :
    {h h' : Hub}
    → HubStep h h'
    → (q : ℕ) → q < length h'.conns
    → (q < length h.conns) ⊎ ((conn_at q h'.conns).queue ≡ [])
unfolding close_conn
HubStep-fresh (add_conn c h e f) q lt = elim (conn_at-append_eq h c q lt) [
  | inl old ↦ inl old
  | inr new ↦ inr (ap (λ d. d.queue) new ∙ f)
]
HubStep-fresh (registers r h l) q lt = inl (rw length-register_locked at lt)
HubStep-fresh (unregisters r h) q lt = inl (rw length-unregister_locked at lt)
HubStep-fresh (moves r k h l) q lt = inl (rw length-move_to_room at lt)
HubStep-fresh (closes r h l) q lt = inl (rw length-write_conn at lt)
HubStep-fresh (kicks u h) q lt = inl (rw length-on_kick_user at lt)
HubStep-fresh (sends message r c h l e) q lt = inl (rw length-write_conn at lt)
HubStep-fresh (writes message queue r h l e) q lt = inl (rw length-write_conn at lt)
HubStep-fresh (enqueues job h h' e) q lt = inl (rw (enqueue-jobs job h h' e) at lt)
HubStep-fresh (publishes job jobs h e) q lt = inl lt
HubStep-fresh (shuts h h' e) q lt = inl (rw (close_hub-jobs h h' e) at lt)

HubStep-bus : {h h' : Hub} → HubStep h h' → h'.bus_set ≡ h.bus_set
unfolding close_conn
HubStep-bus (add_conn c h e f) = refl
HubStep-bus (registers r h lt) = bus-register_locked r h
HubStep-bus (unregisters r h) = ap (λ x. x.bus_set) (unregister_locked-SameChannel r h)
HubStep-bus (moves r k h lt) = ap (λ x. x.bus_set) (move_to_room-SameChannel r k h)
HubStep-bus (closes r h lt) = refl
HubStep-bus (kicks u h) = ap (λ x. x.bus_set) (on_kick_user-SameChannel u h)
HubStep-bus (sends message r c h lt e) = refl
HubStep-bus (writes message queue r h lt e) = refl
HubStep-bus (enqueues job h h' e) = ap (λ x. x.bus_set) (enqueue-jobs job h h' e)
HubStep-bus (publishes job jobs h e) = refl
HubStep-bus (shuts h h' e) = ap (λ x. x.bus_set) (close_hub-jobs h h' e)

-- A hub never loses its bus.
pub Reach-bus : {g later_g : Game} → Reach g later_g → later_g.hub.bus_set ≡ g.hub.bus_set
Reach-bus here = refl
Reach-bus (later r (in_hub s)) = HubStep-bus s ∙ Reach-bus r
Reach-bus (later r (in_manager s)) = Reach-bus r
