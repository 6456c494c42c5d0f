-- ===== src/Cluster/Logins.antt =====
-- One connection for each user across instances.
use microservice_game_servic.Base.{
  ℕ, ◌<◌, ◌≡◌, ◌≢◌, refl, sym, ap, ◌∙◌, true, false, [], ◌∷◌, Bytes, some, none, length, done,
  ==_refl,
}
use microservice_game_servic.Base.Int.{ℤ, IsInt32, int_comparable}
use microservice_game_servic.Base.Map.{lookup}
use microservice_game_servic.Ws.Conn.{conn_at}
use microservice_game_servic.Ws.Hub.{
  Hub, publish_kick_job, enqueue, register, register_locked, on_kick_user,
}
use microservice_game_servic.Ws.Hub.Rooms.{in_room}
use microservice_game_servic.Ws.Hub.Consistent.{Consistent, jobs-Consistent}
use microservice_game_servic.Ws.Hub.Kicks.{on_kick_user_lem}
use microservice_game_servic.Ws.Hub.Sessions.{register_locked-Consistent}
use microservice_game_servic.System.Channels.{
  jobs-register_locked, jobs-on_kick_user, bus-register_locked,
}
use microservice_game_servic.Ws.Hub.Registered.{lookup-register_locked}
use microservice_game_servic.Cluster.{relay}
use microservice_game_servic.Cluster.Relayed.{enqueue_first, relay_kick}

-- A hub at which the user has just registered with connection `r`, and whose kick waits.
record Waiting (u : ℤ) (r : ℕ) (h : Hub) : Type 0 where
  consistent : Consistent h
  current : lookup u h.conns_by_user ≡ some r
  job : h.publish_ch ≡ publish_kick_job u ∷ []

register_locked-Waiting :
    (u : ℤ) (r : ℕ) (h : Hub)
    → Consistent h
    → r < length h.conns
    → (conn_at r h.conns).user_id ≡ u
    → Waiting u r (record (register_locked r h) { publish_ch = publish_kick_job u ∷ [] })
register_locked-Waiting u r h c lt own = record {
  consistent =
      jobs-Consistent (register_locked r h) (publish_kick_job u ∷ [])
        (register_locked r h).publish_closed (register_locked-Consistent r h c lt);
  current =
      ap (λ v. lookup v (register_locked r h).conns_by_user) (sym own) ∙ lookup-register_locked r h;
  job = refl;
}

-- An instance with a bus and no other job, over a consistent hub that has the connection `r` of
-- user `u`.
pub record Ready (u : ℤ) (r : ℕ) (h : Hub) : Type 0 where
  pub consistent : Consistent h
  pub known : r < length h.conns
  pub own : (conn_at r h.conns).user_id ≡ u
  pub bus : h.bus_set ≡ true
  pub no_jobs : h.publish_ch ≡ []

register-Waiting :
    (u : ℤ) (r : ℕ) (h h' : Hub) → Ready u r h → register r h ≡ done h' → Waiting u r h'
unfolding register
register-Waiting u r h h' ready e =
    rw
      (enqueue_first (publish_kick_job u) (register_locked r h) h'
        (bus-register_locked r h ∙ ready.bus) (jobs-register_locked r h ∙ ready.no_jobs)
        (ap (λ v. enqueue (publish_kick_job v) (register_locked r h)) (sym ready.own) ∙ e))
      (register_locked-Waiting u r h ready.consistent ready.known ready.own)

-- The user has no connection at this hub, and the connection `r` is closed and in no room.
pub record Gone (u : ℤ) (r : ℕ) (h : Hub) : Type 0 where
  pub forgotten : lookup u h.conns_by_user ≡ none
  pub shut : (conn_at r h.conns).closed ≡ true
  pub outside : (k : Bytes) → in_room k r h ≡ false

on_kick_user-Gone :
    (u : ℤ) (r : ℕ) (h : Hub)
    → Consistent h
    → lookup u h.conns_by_user ≡ some r
    → Gone u r (on_kick_user u h)
on_kick_user-Gone u r h c e = record {
  forgotten = (on_kick_user_lem u u h c).0 ∙ rw (==_refl u);
  shut = ((on_kick_user_lem u u h c).1 r [] e).0;
  outside = λ k. ((on_kick_user_lem u u h c).1 r k e).1;
}

module _ (parse_uuid : Bytes → Bytes)
    (length-parse_uuid : (s : Bytes) → length (parse_uuid s) ≡ 16) where
  relay_waiting :
      (from_id node_id : Bytes) (u : ℤ) (r : ℕ) (a b : Hub)
      → parse_uuid from_id ≢ parse_uuid node_id
      → IsInt32 u
      → a.publish_ch ≡ publish_kick_job u ∷ []
      → relay parse_uuid from_id node_id a b ≡ done (record a { publish_ch = [] }, on_kick_user u b)
  relay_waiting from_id node_id u r a b other small job =
      ap (λ jobs. relay parse_uuid from_id node_id (record a { publish_ch = jobs }) b) job
      ∙ relay_kick parse_uuid length-parse_uuid from_id node_id other u a b small

  -- Where a user registers at an instance with a bus, no other job and a consistent hub, the call
  -- returns, the node ids differ, the user id is an int32 and the other instance has a consistent
  -- hub and a connection of that user: once the kick is relayed, the user is registered with the
  -- new connection at the first instance and with none at the other, whose connection is closed
  -- and in no room.
  pub relay-register :
      (from_id node_id : Bytes) (u : ℤ) (r old : ℕ) (a a' b : Hub)
      → parse_uuid from_id ≢ parse_uuid node_id
      → IsInt32 u
      → Ready u r a
      → register r a ≡ done a'
      → Consistent b
      → lookup u b.conns_by_user ≡ some old
      → (a'' : Hub) × (b' : Hub) × (relay parse_uuid from_id node_id a' b ≡ done (a'', b'))
        × (lookup u a''.conns_by_user ≡ some r)
        × Gone u old b'
  relay-register from_id node_id u r old a a' b other small ready e c f =
      let w : Waiting u r a' = register-Waiting u r a a' ready e in
      (
        record a' { publish_ch = [] },
        on_kick_user u b,
        relay_waiting from_id node_id u r a' b other small w.job,
        w.current,
        on_kick_user-Gone u old b c f,
      )

  -- Where one user, whose id is an int32, registers at two instances with different node ids, both
  -- with a bus, no other job and a consistent hub, and both calls return before either kick
  -- arrives: once both kicks are relayed, the user is registered at neither instance, and both
  -- connections are closed and in no room.
  pub relay-register_both :
      (id_a id_b : Bytes) (u : ℤ) (ra rb : ℕ) (a a' b b' : Hub)
      → parse_uuid id_a ≢ parse_uuid id_b
      → IsInt32 u
      → Ready u ra a
      → Ready u rb b
      → register ra a ≡ done a'
      → register rb b ≡ done b'
      → (a1 : Hub) × (b1 : Hub) × (a2 : Hub) × (b2 : Hub) × (relay parse_uuid id_a id_b a' b'
          ≡ done (a1, b1))
        × (relay parse_uuid id_b id_a b1 a1 ≡ done (b2, a2))
        × Gone u ra a2
        × Gone u rb b2
  relay-register_both id_a id_b u ra rb a a' b b' other small ready_a ready_b ea eb =
      let wa : Waiting u ra a' = register-Waiting u ra a a' ready_a ea in
      let wb : Waiting u rb b' = register-Waiting u rb b b' ready_b eb in
      let a1 : Hub = record a' { publish_ch = [] } in
      let b1 : Hub = on_kick_user u b' in
      let gone_b : Gone u rb b1 = on_kick_user-Gone u rb b' wb.consistent wb.current in
      (
        a1,
        b1,
        on_kick_user u a1,
        record b1 { publish_ch = [] },
        relay_waiting id_a id_b u ra a' b' other small wa.job,
        relay_waiting id_b id_a u rb b1 a1 (λ e. other (sym e)) small
            (jobs-on_kick_user u b' ∙ wb.job),
        on_kick_user-Gone u ra a1 (jobs-Consistent a' [] a'.publish_closed wa.consistent)
            wa.current,
        record { forgotten = gone_b.forgotten; shut = gone_b.shut; outside = gone_b.outside },
      )
