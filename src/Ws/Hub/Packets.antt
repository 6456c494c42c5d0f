-- ===== src/Ws/Hub/Packets.antt =====
-- A packet of the tick loop on its way through the hub: BroadcastToMap of
-- internal/transport/ws/hub.go.
use microservice_game_servic.Base.{
  ℕ, ◌≡◌, refl, sym, ◌∙◌, false, List, [], ◌∷◌, Bytes, none, length, ltb, if◌then◌else◌, Bool-cases,
  inl, inr, arith, done, bind_done, done_injective, ◌++◌,
}
use microservice_game_servic.Base.Int.{ℤ, pos, int_comparable}
use microservice_game_servic.Ws.Conn.{Conn, conn_at, send, send_all, write_conn}
use microservice_game_servic.Ws.Conn.Sends.{
  AllBelow, AllOpen, sent, conn_at-write_conn, length-write_conn,
}
use microservice_game_servic.Ws.Hub.{
  Hub, PublishJob, publish_ch_buf_size, enqueue, receivers, on_broadcast, broadcast_to_map,
  broadcast_to_map_exclude_user, publish_broadcast_job,
}
use microservice_game_servic.Ws.Hub.Consistent.{Consistent}
use microservice_game_servic.Ws.Hub.Broadcasts.{receives, receivers-AllBelow, on_broadcast_lem}

-- What the hub's tables know of a connection.
abbrev pub SameConns : List Conn → List Conn → Type 0
SameConns xs ys =
    (length ys ≡ length xs)
    × ((q : ℕ) → (conn_at q ys).map_id ≡ (conn_at q xs).map_id)
    × ((q : ℕ) → (conn_at q ys).user_id ≡ (conn_at q xs).user_id)

pub send-keeps :
    (message : Bytes) (c d : Conn)
    → send message c ≡ done d
    → (d.map_id ≡ c.map_id) × (d.user_id ≡ c.user_id)
unfolding send
send-keeps message c d e = ground arith

send_all-keeps :
    (message : Bytes) (rs : List ℕ) (conns out : List Conn)
    → AllBelow (length conns) rs
    → send_all message rs conns ≡ done out
    → SameConns conns out
unfolding send_all
send_all-keeps message [] conns out b e =
    let same : conns ≡ out = cc in rw (sym same) (refl, λ q. refl, λ q. refl)
send_all-keeps message (r ∷ rs) conns out b e =
    let (c, one, rest) =
      bind_done (send message (conn_at r conns)) (λ c. send_all message rs (write_conn r c conns))
        out e in
    let (m, u) = send-keeps message (conn_at r conns) c one in
    let (l, ms, us) =
      send_all-keeps message rs (write_conn r c conns) out (rw length-write_conn b.1) rest in
    (
      l ∙ length-write_conn conns r c,
      λ q. ms q ∙ ground (arith, conn_at-write_conn conns r q c b.0),
      λ q. us q ∙ ground (arith, conn_at-write_conn conns r q c b.0),
    )

-- The tables do not change with the content of a queue, nor with the jobs that wait.
pub SameConns-Consistent :
    (h : Hub) (conns : List Conn) (jobs : List PublishJob)
    → SameConns h.conns conns
    → Consistent h
    → Consistent (record h { conns = conns; publish_ch = jobs })
SameConns-Consistent h conns jobs (l, m, u) c = record {
  placed = λ k q e. m q ∙ c.placed k q e;
  known = λ k q e. rw l (c.known k q e);
  once = c.once;
  no_empty = c.no_empty;
  unnamed = c.unnamed;
  owned = λ v r e. u r ∙ c.owned v r e;
  held = λ v r e. rw l (c.held v r e);
}

-- A broadcast that returns keeps the hub consistent.
pub on_broadcast-Consistent :
    (k message : Bytes) (u : ℤ) (h h' : Hub)
    → Consistent h
    → on_broadcast k message u h ≡ done h'
    → Consistent h'
unfolding on_broadcast
on_broadcast-Consistent k message u h h' c e =
    let (conns, sent_to, after) =
      bind_done (send_all message (receivers k u h) h.conns)
        (λ conns. done (record h { conns = conns })) h' e in
    let same : record h { conns = conns } ≡ h' = done_injective after in
    rw (sym same) (
      SameConns-Consistent h conns h.publish_ch
        (send_all-keeps message (receivers k u h) h.conns conns (receivers-AllBelow k u h c)
          sent_to)
        c)

pub enqueue_open :
    (job : PublishJob) (h : Hub)
    → h.publish_closed ≡ false
    → (jobs : List PublishJob) × (enqueue job h ≡ done (record h { publish_ch = jobs }))
unfolding enqueue
enqueue_open job h o = elim (Bool-cases h.bus_set) [
  | inl bus ↦ elim (Bool-cases (ltb (length h.publish_ch) publish_ch_buf_size)) [
    | inl space ↦ (h.publish_ch ++ job ∷ [], rw (bus, o, space))
    | inr full ↦ (h.publish_ch, rw (bus, o, full))
  ]
  | inr alone ↦ (h.publish_ch, rw alone)
]

-- BroadcastToMap for the tick loop returns where the hub is not shut down and the receivers in
-- the room are open. Each of them gets the packet once, nothing else of a connection changes, and
-- the hub stays consistent and open.
pub broadcast_to_map_lem :
    (k message : Bytes) (h : Hub)
    → Consistent h
    → h.publish_closed ≡ false
    → AllOpen h.conns (receivers k (pos 0) h)
    → (h' : Hub) × (broadcast_to_map k message none h ≡ done h')
      × Consistent h'
      × (h'.publish_closed ≡ false)
      × (h'.rooms ≡ h.rooms)
      × ((q : ℕ)
          → conn_at q h'.conns ≡ (
              if receives k (pos 0) q h
              then sent message (conn_at q h.conns)
              else conn_at q h.conns))
unfolding broadcast_to_map broadcast_to_map_exclude_user
broadcast_to_map_lem k message h c o open_ =
    let (conns, local, f) = on_broadcast_lem k message (pos 0) h c open_ in
    let job : PublishJob = publish_broadcast_job k message (pos 0) in
    let (jobs, queued) = enqueue_open job (record h { conns = conns }) o in
    let c1 : Consistent (record h { conns = conns }) =
      on_broadcast-Consistent k message (pos 0) h (record h { conns = conns }) c local in
    (
      record h { conns = conns; publish_ch = jobs },
      rw (local, queued),
      SameConns-Consistent (record h { conns = conns }) conns jobs (refl, λ q. refl, λ q. refl) c1,
      o,
      refl,
      f,
    )
