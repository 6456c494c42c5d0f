-- ===== src/System/Order.antt =====
-- The channel `send` of a connection in internal/transport/ws/conn.go between the goroutines that
-- send to it and its write loop, over every run of the instance.
use microservice_game_servic.Base.{
  ℕ, ◌<◌, ◌≡◌, refl, sym, ap, ◌∙◌, true, List, [], ◌∷◌, ◌++◌, append_assoc, append-nil, Bytes,
  length, nat_beq, nat_beq_iff, ltb, if◌then◌else◌, Bool-cases, Option-cases, inl, inr, arith, done,
}
use microservice_game_servic.Base.Int.{ℤ, int_comparable}
use microservice_game_servic.Base.Map.{lookup, erase}
use microservice_game_servic.Ws.Conn.{
  Conn, conn_at, write_conn, send, close, set_map_id, send_capacity,
}
use microservice_game_servic.Ws.Conn.Sends.{
  conn_at-write_conn, conn_at-write_there, conn_at-append_lt,
}
use microservice_game_servic.Ws.Hub.{
  Hub, register_locked, unregister_locked, move_to_room, close_conn, on_kick_user,
  remove_from_room_locked,
}
use microservice_game_servic.Ws.Hub.Rooms.{conns-remove_from_room_locked, conns-add_to_room_locked}
use microservice_game_servic.Ws.Handler.{Game}
use microservice_game_servic.System.{
  HubStep, add_conn, registers, unregisters, moves, closes, kicks, sends, writes, enqueues,
  publishes, shuts, in_hub, in_manager, Reach, here, later,
}
use microservice_game_servic.System.Channels.{enqueue-jobs, close_hub-jobs}
use microservice_game_servic.System.Monotone.{Reach-Ages}

-- What a call of Send queues: the message, if the channel has room.
abbrev pub accepted : Bytes → Conn → List Bytes
accepted message c = if ltb (length c.queue) send_capacity then message ∷ [] else []

queue-send :
    (message : Bytes) (c d : Conn)
    → send message c ≡ done d
    → d.queue ≡ c.queue ++ accepted message c
unfolding send close
queue-send message c d e = ground (arith, append-nil c.queue)

queue-write_conn :
    (xs : List Conn) (r : ℕ) (c : Conn) (q : ℕ)
    → c.queue ≡ (conn_at r xs).queue
    → q < length xs
    → (conn_at q (write_conn r c xs)).queue ≡ (conn_at q xs).queue
queue-write_conn xs r c q e lt = elim (Bool-cases (nat_beq r q)) [
  | inl h ↦
      let same : r ≡ q = (nat_beq_iff r q).0 h in
      let written : conn_at q (write_conn r c xs) ≡ c =
        conn_at-write_conn xs r q c (omega arith) ∙ rw h in
      ap (λ d. d.queue) written ∙ e ∙ ap (λ i. (conn_at i xs).queue) same
  | inr h ↦ ap (λ d. d.queue) (conn_at-write_there xs r q c h)
]

module _ (q : ℕ) where
  -- What one step puts into the queue of the connection, and what its write loop takes out.
  unfoldable pub queued_step : {h h' : Hub} → HubStep h h' → List Bytes
  queued_step (sends message r c h lt e) =
      if nat_beq r q then accepted message (conn_at r h.conns) else []
  queued_step _ = []

  unfoldable pub taken_step : {h h' : Hub} → HubStep h h' → List Bytes
  taken_step (writes message queue r h lt e) = if nat_beq r q then message ∷ [] else []
  taken_step _ = []

  -- The same over a run, in the order of its steps.
  unfoldable pub queued : {g g' : Game} → Reach g g' → List Bytes
  queued here = []
  queued (later r (in_hub s)) = queued r ++ queued_step s
  queued (later r (in_manager s)) = queued r

  unfoldable pub taken : {g g' : Game} → Reach g g' → List Bytes
  taken here = []
  taken (later r (in_hub s)) = taken r ++ taken_step s
  taken (later r (in_manager s)) = taken r

module _ (q : ℕ) where
  queue-close_conn :
      (r : ℕ) (h : Hub)
      → q < length h.conns
      → (conn_at q (close_conn r h).conns).queue ≡ (conn_at q h.conns).queue
  unfolding close_conn close
  queue-close_conn r h lt = queue-write_conn h.conns r _ q refl lt

  queue-register_locked :
      (r : ℕ) (h : Hub)
      → q < length h.conns
      → (conn_at q (register_locked r h).conns).queue ≡ (conn_at q h.conns).queue
  unfolding register_locked
  queue-register_locked r h lt =
      rw conns-add_to_room_locked
        (elim (Option-cases (lookup (conn_at r h.conns).user_id h.conns_by_user)) [
          | inl e ↦ rw e
          | inr (old, e) ↦ rw (e, conns-remove_from_room_locked) (queue-close_conn old h lt)
        ])

  queue-on_kick_user :
      (u : ℤ) (h : Hub)
      → q < length h.conns
      → (conn_at q (on_kick_user u h).conns).queue ≡ (conn_at q h.conns).queue
  unfolding on_kick_user
  queue-on_kick_user u h lt = elim (Option-cases (lookup u h.conns_by_user)) [
    | inl e ↦ rw (e, on_kick_user)
    | inr (r, e) ↦
        let h' : Hub =
          remove_from_room_locked r (record h { conns_by_user = erase u h.conns_by_user }) in
        let same : h'.conns ≡ h.conns = conns-remove_from_room_locked r _ in
        rw (e, on_kick_user)
          (queue-close_conn r h' (rw same lt) ∙ ap (λ xs. (conn_at q xs).queue) same)
  ]

  queue-move_to_room :
      (r : ℕ) (k : Bytes) (h : Hub)
      → q < length h.conns
      → (conn_at q (move_to_room r k h).conns).queue ≡ (conn_at q h.conns).queue
  unfolding move_to_room set_map_id
  queue-move_to_room r k h lt =
      rw (conns-add_to_room_locked, conns-remove_from_room_locked)
        (queue-write_conn h.conns r _ q refl lt)

  -- One step: what it queues goes to the end, what it takes comes from the front.
  HubStep-queue :
      {h h' : Hub} (s : HubStep h h')
      → q < length h.conns
      → (conn_at q h.conns).queue ++ queued_step q s ≡ taken_step q s ++ (conn_at q h'.conns).queue
  unfolding queued_step taken_step unregister_locked
  HubStep-queue (add_conn c h e f) lt =
      append-nil _ ∙ sym (ap (λ d. d.queue) (conn_at-append_lt h.conns c q lt))
  HubStep-queue (registers r h l) lt = append-nil _ ∙ sym (queue-register_locked r h lt)
  HubStep-queue (unregisters r h) lt =
      append-nil _ ∙ sym (ap (λ xs. (conn_at q xs).queue) (conns-remove_from_room_locked r _))
  HubStep-queue (moves r k h l) lt = append-nil _ ∙ sym (queue-move_to_room r k h lt)
  HubStep-queue (closes r h l) lt = append-nil _ ∙ sym (queue-close_conn r h lt)
  HubStep-queue (kicks u h) lt = append-nil _ ∙ sym (queue-on_kick_user u h lt)
  HubStep-queue (sends message r c h l e) lt = elim (Bool-cases (nat_beq r q)) [
    | inl same ↦
        let at_q : r ≡ q = (nat_beq_iff r q).0 same in
        let written : conn_at q (write_conn r c h.conns) ≡ c =
          conn_at-write_conn h.conns r q c l ∙ rw same in
        rw (same, written, ← at_q) (sym (queue-send message (conn_at r h.conns) c e))
    | inr other ↦ rw (other, conn_at-write_there h.conns r q c other) (append-nil _)
  ]
  HubStep-queue (writes message queue r h l e) lt = elim (Bool-cases (nat_beq r q)) [
    | inl same ↦
        let at_q : r ≡ q = (nat_beq_iff r q).0 same in
        rw (same, conn_at-write_conn h.conns r q _ l) (rw (same, ← at_q) (append-nil _ ∙ e))
    | inr other ↦ rw (other, conn_at-write_there h.conns r q _ other) (append-nil _)
  ]
  HubStep-queue (enqueues job h h' e) lt =
      append-nil _ ∙ sym (ap (λ x. (conn_at q x.conns).queue) (enqueue-jobs job h h' e))
  HubStep-queue (publishes job jobs h e) lt = append-nil _
  HubStep-queue (shuts h h' e) lt =
      append-nil _ ∙ sym (ap (λ x. (conn_at q x.conns).queue) (close_hub-jobs h h' e))

  Reach-fifo :
      {g later_g : Game} (r : Reach g later_g)
      → q < length g.hub.conns
      → (conn_at q g.hub.conns).queue ++ queued q r
        ≡ taken q r ++ (conn_at q later_g.hub.conns).queue
  unfolding queued taken
  Reach-fifo here lt = append-nil _
  Reach-fifo {g} {later_g} (later {g'} r (in_hub s)) lt =
      let q0 : List Bytes = (conn_at q g.hub.conns).queue in
      let q1 : List Bytes = (conn_at q g'.hub.conns).queue in
      let q2 : List Bytes = (conn_at q later_g.hub.conns).queue in
      let known : q < length g'.hub.conns = omega (arith, (Reach-Ages r).grows) in
      let before : q0 ++ queued q r ≡ taken q r ++ q1 = Reach-fifo r lt in
      let step : q1 ++ queued_step q s ≡ taken_step q s ++ q2 = HubStep-queue s known in
      sym (append_assoc q0 (queued q r) (queued_step q s))
      ∙ ap (λ l. l ++ queued_step q s) before
      ∙ append_assoc (taken q r) q1 (queued_step q s)
      ∙ ap (λ l. taken q r ++ l) step
      ∙ sym (append_assoc (taken q r) (taken_step q s) q2)
  Reach-fifo (later r (in_manager s)) lt = Reach-fifo r lt

  -- A send on a closed connection does not return.
  queued_step_closed :
      {h h' : Hub} (s : HubStep h h') → (conn_at q h.conns).closed ≡ true → queued_step q s ≡ []
  unfolding queued_step send
  queued_step_closed (add_conn c h e f) shut = refl
  queued_step_closed (registers r h l) shut = refl
  queued_step_closed (unregisters r h) shut = refl
  queued_step_closed (moves r k h l) shut = refl
  queued_step_closed (closes r h l) shut = refl
  queued_step_closed (kicks u h) shut = refl
  queued_step_closed (sends message r c h l e) shut = ground (arith, nat_beq_iff r q)
  queued_step_closed (writes message queue r h l e) shut = refl
  queued_step_closed (enqueues job h h' e) shut = refl
  queued_step_closed (publishes job jobs h e) shut = refl
  queued_step_closed (shuts h h' e) shut = refl

  Reach-queued_closed :
      {g later_g : Game} (r : Reach g later_g)
      → q < length g.hub.conns
      → (conn_at q g.hub.conns).closed ≡ true
      → queued q r ≡ []
  unfolding queued
  Reach-queued_closed here lt shut = refl
  Reach-queued_closed {g} (later {g'} r (in_hub s)) lt shut =
      let still : (conn_at q g'.hub.conns).closed ≡ true =
        ((Reach-Ages r).each q lt).still_closed shut in
      rw (Reach-queued_closed r lt shut) (queued_step_closed s still)
  Reach-queued_closed (later r (in_manager s)) lt shut = Reach-queued_closed r lt shut

  -- However the goroutines interleave, and whatever else they do: what was in the queue of a
  -- connection, followed by the messages that Send has queued since, is what its write loop has
  -- taken since, followed by what is in the queue. Once the connection is closed nothing is queued.
  pub Reach-queue :
      {g later_g : Game} (r : Reach g later_g)
      → q < length g.hub.conns
      → ((conn_at q g.hub.conns).queue ++ queued q r
          ≡ taken q r ++ (conn_at q later_g.hub.conns).queue)
        × ((conn_at q g.hub.conns).closed ≡ true → queued q r ≡ [])
  Reach-queue r lt = (Reach-fifo r lt, Reach-queued_closed r lt)
