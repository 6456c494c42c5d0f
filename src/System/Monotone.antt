-- ===== src/System/Monotone.antt =====
-- What a connection of internal/transport/ws/conn.go keeps for its whole life.
use microservice_game_servic.Base.{
  ℕ, ◌<◌, ◌≤◌, ◌≡◌, refl, ap, ◌∙◌, true, false, List, [], ◌∷◌, ◌++◌, Bytes, length, get_elem?-set,
  length-append, nat_beq, nat_beq_iff, Bool-cases, Option-cases, inl, inr, arith, done,
}
use microservice_game_servic.Base.Int.{ℤ, int_comparable}
use microservice_game_servic.Base.Map.{lookup, erase}
use microservice_game_servic.Ws.Conn.{
  Conn, conn_at, write_conn, send, close, set_map_id, send_capacity,
}
use microservice_game_servic.Ws.Conn.Sends.{
  length-write_conn, conn_at-write_there, conn_at-append_lt,
}
use microservice_game_servic.Ws.Hub.{
  Hub, remove_from_room_locked, register_locked, unregister_locked, move_to_room, close_conn,
  on_kick_user, enqueue, close_hub,
}
use microservice_game_servic.Ws.Hub.Rooms.{conns-remove_from_room_locked, conns-add_to_room_locked}
use microservice_game_servic.Ws.Handler.{Game}
use microservice_game_servic.State.MapState.{new_map_state}
use microservice_game_servic.State.Manager.{
  Manager, create_map, update_at, remove_at, delete_if_empty,
}
use microservice_game_servic.State.Manager.Lookup.{length-write_at}
use microservice_game_servic.Loop.Ticker.{collect_at}
use microservice_game_servic.System.{
  ManagerStep, creates, updates, removes, deletes, collects, HubStep, add_conn, registers,
  unregisters, moves, closes, kicks, sends, writes, enqueues, publishes, shuts, Step, in_hub,
  in_manager, Reach, here, later,
}

-- The same connection at a later time: its user is the same, it does not open again, and its
-- queue has not outgrown the channel.
pub record Later (c d : Conn) : Type 0 where
  pub same_user : d.user_id ≡ c.user_id
  pub still_closed : c.closed ≡ true → d.closed ≡ true
  pub bounded : length c.queue ≤ send_capacity → length d.queue ≤ send_capacity

Later-refl : (c : Conn) → Later c c
Later-refl c = record { same_user = refl; still_closed = λ e. e; bounded = λ e. e }

Later-trans : (c d e : Conn) → Later c d → Later d e → Later c e
Later-trans c d e x y = record {
  same_user = y.same_user ∙ x.same_user;
  still_closed = λ s. y.still_closed (x.still_closed s);
  bounded = λ b. y.bounded (x.bounded b);
}

-- A heap of connections at a later time.
pub record Ages (xs ys : List Conn) : Type 0 where
  pub grows : length xs ≤ length ys
  pub each : (q : ℕ) → q < length xs → Later (conn_at q xs) (conn_at q ys)

pub Ages-refl : (xs : List Conn) → Ages xs xs
Ages-refl xs = record { grows = omega arith; each = λ q lt. Later-refl (conn_at q xs) }

pub Ages-trans : (xs ys zs : List Conn) → Ages xs ys → Ages ys zs → Ages xs zs
Ages-trans xs ys zs a b = record {
  grows = omega (arith, a.grows, b.grows);
  each = λ q lt. Later-trans _ (conn_at q ys) _ (a.each q lt) (b.each q (omega (arith, a.grows)));
}

Ages-same : (xs ys : List Conn) → ys ≡ xs → Ages xs ys
Ages-same xs ys e = rw e (Ages-refl xs)

conn_at-write_here :
    (xs : List Conn) (r : ℕ) (c : Conn) → r < length xs → conn_at r (write_conn r c xs) ≡ c
unfolding conn_at write_conn
conn_at-write_here xs r c lt = ground (arith, get_elem?-set xs r r c)

Ages-write_conn :
    (xs : List Conn) (r : ℕ) (c : Conn) → Later (conn_at r xs) c → Ages xs (write_conn r c xs)
Ages-write_conn xs r c l = record {
  grows = omega (arith, length-write_conn xs r c);
  each = λ q lt. elim (Bool-cases (nat_beq r q)) [
    | inl e ↦
        let same : r ≡ q = (nat_beq_iff r q).0 e in
        rw (← same) (rw (conn_at-write_here xs r c (omega arith)) l)
    | inr e ↦ rw (conn_at-write_there xs r q c e) (Later-refl (conn_at q xs))
  ];
}

Ages-append : (xs : List Conn) (c : Conn) → Ages xs (xs ++ c ∷ [])
Ages-append xs c = record {
  grows = omega (arith, length-append xs (c ∷ []));
  each = λ q lt. rw (conn_at-append_lt xs c q lt) (Later-refl (conn_at q xs));
}

pub Ages-close_conn : (r : ℕ) (h : Hub) → Ages h.conns (close_conn r h).conns
unfolding close_conn close
Ages-close_conn r h =
    Ages-write_conn h.conns r _
      (record { same_user = refl; still_closed = λ e. refl; bounded = λ b. b })

Ages-register_locked : (r : ℕ) (h : Hub) → Ages h.conns (register_locked r h).conns
unfolding register_locked
Ages-register_locked r h =
    rw conns-add_to_room_locked
      (elim (Option-cases (lookup (conn_at r h.conns).user_id h.conns_by_user)) [
        | inl e ↦ rw e (Ages-refl h.conns)
        | inr (old, e) ↦ rw (e, conns-remove_from_room_locked) (Ages-close_conn old h)
      ])

pub Ages-on_kick_user : (u : ℤ) (h : Hub) → Ages h.conns (on_kick_user u h).conns
unfolding on_kick_user
Ages-on_kick_user u h = elim (Option-cases (lookup u h.conns_by_user)) [
  | inl e ↦ rw (e, on_kick_user) (Ages-refl h.conns)
  | inr (r, e) ↦
      let h' : Hub = record h { conns_by_user = erase u h.conns_by_user } in
      let h'' : Hub = remove_from_room_locked r h' in
      rw (e, on_kick_user)
        (Ages-trans h.conns h''.conns (close_conn r h'').conns
          (Ages-same h.conns h''.conns (conns-remove_from_room_locked r h'))
          (Ages-close_conn r h''))
]

pub Ages-move_to_room : (r : ℕ) (k : Bytes) (h : Hub) → Ages h.conns (move_to_room r k h).conns
unfolding move_to_room set_map_id
Ages-move_to_room r k h =
    rw (conns-add_to_room_locked, conns-remove_from_room_locked)
      (Ages-write_conn h.conns r _
        (record { same_user = refl; still_closed = λ e. e; bounded = λ b. b }))

Later-send : (message : Bytes) (c d : Conn) → send message c ≡ done d → Later c d
unfolding send close
Later-send message c d e = record {
  same_user = ground arith;
  still_closed = λ s. ground arith;
  bounded = λ b. ground (arith, length-append c.queue (message ∷ []));
}

-- One step of the hub only lets the connections age.
pub HubStep-Ages : {h h' : Hub} → HubStep h h' → Ages h.conns h'.conns
unfolding unregister_locked enqueue close_hub
HubStep-Ages (add_conn c h e f) = Ages-append h.conns c
HubStep-Ages (registers r h lt) = Ages-register_locked r h
HubStep-Ages (unregisters r h) = Ages-same h.conns _ (conns-remove_from_room_locked r _)
HubStep-Ages (moves r k h lt) = Ages-move_to_room r k h
HubStep-Ages (closes r h lt) = Ages-close_conn r h
HubStep-Ages (kicks u h) = Ages-on_kick_user u h
HubStep-Ages (sends message r c h lt e) =
    Ages-write_conn h.conns r c (Later-send message (conn_at r h.conns) c e)
HubStep-Ages (writes message queue r h lt e) =
    Ages-write_conn h.conns r _ (record {
      same_user = refl;
      still_closed = λ s. s;
      bounded = λ b. omega (arith, ap length e);
    })
HubStep-Ages (enqueues job h h' e) = Ages-same h.conns h'.conns (ground arith)
HubStep-Ages (publishes job jobs h e) = Ages-refl h.conns
HubStep-Ages (shuts h h' e) = Ages-same h.conns h'.conns (ground arith)

Step-Ages : {g g' : Game} → Step g g' → Ages g.hub.conns g'.hub.conns
Step-Ages (in_hub s) = HubStep-Ages s
Step-Ages (in_manager {h} s) = Ages-refl h.conns

-- However the goroutines interleave, a connection that is in the heap stays there, its user does
-- not change, once closed it stays closed, and its queue does not outgrow the channel.
pub Reach-Ages : {g later_g : Game} → Reach g later_g → Ages g.hub.conns later_g.hub.conns
Reach-Ages {g} here = Ages-refl g.hub.conns
Reach-Ages {g} {later_g} (later {g'} r s) =
    Ages-trans g.hub.conns g'.hub.conns later_g.hub.conns (Reach-Ages r) (Step-Ages s)

-- A pointer to a map stays good.
ManagerStep-grows : {m m' : Manager} → ManagerStep m m' → length m.heap ≤ length m'.heap
unfolding create_map update_at remove_at delete_if_empty collect_at
ManagerStep-grows (creates k m) = ground (arith, length-append m.heap (new_map_state k ∷ []))
ManagerStep-grows (updates now u move r m lt) = omega (arith, length-write_at m r _)
ManagerStep-grows (removes u r m lt) = omega (arith, length-write_at m r _)
ManagerStep-grows (deletes k r m) = ground arith
ManagerStep-grows (collects true r m lt) = omega (arith, length-write_at m r _)
ManagerStep-grows (collects false r m lt) = omega (arith, length-write_at m r _)

Step-grows : {g g' : Game} → Step g g' → length g.manager.heap ≤ length g'.manager.heap
Step-grows (in_hub {m} s) = omega arith
Step-grows (in_manager s) = ManagerStep-grows s

pub Reach-grows :
    {g later_g : Game} → Reach g later_g → length g.manager.heap ≤ length later_g.manager.heap
Reach-grows here = omega arith
Reach-grows {g} {later_g} (later {g'} r s) = omega (arith, Reach-grows r, Step-grows s)
