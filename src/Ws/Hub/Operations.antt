-- ===== src/Ws/Hub/Operations.antt =====
-- Every operation of the hub keeps its tables consistent, and what each does to the rooms.
use microservice_game_servic.Base.{
  ℕ, ◌<◌, ◌≡◌, refl, ap, ◌∙◌, not, ◌&&◌, [], Bytes, some, length, ◌==◌, nat_comparable,
  bytes_comparable, bytes_beq_iff, if◌then◌else◌, nat_beq, Option-cases, inl, inr, arith,
}
use microservice_game_servic.Base.Int.{ℤ, int_comparable}
use microservice_game_servic.Base.Map.{Map, lookup, erase, lookup-erase}
use microservice_game_servic.Ws.Conn.{Conn, conn_at, write_conn, set_map_id, close}
use microservice_game_servic.Ws.Conn.Sends.{elem, conn_at-write_conn, length-write_conn}
use microservice_game_servic.Ws.Hub.{
  Hub, remove_from_room_locked, move_to_room, close_conn, on_kick_user, unregister_locked,
}
use microservice_game_servic.Ws.Hub.Rooms.{
  in_room, conns-remove_from_room_locked, conns-add_to_room_locked,
}
use microservice_game_servic.Ws.Hub.Consistent.{
  Consistent, in_room-add, in_room-remove, add-Consistent, remove-Consistent, users-Consistent,
  write_conn-Consistent,
}

pub close_conn-Consistent :
    (r : ℕ) (h : Hub) → r < length h.conns → Consistent h → Consistent (close_conn r h)
unfolding close_conn close
close_conn-Consistent r h lt c = write_conn-Consistent h r _ lt refl (λ k e. refl) c

-- Users may be forgotten.
fewer_users-Consistent :
    (h : Hub) (users : Map ℤ ℕ)
    → ((v : ℤ) (r : ℕ) → lookup v users ≡ some r → lookup v h.conns_by_user ≡ some r)
    → Consistent h
    → Consistent (record h { conns_by_user = users })
fewer_users-Consistent h users f c =
    users-Consistent h users (λ v r e. (c.owned v r (f v r e), c.held v r (f v r e))) c

pub erase_user-Consistent :
    (u : ℤ) (h : Hub)
    → Consistent h
    → Consistent (record h { conns_by_user = erase u h.conns_by_user })
erase_user-Consistent u h c =
    fewer_users-Consistent h _ (λ v r e. ground (arith, lookup-erase u v h.conns_by_user)) c

-- OnKickUser keeps the tables consistent.
pub on_kick_user-Consistent : (u : ℤ) (h : Hub) → Consistent h → Consistent (on_kick_user u h)
unfolding on_kick_user
on_kick_user-Consistent u h c = elim (Option-cases (lookup u h.conns_by_user)) [
  | inl e ↦ rw (e, on_kick_user) c
  | inr (r, e) ↦
      let h' : Hub = record h { conns_by_user = erase u h.conns_by_user } in
      rw (e, on_kick_user)
        (close_conn-Consistent r (remove_from_room_locked r h')
          (rw conns-remove_from_room_locked (c.held u r e))
          (remove-Consistent r h' (erase_user-Consistent u h c)))
]

-- The part of `unregister` under the lock keeps the tables consistent.
pub unregister_locked-Consistent :
    (r : ℕ) (h : Hub) → Consistent h → Consistent (unregister_locked r h)
unfolding unregister_locked
unregister_locked-Consistent r h c =
    let u : ℤ = (conn_at r h.conns).user_id in
    remove-Consistent r _
      (fewer_users-Consistent h _ (λ v q e. ground (arith, lookup-erase u v h.conns_by_user)) c)

-- In a consistent hub a connection that MoveToRoom moves is afterwards in the room of its new
-- map, if that has a name, and in no other, and nobody else's room changes.
pub in_room-move_to_room :
    (r : ℕ) (new_map : Bytes) (h : Hub) (k : Bytes) (q : ℕ)
    → Consistent h
    → r < length h.conns
    → in_room k q (move_to_room r new_map h)
      ≡ (if nat_beq r q then not (k == []) && new_map == k else in_room k q h)
unfolding move_to_room set_map_id
in_room-move_to_room r new_map h k q c lt =
    in_room-add r h' k q
    ∙ ground (
      arith,
      in_room-remove r h k q,
      conns-remove_from_room_locked r h,
      conn_at-write_conn h.conns r r moved lt,
      c.placed k r,
      ap (elem r) c.unnamed,
      bytes_beq_iff k [],
      bytes_beq_iff (conn_at r h.conns).map_id k,
      bytes_beq_iff new_map k,
    )
  where
    moved : Conn
    moved = record (conn_at r h.conns) { map_id = new_map }

    h' : Hub
    h' = record (remove_from_room_locked r h) {
      conns =
          write_conn r (set_map_id new_map (conn_at r (remove_from_room_locked r h).conns))
            (remove_from_room_locked r h).conns;
    }

-- MoveToRoom keeps the tables consistent.
pub move_to_room-Consistent :
    (r : ℕ) (new_map : Bytes) (h : Hub)
    → Consistent h
    → r < length h.conns
    → Consistent (move_to_room r new_map h)
unfolding move_to_room set_map_id
move_to_room-Consistent r new_map h c lt =
    add-Consistent r (record h' { conns = write_conn r moved h'.conns })
      (rw (length-write_conn h'.conns r moved, conns-remove_from_room_locked) lt)
      (write_conn-Consistent h' r moved (rw conns-remove_from_room_locked lt) refl
        (λ k e. absurd (
          ground (
            arith,
            in_room-remove r h k r,
            c.placed k r,
            ap (elem r) c.unnamed,
            bytes_beq_iff k [],
            bytes_beq_iff (conn_at r h.conns).map_id k,
          )))
        (remove-Consistent r h c))
  where
    h' : Hub
    h' = remove_from_room_locked r h

    moved : Conn
    moved = record (conn_at r h'.conns) { map_id = new_map }

pub length-unregister_locked :
    (r : ℕ) (h : Hub) → length (unregister_locked r h).conns ≡ length h.conns
unfolding unregister_locked
length-unregister_locked r h = ap length (conns-remove_from_room_locked r _)

pub length-move_to_room :
    (r : ℕ) (k : Bytes) (h : Hub) → length (move_to_room r k h).conns ≡ length h.conns
unfolding move_to_room
length-move_to_room r k h =
    ap length (conns-add_to_room_locked r _)
    ∙ length-write_conn (remove_from_room_locked r h).conns r _
    ∙ ap length (conns-remove_from_room_locked r h)
