-- ===== src/Ws/Hub/Counted.antt =====
-- The numbers that Stats of internal/transport/ws/hub.go reports.
use microservice_game_servic.Base.{
  ℕ, ◌≤◌, ◌≡◌, true, List, [], ◌∷◌, Bytes, some, length, bytes_comparable, Option-cases, inl, inr,
  arith,
}
use microservice_game_servic.Base.Int.{ℤ, int_comparable}
use microservice_game_servic.Base.Map.{
  Map, lookup, erase, Distinct, insert-Distinct, erase-Distinct,
}
use microservice_game_servic.Base.Pointers.{length-Known}
use microservice_game_servic.Ws.Conn.{conn_at}
use microservice_game_servic.Ws.Hub.{
  Hub, room_add, room_delete, or_empty, add_to_room_locked, remove_from_room_locked,
  register_locked, unregister_locked, move_to_room, close_conn, on_kick_user, stats,
}
use microservice_game_servic.Ws.Hub.Rooms.{in_room}
use microservice_game_servic.Ws.Hub.Consistent.{Consistent}

-- Neither table of the hub has a key twice.
pub record Tidy (h : Hub) : Type 0 where
  pub users : Distinct h.conns_by_user
  pub rooms : Distinct h.rooms

remove_from_room_locked-Tidy : (r : ℕ) (h : Hub) → Tidy h → Tidy (remove_from_room_locked r h)
unfolding remove_from_room_locked
remove_from_room_locked-Tidy r h t =
    let k : Bytes = (conn_at r h.conns).map_id in
    let left : List ℕ = room_delete r (or_empty (lookup k h.rooms)) in
    record {
      users = ground (arith, t.users);
      rooms = ground (
        arith,
        t.rooms,
        insert-Distinct k left h.rooms t.rooms,
        erase-Distinct k h.rooms t.rooms,
      );
    }

add_to_room_locked-Tidy : (r : ℕ) (h : Hub) → Tidy h → Tidy (add_to_room_locked r h)
unfolding add_to_room_locked
add_to_room_locked-Tidy r h t =
    let k : Bytes = (conn_at r h.conns).map_id in
    record {
      users = ground (arith, t.users);
      rooms = ground (
        arith,
        t.rooms,
        insert-Distinct k (room_add r (or_empty (lookup k h.rooms))) h.rooms t.rooms,
      );
    }

pub users-Tidy :
    (h : Hub) (users : Map ℤ ℕ)
    → Distinct users
    → Tidy h
    → Tidy (record h { conns_by_user = users })
users-Tidy h users d t = record { users = d; rooms = t.rooms }

pub register_locked-Tidy : (r : ℕ) (h : Hub) → Tidy h → Tidy (register_locked r h)
unfolding register_locked close_conn
register_locked-Tidy r h t =
    let u : ℤ = (conn_at r h.conns).user_id in
    elim (Option-cases (lookup u h.conns_by_user)) [
      | inl e ↦ rw e (
          add_to_room_locked-Tidy r _
            (users-Tidy h _ (insert-Distinct u r h.conns_by_user t.users) t))
      | inr (old, e) ↦
          let shut : Hub = close_conn old h in
          let left : Tidy (remove_from_room_locked old shut) =
            remove_from_room_locked-Tidy old shut (record { users = t.users; rooms = t.rooms }) in
          rw e (
            add_to_room_locked-Tidy r _ (
              users-Tidy (remove_from_room_locked old shut) _ (insert-Distinct u r _ left.users)
                left))
    ]

pub unregister_locked-Tidy : (r : ℕ) (h : Hub) → Tidy h → Tidy (unregister_locked r h)
unfolding unregister_locked
unregister_locked-Tidy r h t = remove_from_room_locked-Tidy r _ (
    users-Tidy h _
      (ground (arith, t.users, erase-Distinct (conn_at r h.conns).user_id h.conns_by_user t.users))
      t)

pub move_to_room-Tidy : (r : ℕ) (k : Bytes) (h : Hub) → Tidy h → Tidy (move_to_room r k h)
unfolding move_to_room
move_to_room-Tidy r k h t =
    let left : Tidy (remove_from_room_locked r h) = remove_from_room_locked-Tidy r h t in
    add_to_room_locked-Tidy r _ (record { users = left.users; rooms = left.rooms })

pub on_kick_user-Tidy : (u : ℤ) (h : Hub) → Tidy h → Tidy (on_kick_user u h)
unfolding on_kick_user close_conn
on_kick_user-Tidy u h t = elim (Option-cases (lookup u h.conns_by_user)) [
  | inl e ↦ rw (e, on_kick_user) t
  | inr (r, e) ↦
      let left : Tidy
          (remove_from_room_locked r (record h { conns_by_user = erase u h.conns_by_user })) =
        remove_from_room_locked-Tidy r _
          (users-Tidy h _ (erase-Distinct u h.conns_by_user t.users) t) in
      rw (e, on_kick_user) (record { users = left.users; rooms = left.rooms })
]

abbrev first : List ℕ → ℕ
first [] = 0
first (r ∷ room) = r

-- The first connection of a room is in it.
in_room-first :
    (k : Bytes) (room : List ℕ) (h : Hub)
    → Consistent h
    → lookup k h.rooms ≡ some room
    → in_room k (first room) h ≡ true
in_room-first k [] h c e = absurd (c.no_empty k e)
in_room-first k (r ∷ room) h c e = rw e (ground arith)

-- In a consistent hub whose tables have no key twice, Stats reports no more users and no more
-- rooms than there are connections.
pub stats-le :
    (h : Hub)
    → Consistent h
    → Tidy h
    → ((stats h).0 ≤ length h.conns) × ((stats h).1 ≤ length h.conns)
unfolding stats
stats-le h c t = (
  length-Known (λ r. (conn_at r h.conns).user_id) (λ (r : ℕ). r) (length h.conns) h.conns_by_user
      t.users c.owned c.held,
  length-Known (λ r. (conn_at r h.conns).map_id) first (length h.conns) h.rooms t.rooms
      (λ k room e. c.placed k (first room) (in_room-first k room h c e))
      (λ k room e. c.known k (first room) (in_room-first k room h c e)),
)
