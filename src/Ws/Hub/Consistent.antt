-- ===== src/Ws/Hub/Consistent.antt =====
-- The hub's tables agree with the connections, and every operation keeps them so.
use microservice_game_servic.Base.{
  ℕ, ◌<◌, ◌≡◌, refl, ap, ◌∙◌, Bool, true, false, ◌&&◌, List, [], ◌∷◌, ◌++◌, Bytes, some, length,
  length-append, nat_comparable, bytes_comparable, bytes_beq_iff, if◌then◌else◌, nat_beq, arith,
}
use microservice_game_servic.Base.Int.{ℤ, int_comparable}
use microservice_game_servic.Base.Map.{Map, lookup}
use microservice_game_servic.Ws.Conn.{Conn, conn_at, write_conn}
use microservice_game_servic.Ws.Conn.Sends.{
  elem, conn_at-write_conn, conn_at-append_lt, length-write_conn, Unrepeated,
}
use microservice_game_servic.Ws.Hub.{
  Hub, PublishJob, new_hub, add_to_room_locked, remove_from_room_locked,
}
use microservice_game_servic.Ws.Hub.Rooms.{
  room, in_room, elem-room_add, elem-room_delete, room_add-Unrepeated, room_delete-Unrepeated,
  own_room, room-add_to_room_locked, room-remove_from_room_locked, NoEmptyRoom,
  add_to_room_locked-NoEmptyRoom, remove_from_room_locked-NoEmptyRoom,
  conns-remove_from_room_locked, conns-add_to_room_locked, users-remove_from_room_locked,
  users-add_to_room_locked,
}

-- A connection stands only in the room of its own map, once; no room is empty and none is named
-- by the empty string; the table of users names connections of those users.
pub record Consistent (h : Hub) : Type 0 where
  pub placed : (k : Bytes) (q : ℕ) → in_room k q h ≡ true → (conn_at q h.conns).map_id ≡ k
  pub known : (k : Bytes) (q : ℕ) → in_room k q h ≡ true → q < length h.conns
  pub once : (k : Bytes) → Unrepeated (room k h)
  pub no_empty : NoEmptyRoom h
  pub unnamed : room [] h ≡ []
  pub owned : (u : ℤ) (r : ℕ) → lookup u h.conns_by_user ≡ some r → (conn_at r h.conns).user_id ≡ u
  pub held : (u : ℤ) (r : ℕ) → lookup u h.conns_by_user ≡ some r → r < length h.conns

pub in_room-add :
    (r : ℕ) (h : Hub) (k : Bytes) (q : ℕ)
    → in_room k q (add_to_room_locked r h)
      ≡ (if nat_beq r q && own_room r k h then true else in_room k q h)
in_room-add r h k q =
    ap (elem q) (room-add_to_room_locked r h k) ∙ ground (arith, elem-room_add r q (room k h))

pub in_room-remove :
    (r : ℕ) (h : Hub) (k : Bytes) (q : ℕ)
    → in_room k q (remove_from_room_locked r h)
      ≡ (if nat_beq r q && own_room r k h then false else in_room k q h)
in_room-remove r h k q =
    ap (elem q) (room-remove_from_room_locked r h k)
    ∙ ground (arith, elem-room_delete r q (room k h))

pub add-Consistent :
    (r : ℕ) (h : Hub) → r < length h.conns → Consistent h → Consistent (add_to_room_locked r h)
add-Consistent r h lt c = record {
  placed = λ k q e. rw conns-add_to_room_locked (
      ground
        (arith, in_room-add r h k q, c.placed k q, bytes_beq_iff (conn_at r h.conns).map_id k));
  known = λ k q e. rw conns-add_to_room_locked (ground (arith, in_room-add r h k q, c.known k q));
  once = λ k.
      ground (
        arith,
        room-add_to_room_locked r h k,
        room_add-Unrepeated r (room k h) (c.once k),
        c.once k,
      );
  no_empty = add_to_room_locked-NoEmptyRoom r h c.no_empty;
  unnamed = room-add_to_room_locked r h [] ∙ c.unnamed;
  owned = λ u q e. rw conns-add_to_room_locked (c.owned u q (rw users-add_to_room_locked at e));
  held = λ u q e. rw conns-add_to_room_locked (c.held u q (rw users-add_to_room_locked at e));
}

pub remove-Consistent : (r : ℕ) (h : Hub) → Consistent h → Consistent (remove_from_room_locked r h)
remove-Consistent r h c = record {
  placed = λ k q e.
      rw conns-remove_from_room_locked (ground (arith, in_room-remove r h k q, c.placed k q));
  known = λ k q e.
      rw conns-remove_from_room_locked (ground (arith, in_room-remove r h k q, c.known k q));
  once = λ k. ground (
    arith,
    room-remove_from_room_locked r h k,
    room_delete-Unrepeated r (room k h) (c.once k),
    c.once k,
  );
  no_empty = remove_from_room_locked-NoEmptyRoom r h c.no_empty;
  unnamed = room-remove_from_room_locked r h [] ∙ c.unnamed;
  owned = λ u q e.
      rw conns-remove_from_room_locked (c.owned u q (rw users-remove_from_room_locked at e));
  held = λ u q e.
      rw conns-remove_from_room_locked (c.held u q (rw users-remove_from_room_locked at e));
}

-- New connections in place of the old, of the same users, and on the same maps where a room has
-- them.
pub conns-Consistent :
    (h : Hub) (conns : List Conn)
    → length conns ≡ length h.conns
    → ((q : ℕ) → (conn_at q conns).user_id ≡ (conn_at q h.conns).user_id)
    → ((k : Bytes) (q : ℕ)
        → in_room k q h ≡ true
        → (conn_at q conns).map_id ≡ (conn_at q h.conns).map_id)
    → Consistent h
    → Consistent (record h { conns = conns })
conns-Consistent h conns l u m c = record {
  placed = λ k q e. m k q e ∙ c.placed k q e;
  known = λ k q e. rw l (c.known k q e);
  once = c.once;
  no_empty = c.no_empty;
  unnamed = c.unnamed;
  owned = λ v q e. u q ∙ c.owned v q e;
  held = λ v q e. rw l (c.held v q e);
}

pub users-Consistent :
    (h : Hub) (users : Map ℤ ℕ)
    → ((u : ℤ) (r : ℕ)
        → lookup u users ≡ some r
        → ((conn_at r h.conns).user_id ≡ u) × (r < length h.conns))
    → Consistent h
    → Consistent (record h { conns_by_user = users })
users-Consistent h users f c = record {
  placed = c.placed;
  known = c.known;
  once = c.once;
  no_empty = c.no_empty;
  unnamed = c.unnamed;
  owned = λ u r e. (f u r e).0;
  held = λ u r e. (f u r e).1;
}

-- A write of a connection that keeps its user, and its map if a room has it.
pub write_conn-Consistent :
    (h : Hub) (r : ℕ) (c : Conn)
    → r < length h.conns
    → c.user_id ≡ (conn_at r h.conns).user_id
    → ((k : Bytes) → in_room k r h ≡ true → c.map_id ≡ (conn_at r h.conns).map_id)
    → Consistent h
    → Consistent (record h { conns = write_conn r c h.conns })
write_conn-Consistent h r c lt u m s =
    conns-Consistent h (write_conn r c h.conns) (length-write_conn h.conns r c)
      (λ q. ground (arith, conn_at-write_conn h.conns r q c lt))
      (λ k q e. ground (arith, conn_at-write_conn h.conns r q c lt, m k)) s

-- A hub in which nobody is registered is consistent.
pub empty-Consistent :
    (bus_set : Bool) (conns : List Conn) → Consistent (record (new_hub bus_set) { conns = conns })
unfolding new_hub lookup
empty-Consistent bus_set conns = record {
  placed = λ k q e. cc;
  known = λ k q e. cc;
  once = λ k. tt;
  no_empty = λ k e. cc;
  unnamed = refl;
  owned = λ u r e. cc;
  held = λ u r e. cc;
}

-- The queue of jobs has no part in it.
pub jobs-Consistent :
    (h : Hub) (jobs : List PublishJob) (closed : Bool)
    → Consistent h
    → Consistent (record h { publish_ch = jobs; publish_closed = closed })
jobs-Consistent h jobs closed c = record {
  placed = c.placed;
  known = c.known;
  once = c.once;
  no_empty = c.no_empty;
  unnamed = c.unnamed;
  owned = c.owned;
  held = c.held;
}

-- A new connection is in no table.
pub append-Consistent :
    (h : Hub) (c : Conn) → Consistent h → Consistent (record h { conns = h.conns ++ c ∷ [] })
append-Consistent h c s = record {
  placed = λ k q e. rw (conn_at-append_lt h.conns c q (s.known k q e)) (s.placed k q e);
  known = λ k q e. omega (arith, s.known k q e, length-append h.conns (c ∷ []));
  once = s.once;
  no_empty = s.no_empty;
  unnamed = s.unnamed;
  owned = λ u r e. rw (conn_at-append_lt h.conns c r (s.held u r e)) (s.owned u r e);
  held = λ u r e. omega (arith, s.held u r e, length-append h.conns (c ∷ []));
}
