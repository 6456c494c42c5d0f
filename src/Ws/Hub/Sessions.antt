-- ===== src/Ws/Hub/Sessions.antt =====
-- One connection for each user: `register` and `unregister`.
use microservice_game_servic.Base.{
  ℕ, ◌<◌, ◌≡◌, ◌≢◌, ap, ◌∙◌, Bool, true, false, ◌&&◌, [], Bytes, none, some, length, ◌==◌, ==_refl,
  nat_comparable, bytes_comparable, bytes_beq_iff, if◌then◌else◌, nat_beq, Option-cases, inl, inr,
  arith,
}
use microservice_game_servic.Base.Int.{ℤ, int_comparable, int_beq_iff}
use microservice_game_servic.Base.Map.{lookup, insert, lookup-insert, lookup-erase}
use microservice_game_servic.Ws.Conn.{Conn, conn_at, close}
use microservice_game_servic.Ws.Conn.Sends.{elem, conn_at-write_conn, length-write_conn}
use microservice_game_servic.Ws.Hub.{
  Hub, remove_from_room_locked, close_conn, register_locked, unregister_locked, unregister,
}
use microservice_game_servic.Ws.Hub.Rooms.{
  in_room, conns-remove_from_room_locked, conns-add_to_room_locked, users-remove_from_room_locked,
  users-add_to_room_locked,
}
use microservice_game_servic.Ws.Hub.Consistent.{
  Consistent, in_room-add, in_room-remove, add-Consistent, remove-Consistent, users-Consistent,
}
use microservice_game_servic.Ws.Hub.Operations.{close_conn-Consistent}
use microservice_game_servic.State.Manager.{Manager}
use microservice_game_servic.State.Manager.Lookup.{find, IsSound}
use microservice_game_servic.State.Manager.Removal.{find-remove_player_from_map}

-- What `register` does about an earlier connection of the user.
abbrev without_old : ℤ → Hub → Hub
without_old u h = elim (lookup u h.conns_by_user) [
  | none ↦ h
  | some old ↦ remove_from_room_locked old (close_conn old h)
]

without_old-none : (u : ℤ) (h : Hub) → lookup u h.conns_by_user ≡ none → without_old u h ≡ h
without_old-none u h e = rw (e, without_old)

without_old-some :
    (u : ℤ) (old : ℕ) (h : Hub)
    → lookup u h.conns_by_user ≡ some old
    → without_old u h ≡ remove_from_room_locked old (close_conn old h)
without_old-some u old h e = rw (e, without_old)

without_old-Consistent : (u : ℤ) (h : Hub) → Consistent h → Consistent (without_old u h)
without_old-Consistent u h c = elim (Option-cases (lookup u h.conns_by_user)) [
  | inl e ↦ rw (without_old-none u h e) c
  | inr (r, e) ↦
      rw (without_old-some u r h e)
        (remove-Consistent r (close_conn r h) (close_conn-Consistent r h (c.held u r e) c))
]

user_id-close_conn :
    (r q : ℕ) (h : Hub)
    → r < length h.conns
    → (conn_at q (close_conn r h).conns).user_id ≡ (conn_at q h.conns).user_id
unfolding close_conn close
user_id-close_conn r q h lt =
    ground (arith, conn_at-write_conn h.conns r q (record (conn_at r h.conns) { closed = true }) lt)

pub length-close_conn : (r : ℕ) (h : Hub) → length (close_conn r h).conns ≡ length h.conns
unfolding close_conn
length-close_conn r h = length-write_conn h.conns r _

user_id-without_old :
    (u : ℤ) (q : ℕ) (h : Hub)
    → Consistent h
    → (conn_at q (without_old u h).conns).user_id ≡ (conn_at q h.conns).user_id
user_id-without_old u q h c = elim (Option-cases (lookup u h.conns_by_user)) [
  | inl e ↦ rw (without_old-none u h e)
  | inr (r, e) ↦
      rw (without_old-some u r h e, conns-remove_from_room_locked)
        (user_id-close_conn r q h (c.held u r e))
]

pub length-without_old : (u : ℤ) (h : Hub) → length (without_old u h).conns ≡ length h.conns
length-without_old u h = elim (Option-cases (lookup u h.conns_by_user)) [
  | inl e ↦ rw (without_old-none u h e)
  | inr (r, e) ↦
      rw (without_old-some u r h e, conns-remove_from_room_locked) (length-close_conn r h)
]

-- The part of `register` under the lock keeps the tables consistent, for a connection of the
-- heap.
pub register_locked-Consistent :
    (r : ℕ) (h : Hub) → Consistent h → r < length h.conns → Consistent (register_locked r h)
unfolding register_locked
register_locked-Consistent r h c lt =
    let u : ℤ = (conn_at r h.conns).user_id in
    let h' : Hub = without_old u h in
    let c' : Consistent h' = without_old-Consistent u h c in
    add-Consistent r _ (rw (length-without_old u h) lt) (
      users-Consistent h' (insert u r h'.conns_by_user)
        (λ v q e. ground (
          arith,
          lookup-insert u v r h'.conns_by_user,
          int_beq_iff u v,
          user_id-without_old u r h c,
          length-without_old u h,
          c'.owned v q,
          c'.held v q,
        ))
        c')

pub closed_old :
    (r : ℕ) (h : Hub) → r < length h.conns → (conn_at r (close_conn r h).conns).closed ≡ true
unfolding close_conn close
closed_old r h lt =
    ground (arith, conn_at-write_conn h.conns r r (record (conn_at r h.conns) { closed = true }) lt)

-- In a consistent hub a connection that leaves its own room is in none.
pub left_room :
    (r : ℕ) (h : Hub) (k : Bytes) → Consistent h → in_room k r (remove_from_room_locked r h) ≡ false
left_room r h k c =
    in_room-remove r h k r
    ∙ ground (
      arith,
      c.placed k r,
      ap (elem r) c.unnamed,
      bytes_beq_iff k [],
      bytes_beq_iff (conn_at r h.conns).map_id k,
    )

-- In a consistent hub, after `register` for a user who has another connection, the user's
-- connection is the new one, and the earlier one is closed and in no room.
pub register_locked_replaces :
    (r old : ℕ) (h : Hub) (k : Bytes)
    → Consistent h
    → lookup (conn_at r h.conns).user_id h.conns_by_user ≡ some old
    → old ≢ r
    → (lookup (conn_at r h.conns).user_id (register_locked r h).conns_by_user ≡ some r)
      × ((conn_at old (register_locked r h).conns).closed ≡ true)
      × (in_room k old (register_locked r h) ≡ false)
unfolding register_locked
register_locked_replaces r old h k c e ne =
    let u : ℤ = (conn_at r h.conns).user_id in
    let shut : Hub = close_conn old h in
    let h' : Hub = remove_from_room_locked old shut in
    let h'' : Hub = record h' { conns_by_user = insert u r h'.conns_by_user } in
    let lt : old < length h.conns = c.held u old e in
    let c' : Consistent shut = close_conn-Consistent old h lt c in
    rw (without_old-some u old h e) (
      rw users-add_to_room_locked (ground (arith, lookup-insert u u r h'.conns_by_user, ==_refl u)),
      ap (λ conns. (conn_at old conns).closed)
            (conns-add_to_room_locked r h'' ∙ conns-remove_from_room_locked old shut)
          ∙ closed_old old h lt,
      in_room-add r h'' k old ∙ ground (arith, left_room old shut k c'),
    )

-- Is this the connection that its user is registered with?
abbrev pub is_current : ℕ → Hub → Bool
is_current r h = elim (lookup (conn_at r h.conns).user_id h.conns_by_user) [
  | none ↦ false
  | some q ↦ nat_beq q r
]

-- In a consistent hub, after `unregister` the connection is in no room, and its user is
-- forgotten if this was the user's connection; a newer one keeps its entry. No other connection
-- changes rooms and no other user is forgotten.
pub unregister_locked_lem :
    (r : ℕ) (h : Hub) (k : Bytes) (q : ℕ) (v : ℤ)
    → Consistent h
    → (in_room k q (unregister_locked r h) ≡ (if nat_beq r q then false else in_room k q h))
      × (lookup v (unregister_locked r h).conns_by_user ≡ (
          if is_current r h && (conn_at r h.conns).user_id == v
          then none
          else lookup v h.conns_by_user))
unfolding unregister_locked
unregister_locked_lem r h k q v c = (
  in_room-remove r _ k q
      ∙ ground (
        arith,
        c.placed k r,
        ap (elem r) c.unnamed,
        bytes_beq_iff k [],
        bytes_beq_iff (conn_at r h.conns).map_id k,
      ),
  rw users-remove_from_room_locked
      (ground (arith, lookup-erase (conn_at r h.conns).user_id v h.conns_by_user)),
)

-- In a sound manager a late `unregister` of a connection that is on a map and that a newer one
-- of the user has replaced takes the user's snapshot from that map all the same, while the newer
-- connection stays registered.
pub unregister_stale :
    (r q : ℕ) (h : Hub) (m : Manager)
    → IsSound m
    → lookup (conn_at r h.conns).user_id h.conns_by_user ≡ some q
    → q ≢ r
    → (conn_at r h.conns).map_id ≢ []
    → (lookup (conn_at r h.conns).user_id (unregister r h m).0.conns_by_user ≡ some q)
      × (find (conn_at r h.conns).map_id (conn_at r h.conns).user_id (unregister r h m).1 ≡ none)
unfolding unregister unregister_locked
unregister_stale r q h m s e ne named =
    let c : Conn = conn_at r h.conns in
    (
      rw users-remove_from_room_locked (ground arith),
      ground (
        arith,
        bytes_beq_iff c.map_id [],
        find-remove_player_from_map c.map_id c.user_id m c.map_id c.user_id s,
        ==_refl c.map_id,
        ==_refl c.user_id,
      ),
    )
