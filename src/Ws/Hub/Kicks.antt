-- ===== src/Ws/Hub/Kicks.antt =====
-- What OnKickUser of internal/transport/ws/hub.go does to the connection of the user.
use microservice_game_servic.Base.{
  ℕ, ◌≡◌, refl, ◌∙◌, true, false, Bytes, some, none, ◌==◌, bytes_comparable, if◌then◌else◌,
  Option-cases, inl, inr, arith,
}
use microservice_game_servic.Base.Int.{ℤ, int_comparable, int_beq_iff}
use microservice_game_servic.Base.Map.{lookup, erase, lookup-erase}
use microservice_game_servic.Ws.Conn.{conn_at}
use microservice_game_servic.Ws.Hub.{Hub, remove_from_room_locked, close_conn, on_kick_user}
use microservice_game_servic.Ws.Hub.Rooms.{
  in_room, conns-remove_from_room_locked, users-remove_from_room_locked,
}
use microservice_game_servic.Ws.Hub.Consistent.{Consistent}
use microservice_game_servic.Ws.Hub.Operations.{erase_user-Consistent}
use microservice_game_servic.Ws.Hub.Sessions.{closed_old, left_room}

users-close_conn : (r : ℕ) (h : Hub) → (close_conn r h).conns_by_user ≡ h.conns_by_user
unfolding close_conn
users-close_conn r h = refl

rooms-close_conn : (k : Bytes) (r q : ℕ) (h : Hub) → in_room k q (close_conn r h) ≡ in_room k q h
unfolding close_conn
rooms-close_conn k r q h = refl

-- In a consistent hub OnKickUser forgets the user and nobody else, and if the user had a
-- connection, that one is closed and in no room afterwards.
pub on_kick_user_lem :
    (u v : ℤ) (h : Hub)
    → Consistent h
    → (lookup v (on_kick_user u h).conns_by_user
        ≡ (if u == v then none else lookup v h.conns_by_user))
      × ((r : ℕ) (k : Bytes)
          → lookup u h.conns_by_user ≡ some r
          → ((conn_at r (on_kick_user u h).conns).closed ≡ true)
            × (in_room k r (on_kick_user u h) ≡ false))
unfolding on_kick_user
on_kick_user_lem u v h c = (
  elim (Option-cases (lookup u h.conns_by_user)) [
    | inl e ↦ rw (e, on_kick_user) (ground (arith, int_beq_iff u v))
    | inr (r, e) ↦
        rw (e, on_kick_user, users-close_conn, users-remove_from_room_locked)
          (lookup-erase u v h.conns_by_user)
  ],
  λ r k e.
      let h' : Hub = record h { conns_by_user = erase u h.conns_by_user } in
      rw (e, on_kick_user)
        (
          closed_old r (remove_from_room_locked r h')
              (rw conns-remove_from_room_locked (c.held u r e)),
          rooms-close_conn k r r (remove_from_room_locked r h')
              ∙ left_room r h' k (erase_user-Consistent u h c),
        ),
)
