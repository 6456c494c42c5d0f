-- ===== src/Ws/Hub/Registered.antt =====
-- The connection that `register` of internal/transport/ws/hub.go puts into the table of users.
use microservice_game_servic.Base.{ℕ, ◌≡◌, ◌∙◌, some, Option-cases, inl, inr, arith, ==_refl, ◌≢◌}
use microservice_game_servic.Base.Int.{ℤ, int_comparable}
use microservice_game_servic.Base.Map.{lookup, lookup-insert}
use microservice_game_servic.Ws.Conn.{conn_at, close}
use microservice_game_servic.Ws.Conn.Sends.{conn_at-write_conn}
use microservice_game_servic.Ws.Hub.{Hub, register_locked, close_conn}
use microservice_game_servic.Ws.Hub.Rooms.{
  conns-remove_from_room_locked, conns-add_to_room_locked, users-add_to_room_locked,
}
use microservice_game_servic.Ws.Hub.Consistent.{Consistent}

-- The user of a connection that is registered has this connection.
pub lookup-register_locked :
    (r : ℕ) (h : Hub)
    → lookup (conn_at r h.conns).user_id (register_locked r h).conns_by_user ≡ some r
unfolding register_locked
lookup-register_locked r h =
    let u : ℤ = (conn_at r h.conns).user_id in
    rw users-add_to_room_locked (lookup-insert u u r _ ∙ rw (==_refl u))

-- A connection that its user is not registered with yet stays as it is.
pub conn_at-register_locked :
    (r : ℕ) (h : Hub)
    → Consistent h
    → lookup (conn_at r h.conns).user_id h.conns_by_user ≢ some r
    → conn_at r (register_locked r h).conns ≡ conn_at r h.conns
unfolding register_locked close_conn
conn_at-register_locked r h c fresh =
    rw conns-add_to_room_locked
      (elim (Option-cases (lookup (conn_at r h.conns).user_id h.conns_by_user)) [
        | inl e ↦ rw e
        | inr (old, e) ↦
            rw (e, conns-remove_from_room_locked)
              (ground (
                arith,
                conn_at-write_conn h.conns old r (close (conn_at old h.conns))
                    (c.held (conn_at r h.conns).user_id old e),
              ))
      ])
