-- ===== src/Ws/Hub/Frames.antt =====
-- What the operations of internal/transport/ws/hub.go leave alone: the tables and the connections
-- are all that they change, and so the bus and the publish channel stay as they are.
use microservice_game_servic.Base.{
  ℕ, ◌≡◌, refl, sym, ◌∙◌, ap, Bytes, Option-cases, inl, inr, arith, done, bind_done, done_injective,
}
use microservice_game_servic.Base.Int.{ℤ, int_comparable}
use microservice_game_servic.Base.Map.{lookup, erase}
use microservice_game_servic.Ws.Conn.{conn_at, send_all}
use microservice_game_servic.Ws.Hub.{
  Hub, remove_from_room_locked, add_to_room_locked, register_locked, unregister_locked,
  move_to_room, close_conn, on_kick_user, receivers, on_broadcast,
}

-- The hub `h` with the tables and the connections of `h'`.
abbrev pub with_tables : Hub → Hub → Hub
with_tables h' h = record h { conns = h'.conns; conns_by_user = h'.conns_by_user; rooms = h'.rooms }

-- Only the tables and the connections differ.
abbrev pub SameChannel : Hub → Hub → Type 0
SameChannel h h' = h' ≡ with_tables h' h

SameChannel-trans : (h g f : Hub) → SameChannel h g → SameChannel g f → SameChannel h f
SameChannel-trans h g f a b = b ∙ ap (with_tables f) a

pub remove_from_room_locked-SameChannel :
    (r : ℕ) (h : Hub) → SameChannel h (remove_from_room_locked r h)
unfolding remove_from_room_locked
remove_from_room_locked-SameChannel r h = ground arith

pub add_to_room_locked-SameChannel : (r : ℕ) (h : Hub) → SameChannel h (add_to_room_locked r h)
unfolding add_to_room_locked
add_to_room_locked-SameChannel r h = ground arith

pub close_conn-SameChannel : (r : ℕ) (h : Hub) → SameChannel h (close_conn r h)
unfolding close_conn
close_conn-SameChannel r h = refl

pub register_locked-SameChannel : (r : ℕ) (h : Hub) → SameChannel h (register_locked r h)
unfolding register_locked
register_locked-SameChannel r h =
    elim (Option-cases (lookup (conn_at r h.conns).user_id h.conns_by_user)) [
      | inl e ↦ rw e (add_to_room_locked-SameChannel r _)
      | inr (old, e) ↦ rw e (
          SameChannel-trans h _ _
            (SameChannel-trans h _ _ (close_conn-SameChannel old h)
              (remove_from_room_locked-SameChannel old (close_conn old h)))
            (add_to_room_locked-SameChannel r _))
    ]

pub unregister_locked-SameChannel : (r : ℕ) (h : Hub) → SameChannel h (unregister_locked r h)
unfolding unregister_locked
unregister_locked-SameChannel r h = remove_from_room_locked-SameChannel r _

pub move_to_room-SameChannel : (r : ℕ) (k : Bytes) (h : Hub) → SameChannel h (move_to_room r k h)
unfolding move_to_room
move_to_room-SameChannel r k h =
    SameChannel-trans h (remove_from_room_locked r h) (move_to_room r k h)
      (remove_from_room_locked-SameChannel r h) (add_to_room_locked-SameChannel r _)

pub on_kick_user-SameChannel : (u : ℤ) (h : Hub) → SameChannel h (on_kick_user u h)
unfolding on_kick_user
on_kick_user-SameChannel u h = elim (Option-cases (lookup u h.conns_by_user)) [
  | inl e ↦ rw (e, on_kick_user)
  | inr (r, e) ↦
      let h' : Hub =
        remove_from_room_locked r (record h { conns_by_user = erase u h.conns_by_user }) in
      rw (e, on_kick_user)
        (SameChannel-trans h h' (close_conn r h') (remove_from_room_locked-SameChannel r _)
          (close_conn-SameChannel r h'))
]

pub jobs-on_broadcast :
    (k message : Bytes) (u : ℤ) (h h' : Hub)
    → on_broadcast k message u h ≡ done h'
    → (h'.bus_set ≡ h.bus_set) × (h'.publish_ch ≡ h.publish_ch)
unfolding on_broadcast
jobs-on_broadcast k message u h h' e =
    let (conns, all, out) =
      bind_done (send_all message (receivers k u h) h.conns)
        (λ conns. done (record h { conns = conns })) h' e in
    let same : record h { conns = conns } ≡ h' = done_injective out in rw (sym same) (refl, refl)
