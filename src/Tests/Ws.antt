-- ===== src/Tests/Ws.antt =====
-- The hub, the handler and the handshake at sample data.
use mathlib.Core.List.Permᴰ as Permᴰ
use microservice_game_servic.Ws.Hub.Unordered.{broadcast, crowd, on_broadcast_unordered}
use microservice_game_servic.Base.{
  ℕ, zero, ◌≡◌, ◌≤◌, refl, true, false, ◌&&◌, [], ◌∷◌, List, Bytes, none, some, arith, suc,
  bytes_comparable, length, if◌then◌else◌, ◌==◌, done, panic, send_on_closed, ◌>>=◌,
}
use microservice_game_servic.Base.Int.{pos, int_comparable}
use microservice_game_servic.Base.Map.{lookup, insert}
use microservice_game_servic.State.PlayerState.{apply_move}
use microservice_game_servic.State.Manager.Lookup.{find}
use microservice_game_servic.State.Manager.Spec.{entry_or_new}
use microservice_game_servic.Ws.Conn.{Conn, conn_at}
use microservice_game_servic.Ws.Conn.Sends.{sent}
use microservice_game_servic.Ws.Hub.{
  Hub, new_hub, add_to_room_locked, remove_from_room_locked, publish_broadcast_job,
  publish_ch_buf_size, enqueue, on_broadcast, on_kick_user, receivers, register_locked,
  unregister_locked, unregister, move_to_room,
}
use microservice_game_servic.Ws.Hub.Rooms.{in_room}
use microservice_game_servic.Ws.Hub.Consistent.{Consistent, empty-Consistent}
use microservice_game_servic.Ws.Hub.Operations.{
  on_kick_user-Consistent, unregister_locked-Consistent, in_room-move_to_room,
  move_to_room-Consistent,
}
use microservice_game_servic.Ws.Hub.Sessions.{
  register_locked-Consistent, register_locked_replaces, is_current, unregister_locked_lem,
  unregister_stale,
}
use microservice_game_servic.Ws.Hub.Broadcasts.{
  receives, on_broadcast_lem, on_broadcast_twice, enqueue_bounded,
}
use microservice_game_servic.Ws.Handler.{handle_player_move}
use microservice_game_servic.Ws.Handler.Moves.{find-handle_player_move, leaves}
use microservice_game_servic.Tests.Samples.{
  map_a, map_b, sample_move, one_player, one_player-IsSound, in_a, in_a-Consistent, playing,
  conn_of,
}

find-handle_player_move_example :
    find map_a (pos 7) (handle_player_move 101 1 sample_move playing).manager ≡ (
      if map_a == map_a && (conn_at 1 playing.hub.conns).user_id == pos 7
      then some (
          apply_move 101 sample_move (
            entry_or_new map_a
              (conn_at 1 playing.hub.conns).user_id
              (find map_a (conn_at 1 playing.hub.conns).user_id playing.manager)))
      else (if leaves map_a (conn_at 1 playing.hub.conns) map_a
            && (conn_at 1 playing.hub.conns).user_id == pos 7
          then none
          else find map_a (pos 7) playing.manager))
find-handle_player_move_example =
    find-handle_player_move 101 1 sample_move playing map_a (pos 7) one_player-IsSound

in_room-move_to_room_example : in_room map_b 1 (move_to_room 1 map_b in_a) ≡ true
in_room-move_to_room_example =
    in_room-move_to_room 1 map_b in_a map_b 1 in_a-Consistent (omega arith)

move_to_room-Consistent_test : Consistent (move_to_room 1 map_b in_a)
move_to_room-Consistent_test = move_to_room-Consistent 1 map_b in_a in_a-Consistent (omega arith)

register_locked-Consistent_test : Consistent (register_locked 2 in_a)
register_locked-Consistent_test = register_locked-Consistent 2 in_a in_a-Consistent (omega arith)

-- Connection 2 replaces connection 0 of the same player.
register_locked_replaces_example :
    (lookup (conn_at 2 in_a.conns).user_id (register_locked 2 in_a).conns_by_user ≡ some 2)
    × ((conn_at 0 (register_locked 2 in_a).conns).closed ≡ true)
    × (in_room map_a 0 (register_locked 2 in_a) ≡ false)
unfolding lookup conn_at
register_locked_replaces_example =
    register_locked_replaces 2 0 in_a map_a in_a-Consistent refl (ground arith)

unregister_locked-Consistent_test : Consistent (unregister_locked 0 in_a)
unregister_locked-Consistent_test = unregister_locked-Consistent 0 in_a in_a-Consistent

unregister_locked_lem_example :
    (in_room map_a 0 (unregister_locked 0 in_a) ≡ false)
    × (lookup (pos 5) (unregister_locked 0 in_a).conns_by_user ≡ (
        if is_current 0 in_a && (conn_at 0 in_a.conns).user_id == pos 5
        then none
        else lookup (pos 5) in_a.conns_by_user))
unregister_locked_lem_example = unregister_locked_lem 0 in_a map_a 0 (pos 5) in_a-Consistent

-- Player 5 has come back on connection 2, and connection 0 ends only then.
abbrev returned : Hub
returned = record in_a { conns_by_user = (pos 5, 2) ∷ (pos 7, 1) ∷ [] }

unregister_stale_example :
    (lookup (conn_at 0 returned.conns).user_id (unregister 0 returned one_player).0.conns_by_user
      ≡ some 2)
    × (find
          (conn_at 0 returned.conns).map_id
          (conn_at 0 returned.conns).user_id
          (unregister 0 returned one_player).1
        ≡ none)
unfolding lookup conn_at
unregister_stale_example =
    unregister_stale 0 2 returned one_player one_player-IsSound refl (ground arith) (ground arith)

on_kick_user-Consistent_test : Consistent (on_kick_user (pos 5) in_a)
on_kick_user-Consistent_test = on_kick_user-Consistent (pos 5) in_a in_a-Consistent

on_broadcast_lem_example :
    (conns : List Conn) × (on_broadcast map_a (9 ∷ []) (pos 7) in_a
      ≡ done (record in_a { conns = conns }))
    × ((q : ℕ)
        → conn_at q conns ≡ (
            if receives map_a (pos 7) q in_a
            then sent (9 ∷ []) (conn_at q in_a.conns)
            else conn_at q in_a.conns))
unfolding receivers lookup conn_at
on_broadcast_lem_example = on_broadcast_lem map_a (9 ∷ []) (pos 7) in_a in_a-Consistent (refl, tt)

enqueue_bounded_test :
    length (record in_a { publish_ch = publish_broadcast_job map_a [] (pos 0) ∷ [] }).publish_ch
    ≤ publish_ch_buf_size
unfolding enqueue
enqueue_bounded_test =
    enqueue_bounded (publish_broadcast_job map_a [] (pos 0)) in_a
      (record in_a { publish_ch = publish_broadcast_job map_a [] (pos 0) ∷ [] }) (omega arith) refl

-- So many packets that no more fits.
filled : ℕ → List Bytes
filled zero = []
filled (suc n) = [] ∷ filled n

length-filled : (n : ℕ) → length (filled n) ≡ n
unfolding filled
length-filled zero = refl
length-filled (suc n) = omega (arith, length-filled n)

-- Connection 1 does not read its packets.
abbrev arriving : Hub
arriving = record in_a {
  conns_by_user = [];
  rooms = [];
  conns =
      record (conn_of (pos 5)) { map_id = map_a }
      ∷ record (conn_of (pos 7)) { map_id = map_a; queue = filled 256 }
      ∷ [];
}

abbrev slow : Hub
slow = record in_a { conns = arriving.conns }

slow-Consistent : Consistent slow
unfolding register_locked add_to_room_locked remove_from_room_locked lookup insert conn_at new_hub
slow-Consistent =
    register_locked-Consistent 1 (register_locked 0 arriving)
      (register_locked-Consistent 0 arriving (empty-Consistent true arriving.conns) (omega arith))
      (omega arith)

on_broadcast_twice_example :
    (on_broadcast map_a (9 ∷ []) (pos 0) slow >>= on_broadcast map_a (8 ∷ []) (pos 0))
    ≡ panic send_on_closed
unfolding receivers lookup conn_at
on_broadcast_twice_example =
    on_broadcast_twice map_a (9 ∷ []) (8 ∷ []) (pos 0) slow 1 slow-Consistent (refl, (refl, tt))
      refl (omega (arith, length-filled 256))

-- The room of map "a" in the other order.
abbrev turned : Hub
turned = record in_a { rooms = (map_a, 1 ∷ 0 ∷ []) ∷ [] }

on_broadcast_unordered_example :
    ((on_broadcast map_a (9 ∷ []) (pos 5) in_a >>= λ g. done g.conns)
      ≡ broadcast (9 ∷ []) in_a.conns (crowd map_a (pos 5) in_a))
    × ((on_broadcast map_a (9 ∷ []) (pos 5) in_a >>= λ g. done g.conns)
        ≡ (on_broadcast map_a (9 ∷ []) (pos 5) turned >>= λ g. done g.conns))
unfolding lookup
on_broadcast_unordered_example =
    on_broadcast_unordered map_a (9 ∷ []) (pos 5) in_a turned refl (Permᴰ.swap refl refl)
