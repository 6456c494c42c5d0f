-- ===== src/System/Runs/Reading.antt =====
-- The read loop of a connection as a run of the atomic steps, from its first frame to its end.
use microservice_game_servic.Base.{
  ℕ, List, [], ◌∷◌, Bytes, Option, some, none, Bool-cases, inl, inr, bytes_comparable, ◌==◌,
  if◌then◌else◌,
}
use microservice_game_servic.Base.Int.{ℤ}
use microservice_game_servic.Protocol.{
  Envelope, PlayerMove, player_move, empty, handshake, handshake_ack, handshake_nack, player_sync,
  player_sync_batch,
}
use microservice_game_servic.State.Manager.{
  Manager, get_or_create_map, update_at, remove_player_from_map,
}
use microservice_game_servic.State.Manager.Lookup.{IsSound}
use microservice_game_servic.State.Manager.Spec.{get_or_create_map-Created}
use microservice_game_servic.State.Manager.Removal.{remove_player_from_map-IsSound}
use microservice_game_servic.Ws.Conn.{Conn, conn_at}
use microservice_game_servic.Ws.Hub.{Hub, move_to_room, unregister, unregister_locked}
use microservice_game_servic.Ws.Hub.Operations.{length-unregister_locked}
use microservice_game_servic.Ws.Handler.{
  Game, switch_map, current_map, handle_player_move, handle_envelope, handle,
}
use microservice_game_servic.Ws.Loops.{
  Incoming, read_error, text_frame, binary_frame, end_read, read_loop,
}
use microservice_game_servic.Ws.Loops.Ended.{InOrder, handle_envelope-InOrder}
use microservice_game_servic.System.{moves, closes, unregisters, updates, Reach, here}
use microservice_game_servic.System.Runs.{
  Reach-trans, hub_step, manager_step, get_or_create_map-Reach, remove_player_from_map-Reach,
}

-- What becomes of the manager when a connection leaves its map.
leaving-Reach :
    (c : Conn) (h : Hub) (m : Manager)
    → IsSound m
    → Reach
        (record { hub = h; manager = m })
        (record {
          hub = h;
          manager = if c.map_id == [] then m else remove_player_from_map c.map_id c.user_id m;
        })
leaving-Reach c h m s = elim (Bool-cases (c.map_id == [])) [
  | inl e ↦ rw e here
  | inr e ↦ rw e (remove_player_from_map-Reach c.map_id c.user_id h m s)
]

leaving-IsSound :
    (c : Conn) (m : Manager)
    → IsSound m
    → IsSound (if c.map_id == [] then m else remove_player_from_map c.map_id c.user_id m)
leaving-IsSound c m s = elim (Bool-cases (c.map_id == [])) [
  | inl e ↦ rw e s
  | inr e ↦ rw e (remove_player_from_map-IsSound c.map_id c.user_id m s)
]

-- GetOrCreateMap and UpdateFromMove.
update-Reach :
    (now r : ℕ) (move : PlayerMove) (u : ℤ) (h : Hub) (m : Manager)
    → IsSound m
    → Reach
        (record { hub = h; manager = m })
        (record {
          hub = h;
          manager =
              update_at now u move
                (get_or_create_map move.map_id m).0
                (get_or_create_map move.map_id m).1;
        })
update-Reach now r move u h m s =
    let made = get_or_create_map-Created move.map_id m s in
    Reach-trans (get_or_create_map-Reach move.map_id h m)
      (manager_step (updates now u move _ _ (made.sound.in_heap move.map_id _ made.stored)))

pub handle_player_move-Reach :
    (now r : ℕ) (move : PlayerMove) (g : Game)
    → InOrder r g
    → Reach g (handle_player_move now r move g)
unfolding handle_player_move switch_map current_map
handle_player_move-Reach now r move g o =
    let c : Conn = conn_at r g.hub.conns in
    elim (Bool-cases (c.map_id == move.map_id)) [
      | inl e ↦
          rw (e, handle_player_move) (update-Reach now r move c.user_id g.hub g.manager o.sound)
      | inr e ↦
          let m : Manager =
            if c.map_id == []
            then g.manager
            else remove_player_from_map c.map_id c.user_id g.manager in
          rw (e, handle_player_move)
            (Reach-trans (leaving-Reach c g.hub g.manager o.sound) (
              Reach-trans (hub_step (moves r move.map_id g.hub o.known)) (
                update-Reach now r move c.user_id (move_to_room r move.map_id g.hub) m
                  (leaving-IsSound c g.manager o.sound))))
    ]

end_read-Reach : (r : ℕ) (g : Game) → InOrder r g → Reach g (end_read r g)
unfolding end_read unregister
end_read-Reach r g o =
    let c : Conn = conn_at r g.hub.conns in
    Reach-trans (hub_step (unregisters r g.hub)) (
      Reach-trans (leaving-Reach c (unregister_locked r g.hub) g.manager o.sound)
        (hub_step (closes r (unregister_locked r g.hub) (rw length-unregister_locked o.known))))

handle_envelope-Reach :
    (now r : ℕ) (envelope : Option Envelope) (g : Game)
    → InOrder r g
    → Reach g (handle_envelope now r envelope g)
handle_envelope-Reach now r none g o = here
handle_envelope-Reach now r (some (player_move move)) g o = handle_player_move-Reach now r move g o
handle_envelope-Reach now r (some empty) g o = here
handle_envelope-Reach now r (some (handshake hs)) g o = here
handle_envelope-Reach now r (some handshake_ack) g o = here
handle_envelope-Reach now r (some (handshake_nack reason)) g o = here
handle_envelope-Reach now r (some (player_sync p)) g o = here
handle_envelope-Reach now r (some (player_sync_batch ps)) g o = here

module _ (unmarshal : Bytes → Option Envelope) where
  -- The read loop of a connection of the heap, over a hub that is consistent and a manager that is
  -- sound, whatever it reads, does nothing but the atomic steps of the instance.
  pub read_loop-Reach :
      (r : ℕ) (frames : List Incoming) (g : Game)
      → InOrder r g
      → Reach g (read_loop unmarshal r frames g)
  unfolding read_loop handle
  read_loop-Reach r [] g o = here
  read_loop-Reach r (read_error ∷ frames) g o = end_read-Reach r g o
  read_loop-Reach r (text_frame ∷ frames) g o = read_loop-Reach r frames g o
  read_loop-Reach r (binary_frame now [] ∷ frames) g o = read_loop-Reach r frames g o
  read_loop-Reach r (binary_frame now (b ∷ message) ∷ frames) g o =
      let envelope : Option Envelope = unmarshal (b ∷ message) in
      Reach-trans (handle_envelope-Reach now r envelope g o) (
        read_loop-Reach r frames (handle unmarshal now r (b ∷ message) g)
          (handle_envelope-InOrder now r envelope g o))
