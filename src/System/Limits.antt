-- ===== src/System/Limits.antt =====
-- How long the name of a map can get: the read limit of internal/transport/ws/conn.go bounds it for
-- the rest of the instance, up to the jobs of internal/transport/ws/hub.go for the other instances.
pub mod Jobs
pub mod Ticks
pub mod Served
pub mod Decoded
use microservice_game_servic.Base.{
  ℕ, ◌≤◌, ◌<◌, ◌≡◌, refl, sym, ap, ◌∙◌, ◌&&◌, Bool, List, [], ◌∷◌, map, Bytes, Option, none, some,
  length, nat_beq, Bool-cases, Option-cases, inl, inr, arith, done, bind_done, done_injective,
  bytes_comparable, ◌==◌,
}
use microservice_game_servic.Base.Int.{ℤ, pos}
use microservice_game_servic.Protocol.{
  Envelope, PlayerMove, player_move, empty, handshake, handshake_ack, handshake_nack, player_sync,
  player_sync_batch,
}
use microservice_game_servic.State.Manager.{Manager, map_at, remove_player_from_map, all_maps}
use microservice_game_servic.State.Manager.Names.{
  ShortNames, new_manager-ShortNames, move_player-ShortNames, remove_player_from_map-ShortNames,
}
use microservice_game_servic.Ws.Conn.{Conn, conn_at}
use microservice_game_servic.Ws.Hub.{Hub, PublishJob, unregister, close_conn}
use microservice_game_servic.Ws.Handler.{Game, handle, handle_envelope, handle_player_move}
use microservice_game_servic.Ws.Handler.Moves.{manager-handle_player_move, left_manager}
use microservice_game_servic.Ws.Loops.{
  Incoming, read_error, text_frame, binary_frame, end_read, read_loop, max_message_size,
}
use microservice_game_servic.System.Limits.Jobs.{
  ShortJobs, jobs-handle_player_move, jobs-unregister_locked,
}

-- No name of a map in the manager or in a job is longer than a message of a client may be.
pub record Short (g : Game) : Type 0 where
  pub names : ShortNames max_message_size g.manager
  pub jobs : ShortJobs max_message_size g.hub.publish_ch

left_manager-ShortNames :
    (n : ℕ) (k : Bytes) (c : Conn) (m : Manager)
    → ShortNames n m
    → ShortNames n (left_manager k c m)
left_manager-ShortNames n k c m s = elim (Bool-cases (c.map_id == k)) [
  | inl e ↦ rw e s
  | inr e ↦ elim (Bool-cases (c.map_id == [])) [
    | inl f ↦ rw (e, f) s
    | inr f ↦ rw (e, f) (remove_player_from_map-ShortNames n c.map_id c.user_id m s)
  ]
]

-- What the library delivers under the read limit.
abbrev pub WithinLimit : List Incoming → Type 0
WithinLimit [] = Unit {0}
WithinLimit (read_error ∷ frames) = WithinLimit frames
WithinLimit (text_frame ∷ frames) = WithinLimit frames
WithinLimit (binary_frame now content ∷ frames) =
    (length content ≤ max_message_size) × WithinLimit frames

-- A text in a message is no longer than the message.
abbrev pub NamesWithin : (Bytes → Option Envelope) → Type 0
NamesWithin unmarshal =
    (content : Bytes) (move : PlayerMove)
    → unmarshal content ≡ some (player_move move)
    → length move.map_id ≤ length content

handle_player_move-Short :
    (now r : ℕ) (move : PlayerMove) (g : Game)
    → length move.map_id ≤ max_message_size
    → Short g
    → Short (handle_player_move now r move g)
handle_player_move-Short now r move g short s = record {
  names = rw (manager-handle_player_move now r move g) (
      move_player-ShortNames max_message_size now move.map_id _ move _ short (
        left_manager-ShortNames max_message_size move.map_id (conn_at r g.hub.conns) g.manager
          s.names));
  jobs = rw (jobs-handle_player_move now r move g) s.jobs;
}

handle_envelope-Short :
    (now r : ℕ) (envelope : Option Envelope) (g : Game)
    → ((move : PlayerMove)
        → envelope ≡ some (player_move move)
        → length move.map_id ≤ max_message_size)
    → Short g
    → Short (handle_envelope now r envelope g)
handle_envelope-Short now r none g short s = s
handle_envelope-Short now r (some (player_move move)) g short s =
    handle_player_move-Short now r move g (short move refl) s
handle_envelope-Short now r (some empty) g short s = s
handle_envelope-Short now r (some (handshake hs)) g short s = s
handle_envelope-Short now r (some handshake_ack) g short s = s
handle_envelope-Short now r (some (handshake_nack reason)) g short s = s
handle_envelope-Short now r (some (player_sync p)) g short s = s
handle_envelope-Short now r (some (player_sync_batch ps)) g short s = s

end_read-Short : (r : ℕ) (g : Game) → Short g → Short (end_read r g)
unfolding end_read unregister close_conn
end_read-Short r g s = record {
  names = elim (Bool-cases ((conn_at r g.hub.conns).map_id == [])) [
    | inl nowhere ↦ rw nowhere s.names
    | inr somewhere ↦
        rw somewhere (remove_player_from_map-ShortNames max_message_size _ _ g.manager s.names)
  ];
  jobs = rw (jobs-unregister_locked r g.hub) s.jobs;
}

module _ (unmarshal : Bytes → Option Envelope) (within : NamesWithin unmarshal) where
  pub read_loop-Short :
      (r : ℕ) (frames : List Incoming) (g : Game)
      → WithinLimit frames
      → Short g
      → Short (read_loop unmarshal r frames g)
  unfolding read_loop handle
  read_loop-Short r [] g w s = s
  read_loop-Short r (read_error ∷ frames) g w s = end_read-Short r g s
  read_loop-Short r (text_frame ∷ frames) g w s = read_loop-Short r frames g w s
  read_loop-Short r (binary_frame now [] ∷ frames) g w s = read_loop-Short r frames g w.1 s
  read_loop-Short r (binary_frame now (b ∷ content) ∷ frames) g w s =
      read_loop-Short r frames (handle unmarshal now r (b ∷ content) g) w.1 (
        handle_envelope-Short now r (unmarshal (b ∷ content)) g
          (λ move e. omega (arith, within (b ∷ content) move e, w.0)) s)
