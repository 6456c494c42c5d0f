-- ===== src/System/Healthy.antt =====
-- Every state that an instance can reach is in order, however its goroutines interleave.
use microservice_game_servic.Base.{
  ℕ, ◌<◌, ◌≤◌, ◌≡◌, refl, ap, Bool, true, [], Bytes, length, inl, inr, arith, bytes_comparable,
}
use microservice_game_servic.Base.Int.{int_comparable}
use microservice_game_servic.State.Manager.{
  Manager, map_at, get_or_create_map, create_map, update_at, remove_at,
}
use microservice_game_servic.State.Manager.Lookup.{
  IsSound, write_at-IsSound, map_id-update_from_move, map_id-remove_player, new_manager-IsSound,
}
use microservice_game_servic.State.Manager.Spec.{get_or_create_map-Created}
use microservice_game_servic.State.Manager.Removal.{delete_if_empty-IsSound}
use microservice_game_servic.Ws.Conn.{conn_at, send_capacity}
use microservice_game_servic.Ws.Hub.{Hub, publish_ch_buf_size, new_hub}
use microservice_game_servic.Ws.Hub.Consistent.{
  Consistent, append-Consistent, jobs-Consistent, write_conn-Consistent, empty-Consistent,
}
use microservice_game_servic.Ws.Hub.Operations.{
  close_conn-Consistent, on_kick_user-Consistent, unregister_locked-Consistent,
  move_to_room-Consistent,
}
use microservice_game_servic.Ws.Hub.Sessions.{register_locked-Consistent}
use microservice_game_servic.Ws.Hub.Packets.{send-keeps}
use microservice_game_servic.Ws.Handler.{Game}
use microservice_game_servic.Loop.Ticker.Collected.{collect_at-IsSound}
use microservice_game_servic.System.{
  HubStep, add_conn, registers, unregisters, moves, closes, kicks, sends, writes, enqueues,
  publishes, shuts, ManagerStep, creates, updates, removes, deletes, collects, Step, in_hub,
  in_manager, Reach, here, later, start_game,
}
use microservice_game_servic.System.Channels.{
  enqueue-jobs, close_hub-jobs, HubStep-jobs, HubStep-fresh,
}
use microservice_game_servic.System.Monotone.{HubStep-Ages}

-- The tables of the hub agree with the connections, and no channel holds more than it may.
pub record HubHealthy (h : Hub) : Type 0 where
  pub consistent : Consistent h
  pub jobs_bounded : length h.publish_ch ≤ publish_ch_buf_size
  pub queues_bounded :
      (q : ℕ) → q < length h.conns → length (conn_at q h.conns).queue ≤ send_capacity

pub record Healthy (g : Game) : Type 0 where
  pub hub : HubHealthy g.hub
  pub sound : IsSound g.manager

HubStep-Consistent : {h h' : Hub} → HubStep h h' → Consistent h → Consistent h'
HubStep-Consistent (add_conn c h e f) s = append-Consistent h c s
HubStep-Consistent (registers r h lt) s = register_locked-Consistent r h s lt
HubStep-Consistent (unregisters r h) s = unregister_locked-Consistent r h s
HubStep-Consistent (moves r k h lt) s = move_to_room-Consistent r k h s lt
HubStep-Consistent (closes r h lt) s = close_conn-Consistent r h lt s
HubStep-Consistent (kicks u h) s = on_kick_user-Consistent u h s
HubStep-Consistent (sends message r c h lt e) s =
    let (m, u) = send-keeps message (conn_at r h.conns) c e in
    write_conn-Consistent h r c lt u (λ k i. m) s
HubStep-Consistent (writes message queue r h lt e) s =
    write_conn-Consistent h r _ lt refl (λ k i. refl) s
HubStep-Consistent (enqueues job h h' e) s =
    rw (enqueue-jobs job h h' e) (jobs-Consistent h h'.publish_ch h.publish_closed s)
HubStep-Consistent (publishes job jobs h e) s = jobs-Consistent h jobs h.publish_closed s
HubStep-Consistent (shuts h h' e) s =
    rw (close_hub-jobs h h' e) (jobs-Consistent h h.publish_ch true s)

-- Every step of the hub keeps it healthy.
HubStep-HubHealthy : {h h' : Hub} → HubStep h h' → HubHealthy h → HubHealthy h'
HubStep-HubHealthy {h} {h'} s i = record {
  consistent = HubStep-Consistent s i.consistent;
  jobs_bounded = HubStep-jobs s i.jobs_bounded;
  queues_bounded = λ q lt. elim (HubStep-fresh s q lt) [
    | inl old ↦ ((HubStep-Ages s).each q old).bounded (i.queues_bounded q old)
    | inr new ↦ omega (arith, ap length new)
  ];
}

pub create_map-get_or_create_map :
    (k : Bytes) (m : Manager) → create_map k m ≡ get_or_create_map k m
unfolding create_map get_or_create_map
create_map-get_or_create_map k m = ground arith

ManagerStep-IsSound : {m m' : Manager} → ManagerStep m m' → IsSound m → IsSound m'
unfolding update_at remove_at
ManagerStep-IsSound (creates k m) s =
    rw create_map-get_or_create_map (get_or_create_map-Created k m s).sound
ManagerStep-IsSound (updates now u move r m lt) s =
    write_at-IsSound m r _ s lt (map_id-update_from_move now u move (map_at r m))
ManagerStep-IsSound (removes u r m lt) s =
    write_at-IsSound m r _ s lt (map_id-remove_player u (map_at r m))
ManagerStep-IsSound (deletes k r m) s = delete_if_empty-IsSound k r m s
ManagerStep-IsSound (collects both r m lt) s = collect_at-IsSound both r m lt s

-- Every atomic step of any goroutine keeps the hub's tables consistent, its channels within their
-- capacity and the manager sound.
pub Step-Healthy : {g g' : Game} → Step g g' → Healthy g → Healthy g'
Step-Healthy (in_hub s) i = record { hub = HubStep-HubHealthy s i.hub; sound = i.sound }
Step-Healthy (in_manager s) i = record { hub = i.hub; sound = ManagerStep-IsSound s i.sound }

start_game-Healthy : (bus_set : Bool) → Healthy (start_game bus_set)
unfolding start_game new_hub
start_game-Healthy bus_set = record {
  hub = record {
    consistent = empty-Consistent bus_set [];
    jobs_bounded = omega arith;
    queues_bounded = λ q lt. absurd (omega (arith, lt));
  };
  sound = new_manager-IsSound;
}

-- Any number of steps keep an instance in order.
pub Steps-Healthy : {g later_g : Game} → Reach g later_g → Healthy g → Healthy later_g
Steps-Healthy here i = i
Steps-Healthy (later r s) i = Step-Healthy s (Steps-Healthy r i)

-- Whatever steps the goroutines of an instance take, in whatever order, the hub's tables are
-- consistent, the channels are within their capacity and the manager is sound.
pub Reach-Healthy : (bus_set : Bool) (g : Game) → Reach (start_game bus_set) g → Healthy g
Reach-Healthy bus_set g r = Steps-Healthy r (start_game-Healthy bus_set)
