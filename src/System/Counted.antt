-- ===== src/System/Counted.antt =====
-- The numbers of internal/transport/ws/hub.go's Stats in every reachable state.
use microservice_game_servic.Base.{◌≤◌, Bool, length}
use microservice_game_servic.Ws.Hub.{Hub, new_hub, stats}
use microservice_game_servic.Ws.Hub.Counted.{
  Tidy, stats-le, register_locked-Tidy, unregister_locked-Tidy, move_to_room-Tidy,
  on_kick_user-Tidy,
}
use microservice_game_servic.Ws.Hub.{close_conn}
use microservice_game_servic.Ws.Handler.{Game}
use microservice_game_servic.System.{
  HubStep, add_conn, registers, unregisters, moves, closes, kicks, sends, writes, enqueues,
  publishes, shuts, in_hub, in_manager, Reach, here, later, start_game,
}
use microservice_game_servic.System.Channels.{enqueue-jobs, close_hub-jobs}
use microservice_game_servic.System.Healthy.{Reach-Healthy}

HubStep-Tidy : {h h' : Hub} → HubStep h h' → Tidy h → Tidy h'
unfolding close_conn
HubStep-Tidy (add_conn c h e f) t = record { users = t.users; rooms = t.rooms }
HubStep-Tidy (registers r h lt) t = register_locked-Tidy r h t
HubStep-Tidy (unregisters r h) t = unregister_locked-Tidy r h t
HubStep-Tidy (moves r k h lt) t = move_to_room-Tidy r k h t
HubStep-Tidy (closes r h lt) t = record { users = t.users; rooms = t.rooms }
HubStep-Tidy (kicks u h) t = on_kick_user-Tidy u h t
HubStep-Tidy (sends message r c h lt e) t = record { users = t.users; rooms = t.rooms }
HubStep-Tidy (writes message queue r h lt e) t = record { users = t.users; rooms = t.rooms }
HubStep-Tidy (enqueues job h h' e) t =
    rw (enqueue-jobs job h h' e) (record { users = t.users; rooms = t.rooms })
HubStep-Tidy (publishes job jobs h e) t = record { users = t.users; rooms = t.rooms }
HubStep-Tidy (shuts h h' e) t =
    rw (close_hub-jobs h h' e) (record { users = t.users; rooms = t.rooms })

Reach-Tidy : (bus_set : Bool) (g : Game) → Reach (start_game bus_set) g → Tidy g.hub
unfolding start_game new_hub
Reach-Tidy bus_set g here = record { users = tt; rooms = tt }
Reach-Tidy bus_set g (later {g'} r (in_hub s)) = HubStep-Tidy s (Reach-Tidy bus_set g' r)
Reach-Tidy bus_set g (later {g'} r (in_manager s)) = Reach-Tidy bus_set g' r

-- Whatever steps the goroutines of an instance take, in whatever order, Stats reports no more users
-- and no more rooms than connections have been made.
pub stats-bounded :
    (bus_set : Bool) (g : Game)
    → Reach (start_game bus_set) g
    → ((stats g.hub).0 ≤ length g.hub.conns) × ((stats g.hub).1 ≤ length g.hub.conns)
stats-bounded bus_set g r =
    stats-le g.hub (Reach-Healthy bus_set g r).hub.consistent (Reach-Tidy bus_set g r)
