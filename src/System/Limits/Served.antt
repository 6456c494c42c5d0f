-- ===== src/System/Limits/Served.antt =====
-- The read limit of internal/transport/ws/conn.go keeps the names of maps that an instance
-- publishes below the length at which decodeBroadcast of internal/infra/bus/redis.go panics.
use microservice_game_servic.Base.{
  ◌≡◌, sym, ap, ◌∙◌, Bool, ◌∷◌, Bytes, some, length, Option-cases, inl, inr,
}
use microservice_game_servic.State.Manager.{Manager}
use microservice_game_servic.State.Manager.Names.{
  new_manager-ShortNames, remove_player_from_map-ShortNames,
}
use microservice_game_servic.Bus.Nats.Wire.{on_disconnect}
use microservice_game_servic.Bus.Wire.{Message}
use microservice_game_servic.Ws.Hub.{Hub, new_hub, publish_worker}
use microservice_game_servic.Ws.Hub.Frames.{jobs-on_broadcast}
use microservice_game_servic.Ws.Hub.Received.{dispatch_done}
use microservice_game_servic.Ws.Handler.{Game}
use microservice_game_servic.Ws.Handshake.Served.{serve_http_done}
use microservice_game_servic.Ws.Loops.{max_message_size}
use microservice_game_servic.System.{start_game}
use microservice_game_servic.System.Channels.{jobs-on_kick_user}
use microservice_game_servic.System.Calls.{
  Libraries, Call, reads, ticks, requests, receives, disconnected,
}
use microservice_game_servic.System.Limits.{Short, WithinLimit, NamesWithin, read_loop-Short}
use microservice_game_servic.System.Limits.Jobs.{ShortJobs, register-ShortJobs, publish_worker-some}
use microservice_game_servic.System.Limits.Ticks.{run-Short}

-- The frames of a call are within the read limit.
abbrev pub Limited : {l : Libraries} {g g' : Game} → Call l g g' → Type 0
Limited (reads r frames g lt) = WithinLimit frames
Limited (ticks events t t' g g' batches e) = Unit {0}
Limited (requests upgraded frame acked h h' m e) = Unit {0}
Limited (receives node_id payload h h' m e) = Unit {0}
Limited (disconnected message h m) = Unit {0}

-- Calls one after the other, in any order, with a publish worker that takes jobs between them.
pub data Calls (l : Libraries) (g : Game) : Game → Type 0 where
  no_call : Calls l g g
  then_published :
      {g' : Game} {h : Hub} (node_id : Bytes) (message : Message)
      → Calls l g g'
      → publish_worker l.parse_uuid node_id g'.hub ≡ some (message, h)
      → Calls l g (record g' { hub = h })
  and_then : {g' g'' : Game} → Calls l g g' → (c : Call l g' g'') → Limited c → Calls l g g''

on_disconnect-names :
    (l : Libraries) (message : Bytes) (h : Hub) (m : Manager)
    → Short (record { hub = h; manager = m })
    → Short (record { hub = h; manager = on_disconnect l.unmarshal_json message m })
unfolding on_disconnect
on_disconnect-names l message h m s = elim (Option-cases (l.unmarshal_json message)) [
  | inl bad ↦ rw (bad, on_disconnect) s
  | inr ((u, k), read) ↦
      rw (read, on_disconnect)
        (record {
          names = remove_player_from_map-ShortNames max_message_size k u m s.names;
          jobs = s.jobs;
        })
]

same_hub :
    {h h' : Hub} {m : Manager}
    → h'.publish_ch ≡ h.publish_ch
    → Short (record { hub = h; manager = m })
    → Short (record { hub = h'; manager = m })
same_hub e s = record { names = s.names; jobs = rw e s.jobs }

Call-Short :
    {l : Libraries} {g g' : Game}
    → NamesWithin l.unmarshal
    → (c : Call l g g') → Limited c
    → Short g
    → Short g'
Call-Short {l} within (reads r frames g lt) w s = read_loop-Short l.unmarshal within r frames g w s
Call-Short {l} within (ticks events t t' g g' batches e) w s =
    run-Short l.marshal events t t' g g' batches s e
Call-Short {l} within (requests upgraded frame acked h h' m e) w s =
    elim (serve_http_done l.verify l.unmarshal upgraded frame acked h h' e) [
      | inl same ↦ same_hub (ap (λ x. x.publish_ch) (sym same)) s
      | inr (inl failed) ↦ same_hub (ap (λ x. x.publish_ch) (sym failed)) s
      | inr (inr registered) ↦ record {
        names = s.names;
        jobs = register-ShortJobs max_message_size (length h.conns) _ h' s.jobs registered;
      }
    ]
Call-Short {l} within (receives node_id payload h h' m e) w s =
    elim (dispatch_done l.parse_uuid node_id payload h h' e) [
      | inl same ↦ same_hub (ap (λ x. x.publish_ch) (sym same)) s
      | inr (inl (k, message, u, sent)) ↦ same_hub (jobs-on_broadcast k message u h h' sent).1 s
      | inr (inr (u, kicked)) ↦
          same_hub (ap (λ x. x.publish_ch) (sym kicked) ∙ jobs-on_kick_user u h) s
    ]
Call-Short {l} within (disconnected message h m) w s = on_disconnect-names l message h m s

publish_worker-Short :
    (parse_uuid : Bytes → Bytes) (node_id : Bytes) (message : Message) (h : Hub) (g : Game)
    → publish_worker parse_uuid node_id g.hub ≡ some (message, h)
    → Short g
    → Short (record g { hub = h })
publish_worker-Short parse_uuid node_id message h g e s =
    let (job, jobs, waiting, sent, after) =
      publish_worker-some parse_uuid node_id message g.hub h e in
    let all : ShortJobs max_message_size (job ∷ jobs) = rw waiting at s.jobs in
    record { names = s.names; jobs = rw after all.1 }

start_game-Short : (bus_set : Bool) → Short (start_game bus_set)
unfolding start_game new_hub
start_game-Short bus_set = record { names = new_manager-ShortNames max_message_size; jobs = tt }

-- Where frames are within the read limit of 4096 bytes and a message is no shorter than the name
-- of a map in it: whatever calls an instance has made since its start, one after the other, no map
-- in memory and no broadcast that waits for the bus has a name of more than 4096 bytes.
pub Calls-Short :
    {l : Libraries} (bus_set : Bool) (g : Game)
    → NamesWithin l.unmarshal
    → Calls l (start_game bus_set) g
    → Short g
Calls-Short bus_set g within no_call = start_game-Short bus_set
Calls-Short {l} bus_set g within (then_published {g'} {h} node_id message calls e) =
    publish_worker-Short l.parse_uuid node_id message h g' e (Calls-Short bus_set g' within calls)
Calls-Short bus_set g within (and_then {g'} calls c w) =
    Call-Short within c w (Calls-Short bus_set g' within calls)
