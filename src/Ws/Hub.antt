-- ===== src/Ws/Hub.antt =====
-- Hub of internal/transport/ws/hub.go. A pointer to a connection is an index of `conns`. The
-- hub's lock makes the part of a method under it one step. Where a method calls the manager, it
-- takes the manager beside the hub, as both are shared; app.New always gives the hub one.
pub mod Rooms
pub mod Consistent
pub mod Operations
pub mod Sessions
pub mod Kicks
pub mod Frames
pub mod Unordered
pub mod Broadcasts
pub mod Packets
pub mod Received
pub mod Counted
pub mod Registered
use microservice_game_servic.Base.{
  ℕ, Bool, true, false, not, List, [], ◌∷◌, ◌++◌, Bytes, Option, none, some, length, ltb, select,
  ◌==◌, nat_comparable, bytes_comparable, if◌then◌else◌, Outcome, done, panic, send_on_closed,
  close_of_closed, ◌>>=◌, nat_beq,
}
use microservice_game_servic.Base.Int.{ℤ, pos, int_comparable}
use microservice_game_servic.Base.Map.{Map, lookup, insert, erase}
use microservice_game_servic.Bus.Wire.{Message, publish_broadcast, publish_kick_user, BusHandler}
use microservice_game_servic.State.Manager.{Manager, remove_player_from_map}
use microservice_game_servic.Ws.Conn.{Conn, close, send_all, set_map_id, conn_at, write_conn}

-- `kind` of the source's struct, with the fields that the kind uses.
pub data PublishJob : Type 0 where
  publish_broadcast_job : Bytes → Bytes → ℤ → PublishJob
  publish_kick_job : ℤ → PublishJob

-- `bus_set` says that `bus` is not nil; `publish_ch` is the content of that channel. A room is
-- the set of the pointers in its list.
pub record Hub : Type 0 where
  pub bus_set : Bool
  pub conns : List Conn
  pub conns_by_user : Map ℤ ℕ
  pub rooms : Map Bytes (List ℕ)
  pub publish_ch : List PublishJob
  pub publish_closed : Bool

abbrev pub publish_ch_buf_size : ℕ
publish_ch_buf_size = 4096

unfoldable pub new_hub : Bool → Hub
new_hub bus_set = record {
  bus_set = bus_set;
  conns = [];
  conns_by_user = [];
  rooms = [];
  publish_ch = [];
  publish_closed = false;
}

-- `room[c] = struct{}{}` and `delete(room, c)`.
abbrev pub room_add : ℕ → List ℕ → List ℕ
room_add r [] = r ∷ []
room_add r (q ∷ room) = if nat_beq q r then q ∷ room else q ∷ room_add r room

abbrev pub room_delete : ℕ → List ℕ → List ℕ
room_delete r [] = []
room_delete r (q ∷ room) = let rest = room_delete r room in if nat_beq q r then rest else q ∷ rest

abbrev pub or_empty : Option (List ℕ) → List ℕ
or_empty none = []
or_empty (some room) = room

unfoldable pub add_to_room_locked : ℕ → Hub → Hub
add_to_room_locked r h =
    let map_id = (conn_at r h.conns).map_id in
    if map_id == []
    then h
    else record h { rooms = insert map_id (room_add r (or_empty (lookup map_id h.rooms))) h.rooms }

unfoldable pub remove_from_room_locked : ℕ → Hub → Hub
remove_from_room_locked r h =
    let map_id = (conn_at r h.conns).map_id in
    if map_id == [] then h else (elim (lookup map_id h.rooms) [
      | none ↦ h
      | some room ↦
          let room' = room_delete r room in
          if nat_beq (length room') 0
          then record h { rooms = erase map_id h.rooms }
          else record h { rooms = insert map_id room' h.rooms }
    ])

-- A send into a channel with no room left drops the job.
unfoldable pub enqueue : PublishJob → Hub → Outcome Hub
enqueue job h =
    if not h.bus_set
    then done h
    else (if h.publish_closed
        then panic send_on_closed
        else (if ltb (length h.publish_ch) publish_ch_buf_size
            then done (record h { publish_ch = h.publish_ch ++ job ∷ [] })
            else done h))

unfoldable pub close_conn : ℕ → Hub → Hub
close_conn r h = record h { conns = write_conn r (close (conn_at r h.conns)) h.conns }

-- The connections that OnBroadcast copies out of the room.
unfoldable pub receivers : Bytes → ℤ → Hub → List ℕ
receivers map_id exclude_user_id h =
    select (λ r. not ((conn_at r h.conns).user_id == exclude_user_id))
      (or_empty (lookup map_id h.rooms))

unfoldable pub on_broadcast : Bytes → Bytes → ℤ → Hub → Outcome Hub
on_broadcast map_id message exclude_user_id h =
    send_all message (receivers map_id exclude_user_id h) h.conns >>= λ conns.
    done (record h { conns = conns })

unfoldable pub on_kick_user : ℤ → Hub → Hub
on_kick_user user_id h = elim (lookup user_id h.conns_by_user) [
  | none ↦ h
  | some r ↦
      close_conn r
        (remove_from_room_locked r (record h { conns_by_user = erase user_id h.conns_by_user }))
]

unfoldable pub broadcast_to_map_exclude_user : Bytes → Bytes → ℤ → Hub → Outcome Hub
broadcast_to_map_exclude_user map_id message exclude_user_id h =
    on_broadcast map_id message exclude_user_id h
    >>= enqueue (publish_broadcast_job map_id message exclude_user_id)

-- With no connection to leave out the user id is 0.
unfoldable pub broadcast_to_map : Bytes → Bytes → Option ℕ → Hub → Outcome Hub
broadcast_to_map map_id message none h = broadcast_to_map_exclude_user map_id message (pos 0) h
broadcast_to_map map_id message (some r) h =
    broadcast_to_map_exclude_user map_id message (conn_at r h.conns).user_id h

unfoldable pub kick_user : ℤ → Hub → Outcome Hub
kick_user user_id h = enqueue (publish_kick_job user_id) (on_kick_user user_id h)

-- The part of `register` under the lock.
unfoldable pub register_locked : ℕ → Hub → Hub
register_locked r h =
    let user_id = (conn_at r h.conns).user_id in
    let h' : Hub = elim (lookup user_id h.conns_by_user) [
      | none ↦ h
      | some old ↦ remove_from_room_locked old (close_conn old h)
    ] in
    add_to_room_locked r (record h' { conns_by_user = insert user_id r h'.conns_by_user })

unfoldable pub register : ℕ → Hub → Outcome Hub
register r h = enqueue (publish_kick_job (conn_at r h.conns).user_id) (register_locked r h)

-- The part of `unregister` under the lock.
unfoldable pub unregister_locked : ℕ → Hub → Hub
unregister_locked r h =
    let user_id = (conn_at r h.conns).user_id in
    let users : Map ℤ ℕ = elim (lookup user_id h.conns_by_user) [
      | none ↦ h.conns_by_user
      | some q ↦ if nat_beq q r then erase user_id h.conns_by_user else h.conns_by_user
    ] in
    remove_from_room_locked r (record h { conns_by_user = users })

unfoldable pub unregister : ℕ → Hub → Manager → Hub × Manager
unregister r h m =
    let c = conn_at r h.conns in
    (
      unregister_locked r h,
      if c.map_id == [] then m else remove_player_from_map c.map_id c.user_id m,
    )

unfoldable pub move_to_room : ℕ → Bytes → Hub → Hub
move_to_room r new_map h =
    let h' = remove_from_room_locked r h in
    add_to_room_locked r
      (record h' { conns = write_conn r (set_map_id new_map (conn_at r h'.conns)) h'.conns })

unfoldable pub stats : Hub → ℕ × ℕ
stats h = (length h.conns_by_user, length h.rooms)

-- One round of publishWorker: what a job publishes for an instance of that id.
unfoldable pub publish_job : (Bytes → Bytes) → Bytes → PublishJob → Message
publish_job parse_uuid node_id (publish_broadcast_job map_id message exclude_user_id) =
    publish_broadcast parse_uuid node_id map_id message exclude_user_id
publish_job parse_uuid node_id (publish_kick_job user_id) =
    publish_kick_user parse_uuid node_id user_id

-- What publishWorker takes from the channel next; `none` is a worker that waits or has ended.
unfoldable pub publish_worker : (Bytes → Bytes) → Bytes → Hub → Option (Message × Hub)
publish_worker parse_uuid node_id h = elim h.publish_ch [
  | [] ↦ none
  | job ∷ rest ↦ some (publish_job parse_uuid node_id job, record h { publish_ch = rest })
]

-- `close(h.publishCh)`, which panics on a channel that is closed already.
unfoldable pub close_hub : Hub → Outcome Hub
close_hub h =
    if h.publish_closed then panic close_of_closed else done (record h { publish_closed = true })

-- The hub as the handler of its bus.
unfoldable pub hub_handler : BusHandler Hub
hub_handler = record { on_broadcast = on_broadcast; on_kick_user = λ u h. done (on_kick_user u h) }
