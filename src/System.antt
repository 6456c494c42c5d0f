-- ===== src/System.antt =====
-- The running instance: the read loops, the tick loop, the handshakes, the bus callbacks and the
-- publish workers share one hub and one manager, in internal/transport/ws/hub.go,
-- internal/transport/ws/conn.go and internal/game/state/manager.go. A mutex or a channel makes
-- each step below atomic; between two steps of one goroutine any other may come, so the arguments
-- of a step are arbitrary.
pub mod Healthy
pub mod Monotone
pub mod Channels
pub mod Runs
pub mod Disconnects
pub mod Kicked
pub mod Calls
pub mod Order
pub mod Counted
pub mod Table
pub mod Flushed
pub mod Limits
use microservice_game_servic.Base.{
  ℕ, ◌<◌, ◌≤◌, ◌≡◌, Bool, true, List, [], ◌∷◌, ◌++◌, Bytes, some, length, done,
}
use microservice_game_servic.Base.Int.{ℤ}
use microservice_game_servic.Base.Map.{lookup}
use microservice_game_servic.Protocol.{PlayerMove}
use microservice_game_servic.State.Manager.{
  Manager, new_manager, create_map, update_at, remove_at, delete_if_empty,
}
use microservice_game_servic.Ws.Conn.{Conn, conn_at, write_conn, send}
use microservice_game_servic.Ws.Hub.{
  Hub, PublishJob, new_hub, register_locked, unregister_locked, move_to_room, close_conn,
  on_kick_user, enqueue, publish_worker, close_hub,
}
use microservice_game_servic.Ws.Handler.{Game}
use microservice_game_servic.Loop.Ticker.{collect_at}

-- The steps on the hub.
pub data HubStep : Hub → Hub → Type 0 where
  -- A handshake that succeeds or fails adds its connection, which is on no map yet.
  add_conn :
      (c : Conn) (h : Hub)
      → c.map_id ≡ []
      → c.queue ≡ []
      → HubStep h (record h { conns = h.conns ++ c ∷ [] })
  registers : (r : ℕ) (h : Hub) → r < length h.conns → HubStep h (register_locked r h)
  unregisters : (r : ℕ) (h : Hub) → HubStep h (unregister_locked r h)
  moves : (r : ℕ) (k : Bytes) (h : Hub) → r < length h.conns → HubStep h (move_to_room r k h)
  closes : (r : ℕ) (h : Hub) → r < length h.conns → HubStep h (close_conn r h)
  kicks : (u : ℤ) (h : Hub) → HubStep h (on_kick_user u h)
  -- One call of Send that does not panic.
  sends :
      (message : Bytes) (r : ℕ) (c : Conn) (h : Hub)
      → r < length h.conns
      → send message (conn_at r h.conns) ≡ done c
      → HubStep h (record h { conns = write_conn r c h.conns })
  -- The write loop takes the first message out of the queue.
  writes :
      (message : Bytes) (queue : List Bytes) (r : ℕ) (h : Hub)
      → r < length h.conns
      → (conn_at r h.conns).queue ≡ message ∷ queue
      → HubStep h
          (record h { conns = write_conn r (record (conn_at r h.conns) { queue = queue }) h.conns })
  enqueues : (job : PublishJob) (h h' : Hub) → enqueue job h ≡ done h' → HubStep h h'
  -- A publish worker takes a job.
  publishes :
      (job : PublishJob) (jobs : List PublishJob) (h : Hub)
      → h.publish_ch ≡ job ∷ jobs
      → HubStep h (record h { publish_ch = jobs })
  shuts : (h h' : Hub) → close_hub h ≡ done h' → HubStep h h'

-- The steps on the manager. A goroutine may hold a pointer for as long as it likes, so a step may
-- be at any map of the heap.
pub data ManagerStep : Manager → Manager → Type 0 where
  creates : (k : Bytes) (m : Manager) → ManagerStep m (create_map k m).1
  updates :
      (now : ℕ) (u : ℤ) (move : PlayerMove) (r : ℕ) (m : Manager)
      → r < length m.heap
      → ManagerStep m (update_at now u move r m)
  removes : (u : ℤ) (r : ℕ) (m : Manager) → r < length m.heap → ManagerStep m (remove_at u r m)
  deletes : (k : Bytes) (r : ℕ) (m : Manager) → ManagerStep m (delete_if_empty k r m)
  collects :
      (both : Bool) (r : ℕ) (m : Manager)
      → r < length m.heap
      → ManagerStep m (collect_at both r m).2

pub data Step : Game → Game → Type 0 where
  in_hub :
      {h h' : Hub} {m : Manager}
      → HubStep h h'
      → Step (record { hub = h; manager = m }) (record { hub = h'; manager = m })
  in_manager :
      {h : Hub} {m m' : Manager}
      → ManagerStep m m'
      → Step (record { hub = h; manager = m }) (record { hub = h; manager = m' })

-- Any number of steps, in any order.
pub data Reach (g : Game) : Game → Type 0 where
  here : Reach g g
  later : {g' g'' : Game} → Reach g g' → Step g' g'' → Reach g g''

-- What app.New makes of a hub and a manager.
unfoldable pub start_game : Bool → Game
start_game bus_set = record { hub = new_hub bus_set; manager = new_manager }
