-- ===== src/Ws/Conn.antt =====
-- Conn of internal/transport/ws/conn.go: the state of one connection, and the heap in which the
-- hub, the read loop and the write loop share it. The WebSocket itself belongs to a library.
pub mod Sends
use microservice_game_servic.Base.{
  ℕ, Bool, true, false, List, [], ◌∷◌, ◌++◌, Bytes, Option, none, some, length, get_elem?, set, ltb,
  if◌then◌else◌, Outcome, done, panic, send_on_closed, ◌>>=◌,
}
use microservice_game_servic.Base.Int.{ℤ, pos}

-- `queue` is the content of the channel `send`, and `closed` says that it is closed.
pub record Conn : Type 0 where
  pub user_id : ℤ
  pub map_id : Bytes
  pub queue : List Bytes
  pub closed : Bool

abbrev pub send_capacity : ℕ
send_capacity = 256

unfoldable pub new_conn : Conn
new_conn = record { user_id = pos 0; map_id = []; queue = []; closed = false }

-- `closeOnce` makes a second call do nothing.
unfoldable pub close : Conn → Conn
close c = record c { closed = true }

-- A send on a closed channel panics, also inside `select`; a full channel closes the connection.
unfoldable pub send : Bytes → Conn → Outcome Conn
unfolding close
send message c =
    if c.closed
    then panic send_on_closed
    else (if ltb (length c.queue) send_capacity
        then done (record c { queue = c.queue ++ message ∷ [] })
        else done (close c))

unfoldable pub set_user_id : ℤ → Conn → Conn
set_user_id user_id c = record c { user_id = user_id }

unfoldable pub set_map_id : Bytes → Conn → Conn
set_map_id map_id c = record c { map_id = map_id }

-- The connection behind a pointer. Every pointer that the code has comes from the heap.
unfoldable pub conn_at : ℕ → List Conn → Conn
conn_at r conns = elim (get_elem? conns r) [ some c ↦ c | none ↦ new_conn ]

unfoldable pub write_conn : ℕ → Conn → List Conn → List Conn
write_conn r c conns = set conns r c

-- The loop of OnBroadcast over the connections that it copied out of a room.
unfoldable pub send_all : Bytes → List ℕ → List Conn → Outcome (List Conn)
send_all message [] conns = done conns
send_all message (r ∷ rs) conns =
    send message (conn_at r conns) >>= λ c. send_all message rs (write_conn r c conns)
