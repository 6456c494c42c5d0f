-- ===== src/Lib.antt =====
-- Verification of the game service: a WebSocket server that keeps the players of a map game in
-- memory, broadcasts their moves twenty times a second and flushes them to Redis.
--
-- The parts, and the files that model them:
-- - internal/protocol/pb/game.pb.go: Protocol has its messages as data types.
-- - internal/game/state/manager.go: State.PlayerState, State.MapState and State.Manager have the
--   snapshots of players, the maps and the table of maps. MapState values are shared by pointer, so
--   the manager is a table of indices into a heap. A lock makes a method one step; State.Manager.Races
--   runs the steps of two goroutines in turn. The abstract view is `find`, a table from a map's name
--   and a user to a snapshot.
-- - internal/transport/ws/conn.go and hub.go: Ws.Conn and Ws.Hub have the connections in a heap, the
--   rooms, the table of users and the queue of messages for the other instances. A call that panics
--   in Go is an `Outcome` that is no `done`.
-- - internal/transport/ws/conn.go: Ws.Loops also has the loops that read and write its frames.
-- - internal/transport/ws/handler.go: Ws.Handler routes a message of a client and applies its move to
--   the hub and the manager, which `Game` holds side by side.
-- - internal/auth/auth.go and internal/transport/ws/server.go: Auth and Ws.Handshake decide who may
--   connect.
-- - internal/game/loop/ticker.go: Loop.Ticker collects what changed on every map, sends it through
--   the hub and, every two seconds, starts the flush of internal/game/player/service.go, which
--   Player.Service models by the commands that it pipelines. Loop.Ticker.Kept, Loop.Ticker.Rate,
--   Loop.Ticker.Spaced and Loop.Ticker.Lasting are about a loop that runs for long. Player.Trangthai has the names of
--   internal/game/player/trangthai.go.
-- - The steps that a lock or a channel makes atomic are the step relation of System, in which any
--   step of any goroutine may come next: System.Healthy has the invariant of all reachable states,
--   System.Monotone what a connection keeps for life, and System.Calls shows that the operations
--   of the other modules are runs of these steps. System.Disconnects and System.Kicked are about
--   a connection that is closed while others still hold it, System.Order about the order of its
--   queue, System.Counted about Stats, System.Table about the manager as a table, and
--   System.Flushed about a move that waits for the flush.
-- - System.Limits follows the read limit of conn.go through the server, from a client's message to
--   the messages for the other instances and the parser that reads them there. The calls of one
--   instance come one after the other in it.
-- - Go leaves the order of an iteration over a map open, which is an association list here:
--   Ws.Hub.Unordered and State.MapState.Unordered show what does not depend on it.
-- - Cluster joins two hubs by what one publishes and the other dispatches; Cluster.Ticked follows
--   a client's move from one instance to the connections of another.
-- - internal/app/app.go, cmd/api/main.go and internal/infra/redis/client.go: App has New, Run,
--   Shutdown and the exit codes, and Bus.Client the Redis client and the choice of the bus.
-- - internal/config/config.go: Config reads the configuration.
-- - internal/infra/bus/redis.go and nats.go: Bus.Redis and Bus.Nats start and stop. Bus.Codec,
--   Bus.Wire and, for NATS, Bus.Nats.Wire have the messages between instances; the hub is the bus
--   handler `hub_handler`.
--
-- Functions keep the source's names in snake case. Numbers are natural numbers; the one sum that wraps
-- in the source, in decodeBroadcast, is written with its wrap-around, and int32 user ids are integers
-- under `IsInt32` where their 32 bits matter. A float32 is its bit pattern. Every loop runs
-- over a list; only `publish_rounds` counts its rounds, and as many as there are jobs are enough.
--
-- Libraries are parameters: the parser of UUIDs, proto.Marshal and proto.Unmarshal, jwt.Parse, the
-- formatting of numbers, json.Unmarshal, the URL parser, the PING, the GET and the pipelines of
-- Redis, and the answers of the brokers. Where a theorem relies on one, a hypothesis states
-- what its documentation says.
--
-- Not modelled: logs and metrics, the options of the NATS connection, the protobuf wire format, and
-- the custom binary protocol and the UDP transport, whose files are commented out as a whole.
pub mod Base
pub mod Config
pub mod Protocol
pub mod Bus
pub mod State
pub mod Player
pub mod Auth
pub mod Ws
pub mod Loop
pub mod System
pub mod Cluster
pub mod App
pub mod Tests
