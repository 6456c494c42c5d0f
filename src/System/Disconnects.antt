-- ===== src/System/Disconnects.antt =====
-- A client that disconnects while a broadcast of internal/transport/ws/hub.go goes through its
-- room: OnBroadcast copies the connections of the room and sends after it has released the lock.
use microservice_game_servic.Base.{ℕ, ◌<◌, ◌≡◌, ◌∙◌, true, Bytes, length, panic, send_on_closed}
use microservice_game_servic.Base.Int.{ℤ}
use microservice_game_servic.Ws.Conn.{conn_at, send_all}
use microservice_game_servic.Ws.Conn.Sends.{AllBelow-grows, send_all_closed}
use microservice_game_servic.Ws.Hub.{receivers, unregister, unregister_locked}
use microservice_game_servic.Ws.Hub.Broadcasts.{
  receives, elem-receivers, receivers-Unrepeated, receivers-AllBelow,
}
use microservice_game_servic.Ws.Hub.Operations.{length-unregister_locked}
use microservice_game_servic.Ws.Hub.Sessions.{closed_old, length-close_conn}
use microservice_game_servic.Ws.Handler.{Game}
use microservice_game_servic.Ws.Loops.{end_read}
use microservice_game_servic.Ws.Loops.Ended.{InOrder}
use microservice_game_servic.System.{Reach}
use microservice_game_servic.System.Monotone.{Reach-Ages}

closed-end_read :
    (r : ℕ) (g : Game)
    → r < length g.hub.conns
    → ((conn_at r (end_read r g).hub.conns).closed ≡ true)
      × (length (end_read r g).hub.conns ≡ length g.hub.conns)
unfolding end_read unregister
closed-end_read r g lt = (
  closed_old r (unregister_locked r g.hub) (rw length-unregister_locked lt),
  rw (length-close_conn, length-unregister_locked),
)

-- Where the hub is consistent and the manager sound: if the read loop of a connection that a
-- broadcast has copied out of its room ends before the broadcast has sent to it, then the sends
-- panic, whatever steps come in between.
pub send_all-end_read :
    (k message : Bytes) (u : ℤ) (r : ℕ) (g g' : Game)
    → InOrder r g
    → receives k u r g.hub ≡ true
    → Reach (end_read r g) g'
    → send_all message (receivers k u g.hub) g'.hub.conns ≡ panic send_on_closed
send_all-end_read k message u r g g' o inside reached =
    let (closed, same_length) = closed-end_read r g o.known in
    let ages = Reach-Ages reached in
    send_all_closed message (receivers k u g.hub) g'.hub.conns r
      (receivers-Unrepeated k u g.hub o.consistent)
      (AllBelow-grows _ _ (receivers k u g.hub) (rw (← same_length) ages.grows)
        (receivers-AllBelow k u g.hub o.consistent))
      (elem-receivers k u g.hub r ∙ inside)
      ((ages.each r (rw same_length o.known)).still_closed closed)
