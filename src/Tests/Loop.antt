-- ===== src/Tests/Loop.antt =====
-- The tick loop at sample data.
use mathlib.Core.List.{Memᴰ}
use microservice_game_servic.Base.{
  ℕ, ◌≡◌, refl, false, [], ◌∷◌, List, Bytes, Option, some, arith, bytes_comparable, length, done,
}
use microservice_game_servic.Base.Int.{pos, int_comparable}
use microservice_game_servic.Base.Map.{lookup}
use microservice_game_servic.Protocol.{Envelope, player_sync_batch, PlayerSync}
use microservice_game_servic.Player.Service.{PlayerMoveWithId}
use microservice_game_servic.State.PlayerState.{apply_move}
use microservice_game_servic.Ws.Conn.{conn_at}
use microservice_game_servic.Ws.Conn.Sends.{sent}
use microservice_game_servic.Ws.Hub.Consistent.{Consistent}
use microservice_game_servic.Ws.Handler.{Game, handle_player_move, current_map}
use microservice_game_servic.Loop.Ticker.{Ticker, tick, sync_at, with_id}
use microservice_game_servic.Loop.Ticker.EndToEnd.{moved, tick-handle_player_move}
use microservice_game_servic.Loop.Ticker.Delivery.{tick_returns, tick_delivers, tick_flushes}
use microservice_game_servic.Tests.Samples.{
  map_a, sample_move, in_a, playing-InOrder, five_moved, one_player-IsSound, in_a-Consistent,
  in_a_open, playing, map_a_stored, five_stored, five_found,
}

abbrev sample_ticker : Ticker
sample_ticker = record { interval = pos 50000000; flush_interval = 2000000000; last_flush = 0 }

abbrev clock : ℕ → ℕ
clock r = 101

encode : Envelope → Bytes
encode (player_sync_batch ps) = 34 ∷ length ps ∷ []
encode e = []

tick_returns_test :
    (moves : Option (List PlayerMoveWithId)) × (t' : Ticker) × (g' : Game) × (tick
        (λ e. some (encode e))
        2000000000
        clock
        2000000001
        sample_ticker
        playing
      ≡ done (moves, t', g'))
    × Consistent g'.hub
    × (g'.hub.publish_closed ≡ false)
tick_returns_test =
    tick_returns (λ e. some (encode e)) 2000000000 clock 2000000001 sample_ticker playing
      one_player-IsSound in_a-Consistent refl in_a_open

tick_delivers_example :
    (moves : Option (List PlayerMoveWithId)) × (t' : Ticker) × (g' : Game) × (batch : List
      PlayerSync)
    × (tick (λ e. some (encode e)) 2000000000 clock 2000000001 sample_ticker playing
        ≡ done (moves, t', g'))
    × Memᴰ (sync_at (clock 0) five_moved) batch
    × (conn_at 0 g'.hub.conns
        ≡ sent (encode (player_sync_batch batch)) (conn_at 0 playing.hub.conns))
unfolding lookup conn_at apply_move
tick_delivers_example =
    tick_delivers encode 2000000000 clock 2000000001 sample_ticker playing map_a 0 (pos 5)
      five_moved 0 one_player-IsSound in_a-Consistent refl in_a_open map_a_stored five_stored refl
      refl (ground arith)

tick_flushes_test :
    (batch : List PlayerMoveWithId) × (t' : Ticker) × (g' : Game) × (tick
        (λ e. some (encode e))
        2000000000
        clock
        2000000001
        sample_ticker
        playing
      ≡ done (some batch, t', g'))
    × Memᴰ (with_id five_moved) batch
unfolding apply_move
tick_flushes_test =
    tick_flushes encode 2000000000 clock 2000000001 sample_ticker playing map_a (pos 5) five_moved
      one_player-IsSound in_a-Consistent refl in_a_open (omega arith) five_found refl

-- Player 5 moves on the map "a", where player 7 is.
abbrev pub after_move : Game
after_move = handle_player_move 101 0 sample_move playing

after_move-hub : after_move.hub ≡ in_a
unfolding handle_player_move current_map conn_at
after_move-hub = refl

tick-handle_player_move_example :
    (moves : Option (List PlayerMoveWithId)) × (t' : Ticker) × (g' : Game) × (batch : List
      PlayerSync)
    × (at : ℕ) × (tick (λ e. some (encode e)) 2000000000 clock 2000000001 sample_ticker after_move
        ≡ done (moves, t', g'))
    × Memᴰ (sync_at (clock at) (moved 101 0 sample_move playing)) batch
    × (conn_at 1 g'.hub.conns
        ≡ sent (encode (player_sync_batch batch)) (conn_at 1 after_move.hub.conns))
unfolding handle_player_move current_map conn_at lookup
tick-handle_player_move_example =
    tick-handle_player_move encode 101 0 sample_move 2000000000 clock 2000000001 sample_ticker
      playing 1 playing-InOrder refl in_a_open refl (ground arith)
