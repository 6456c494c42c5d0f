-- ===== src/Tests/App.antt =====
-- The life of an application at sample data.
use microservice_game_servic.Base.{
  ◌≡◌, refl, Outcome, true, false, [], ◌∷◌, Bytes, Option, none, some, ok, done, panic, ascii,
  send_on_closed, close_of_closed, bytes_comparable,
}
use microservice_game_servic.Base.Int.{pos, int_comparable}
use microservice_game_servic.Auth.{verify, verify_session, key_func, session_key}
use microservice_game_servic.Bus.Nats as Nats
use microservice_game_servic.Bus.Nats.Wire as NatsWire
use microservice_game_servic.Bus.Nats.Wire.Same.{nats_wire_lem}
use microservice_game_servic.Bus.Wire as RedisWire
use microservice_game_servic.Bus.Client.{
  nats, new_client, new_nats_bus, set_handler, subscribe_player_disconnect, start, stop,
}
use microservice_game_servic.Loop.Ticker.{new_ticker}
use microservice_game_servic.State.Manager.{new_manager}
use microservice_game_servic.Ws.Hub.{new_hub, close_hub, hub_handler}
use microservice_game_servic.Ws.Handler.{Game}
use microservice_game_servic.Ws.Handshake.{do_handshake, check_handshake, serve_http}
use microservice_game_servic.System.{Reach, here, later, in_hub, add_conn}
use microservice_game_servic.App.{
  App, new, pick_bus, assemble, tick_interval, wire_hub, run, shutdown, stop_ticker,
}
use microservice_game_servic.App.Wired.{Wired, new-Wired}
use microservice_game_servic.App.Stopping.{ShutDown, shutdown-run}
use microservice_game_servic.App.Stopping.Late.{serve_http-shutdown}
use microservice_game_servic.App.Stopping.Exits.{all_confirmed}
use microservice_game_servic.Tests.Bus.{parse_id}
use microservice_game_servic.Tests.Handshake.{
  parse_token, to_int, format_five, get_session, read_handshake,
}
use microservice_game_servic.Tests.Lifecycle.{config_one}
use microservice_game_servic.Tests.Samples.{map_a, conn_of, in_a}

abbrev any_url : Bytes → Option Bytes
any_url url = some url

-- The application on the NATS bus, with a subscription to disconnects.
abbrev app_one : App
app_one = record {
  cfg = config_one;
  bus = nats (record {
    handler_set = true;
    started = false;
    subs = 0 ∷ [];
    live = 0 ∷ [];
    draining = false;
    next = 1;
  });
  ticker = record { interval = pos 1000000000; flush_interval = 2000000000; last_flush = 7 };
  ticking = false;
  ticker_stopped = false;
  serving = false;
  game = record { hub = new_hub true; manager = new_manager };
}

app_one_lem : new any_url (λ n o. true) (λ url. true) config_one true 7 ≡ done (ok app_one)
unfolding new new_client pick_bus new_nats_bus assemble wire_hub set_handler
    subscribe_player_disconnect Nats.subscribe_player_disconnect tick_interval new_ticker
app_one_lem = refl

new-Wired_test : Wired app_one
new-Wired_test = new-Wired any_url (λ n o. true) (λ url. true) config_one true 7 app_one app_one_lem

app_one-Wired : Wired app_one
app_one-Wired = new-Wired any_url (λ n o. true) (λ url. true) config_one true 7 app_one app_one_lem

abbrev running_one : App
running_one = record app_one {
  bus = nats (record {
    handler_set = true;
    started = true;
    subs = 1 ∷ 2 ∷ [];
    live = 2 ∷ 1 ∷ 0 ∷ [];
    draining = false;
    next = 3;
  });
  ticking = true;
  serving = true;
}

run_lem : run all_confirmed true app_one ≡ (none, running_one)
unfolding run start Nats.start Nats.subscribe_both
run_lem = refl

-- Player 5 connects while it runs.
abbrev game_one : Game
game_one = record {
  hub = record (new_hub true) { conns = conn_of (pos 5) ∷ [] };
  manager = new_manager;
}

game_one_reached : Reach running_one.game game_one
unfolding new_hub
game_one_reached = later here (in_hub (add_conn (conn_of (pos 5)) (new_hub true) refl refl))

open_one : game_one.hub.publish_closed ≡ false
unfolding new_hub
open_one = refl

shutdown-run_example :
    (c : App) × (shutdown (record running_one { game = game_one }) ≡ done (some c))
    × ShutDown game_one c
    × (shutdown c ≡ panic close_of_closed)
shutdown-run_example =
    shutdown-run all_confirmed app_one running_one game_one app_one-Wired run_lem game_one_reached
      open_one

abbrev stopped_one : App
stopped_one = record running_one {
  bus = nats (record {
    handler_set = true;
    started = false;
    subs = 1 ∷ 2 ∷ [];
    live = 0 ∷ [];
    draining = true;
    next = 3;
  });
  ticker_stopped = true;
  serving = false;
  game = record game_one { hub = record game_one.hub { publish_closed = true } };
}

stopped_lem : shutdown (record running_one { game = game_one }) ≡ done (some stopped_one)
unfolding shutdown stop_ticker stop Nats.stop Nats.unsubscribe_all close_hub new_hub
stopped_lem = refl

serve_http-shutdown_example :
    (serve_http
      (verify parse_token to_int format_five get_session (ascii "secret"))
      read_handshake
      true
      (some (record { binary = true; content = [] }))
      true
      stopped_one.game.hub).1
    ≡ panic send_on_closed
unfolding do_handshake check_handshake verify verify_session parse_token key_func session_key
serve_http-shutdown_example =
    serve_http-shutdown (verify parse_token to_int format_five get_session (ascii "secret"))
      read_handshake all_confirmed app_one running_one stopped_one game_one
      (some (record { binary = true; content = [] })) true app_one-Wired run_lem game_one_reached
      open_one stopped_lem refl

-- Player 5 connects, and nothing else happens.
abbrev during : Game → Outcome Game
during g = done game_one

abbrev after : Game → Outcome Game
after g = done g

nats_wire_lem_example :
    ((NatsWire.publish_broadcast parse_id (1 ∷ []) map_a (9 ∷ []) (pos 5)).payload
      ≡ (RedisWire.publish_broadcast parse_id (1 ∷ []) map_a (9 ∷ []) (pos 5)).payload)
    × ((NatsWire.publish_kick_user parse_id (1 ∷ []) (pos 5)).payload
        ≡ (RedisWire.publish_kick_user parse_id (1 ∷ []) (pos 5)).payload)
    × (NatsWire.dispatch parse_id hub_handler (1 ∷ []) (3 ∷ []) in_a
        ≡ RedisWire.dispatch parse_id hub_handler (1 ∷ []) (3 ∷ []) in_a)
nats_wire_lem_example =
    nats_wire_lem parse_id hub_handler (1 ∷ []) map_a (9 ∷ []) (3 ∷ []) (pos 5) in_a
