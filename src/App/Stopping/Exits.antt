-- ===== src/App/Stopping/Exits.antt =====
-- How the process of cmd/api/main.go ends.
use microservice_game_servic.Base.{Outcome, ◌>>=◌, Bool, true, false, done}
use microservice_game_servic.Config.{Config}
use microservice_game_servic.Bus.Nats as Nats
use microservice_game_servic.Bus.Redis as Redis
use microservice_game_servic.Bus.Client.{Broker}
use microservice_game_servic.Ws.Handler.{Game}
use microservice_game_servic.App.{App, Ended, exits, goes_on}
use microservice_game_servic.App.Wired.{Wired}

-- A broker that confirms every subscription.
abbrev pub all_confirmed : Broker
all_confirmed = record { receives = true; broadcast_ok = true; kick_ok = true }

-- What is left of the process once the other goroutines have brought the game to `g`.
abbrev pub to_exit : Bool → (Game → Outcome Game) → Game → Outcome Ended
to_exit true after g =
    after (record g { hub = record g.hub { publish_closed = true } }) >>= λ _. done (exits 0)
to_exit false after g = done goes_on
