-- ===== src/Cluster.antt =====
-- Two instances and the bus between them: what one hub publishes, internal/transport/ws/hub.go,
-- goes through internal/infra/bus and arrives at the hub of the other. The broker is trusted to
-- hand a payload on as it is; `relay` is one job on that way.
pub mod Relayed
pub mod Logins
pub mod Drained
pub mod Ticked
use microservice_game_servic.Base.{
  ℕ, zero, suc, List, [], ◌∷◌, Bytes, none, some, Outcome, done, ◌>>=◌,
}
use microservice_game_servic.Bus.Wire.{Message, dispatch}
use microservice_game_servic.Ws.Hub.{Hub, publish_worker, hub_handler}

module _ (parse_uuid : Bytes → Bytes) where
  -- A publish worker of `a` takes the next job, and what it publishes arrives at `b`.
  unfoldable pub relay : Bytes → Bytes → Hub → Hub → Outcome (Hub × Hub)
  relay from_id node_id a b = elim (publish_worker parse_uuid from_id a) [
    | none ↦ done (a, b)
    | some (message, a') ↦
        dispatch parse_uuid hub_handler node_id message.payload b >>= λ b'. done (a', b')
  ]

  -- The messages that the workers publish in `n` rounds, in the order in which they take the jobs.
  unfoldable pub publish_rounds : ℕ → Bytes → Hub → List Message × Hub
  publish_rounds zero node_id h = ([], h)
  publish_rounds (suc n) node_id h = elim (publish_worker parse_uuid node_id h) [
    | none ↦ ([], h)
    | some (message, h') ↦
        let (messages, h'') = publish_rounds n node_id h' in (message ∷ messages, h'')
  ]
