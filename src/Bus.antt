-- ===== src/Bus.antt =====
-- internal/infra/bus: the message bus between the instances of the service.
pub mod Codec
pub mod Wire
pub mod Nats
pub mod Redis
pub mod Client
