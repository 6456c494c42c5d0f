-- ===== src/Tests.antt =====
-- Concrete runs: sample data, and the theorems of the development at it.
mod Samples
mod State
mod Ws
mod Bus
mod Loop
mod Player
mod Handshake
mod Loops
mod Lifecycle
mod System
mod Runs
mod Limits
mod Cluster
mod App
