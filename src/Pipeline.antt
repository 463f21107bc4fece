-- ===== src/Pipeline.antt =====
-- ragent/pipeline: the stage graph, the messages that move through it and what schedules them.
pub mod Stages
pub mod Json
pub mod Messages
pub mod Topology
pub mod Store
pub mod StorePg
pub mod Runner
pub mod Handlers
