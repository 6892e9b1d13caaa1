-- ===== src/Engine.antt =====
-- The engine (src/engine.rs, src/engine_event.rs, src/cli.rs).
pub mod Config
pub mod Events
pub mod Run
pub mod Conversions
pub mod Ops
pub mod Service
pub mod Queue
pub mod Namespace
pub mod Options
mod Tests
