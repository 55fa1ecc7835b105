-- ===== src/Realtime.antt =====
-- The realtime sessions of fmu-runner/realtime_ws.py.
pub mod Queue
pub mod Session
pub mod Commands
pub mod Runner
pub mod Dispatch
pub mod Frame
pub mod Sound
pub mod Slots
pub mod Life
pub mod Late
mod Until
pub mod Create
pub mod Cache
mod Tests
