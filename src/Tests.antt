-- ===== src/Tests.antt =====
-- Runs of the definitions on concrete inputs, and the theorems at such inputs.
pub mod Locks
pub mod Queue
pub mod Cache
pub mod Files
pub mod Requests
pub mod Answers
pub mod Exchange
pub mod Calls
pub mod Database
pub mod Pool
pub mod Waits
pub mod Timer
pub mod Connect
pub mod Startup
