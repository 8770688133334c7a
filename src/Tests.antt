-- ===== src/Tests.antt =====
-- The theorems at concrete inputs, and runs of the program's parts.
pub mod Data
mod Rest
mod Service
mod Loop
mod Client
mod Wire
mod Programs
