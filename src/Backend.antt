-- ===== src/Backend.antt =====
-- The backend of the drone: backend/src and backend/include.
pub mod Json
pub mod State
pub mod Commands
pub mod Session
pub mod Losses
pub mod Numbers
pub mod Options
