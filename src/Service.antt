-- ===== src/Service.antt =====
-- services/ekinox/src/ekinox_service.cpp: the service, a module for each of its concerns, and below
-- them the modules that prove what it does.
pub mod State
pub mod Exec
pub mod Health
pub mod Publish
pub mod Presence
pub mod RestResult
pub mod Sensor
pub mod Commands
pub mod Loop
pub mod Options
pub mod Steps
pub mod Yields
pub mod Quiet
pub mod Answers
pub mod Accepts
pub mod Invariant
