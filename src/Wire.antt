-- ===== src/Wire.antt =====
-- The parts of the program as they meet on the broker: the service of the sensor (services/ekinox), the
-- backend (backend) and the desktop client (gui).
pub mod Reads
pub mod Names
pub mod Status
pub mod Pong
pub mod Commands
pub mod Options
