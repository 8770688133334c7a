-- ===== src/Rest.antt =====
-- services/ekinox/include/ironsoft/ekinox/ekinox_logger_api.h and
-- services/ekinox/src/ekinox_logger_api.cpp: the REST client of the data logger.
pub mod Path
pub mod Enrich
pub mod Http
pub mod Api
pub mod Slashes
pub mod Reports
pub mod Outcome
use ironsoft.Prelude.{ℕ, Bool, false, []}
use ironsoft.Prelude.Int.{ℤ, pos}
use ironsoft.Text.{Text}
