-- ===== src/Types.antt =====
-- services/ekinox/include/ironsoft/ekinox/ekinox_types.h: the states of the service, the commands,
-- and their names on the wire.
pub mod RoundTrip
use ironsoft.Prelude.{Bool, true, false, Option, none, some, if◌then◌else◌}
use ironsoft.Text.{Text, lit, text_eq}

pub data ServiceState : Type 0 where
  disconnected connecting idle starting recording stopping error : ServiceState

pub data CommandType : Type 0 where
  ping logger_start logger_stop logger_status unknown : CommandType

unfoldable pub state_to_string : ServiceState → Text
state_to_string connecting = lit "CONNECTING"
state_to_string idle = lit "IDLE"
state_to_string starting = lit "STARTING"
state_to_string recording = lit "RECORDING"
state_to_string stopping = lit "STOPPING"
state_to_string error = lit "ERROR"
state_to_string disconnected = lit "DISCONNECTED"

-- The value of the reference parameter, and the returned flag.
unfoldable pub try_parse_state : Text → ServiceState × Bool
try_parse_state text =
    if text_eq text (lit "DISCONNECTED")
    then (disconnected, true)
    else if text_eq text (lit "CONNECTING")
    then (connecting, true)
    else if text_eq text (lit "IDLE")
    then (idle, true)
    else if text_eq text (lit "STARTING")
    then (starting, true)
    else if text_eq text (lit "RECORDING")
    then (recording, true)
    else if text_eq text (lit "STOPPING")
    then (stopping, true)
    else if text_eq text (lit "ERROR")
    then (error, true)
    else (disconnected, false)

unfoldable pub command_to_string : CommandType → Text
command_to_string ping = lit "ping"
command_to_string logger_start = lit "logger.start"
command_to_string logger_stop = lit "logger.stop"
command_to_string logger_status = lit "logger.status"
command_to_string unknown = lit "ping"

unfoldable pub try_parse_command_type : Text → CommandType × Bool
try_parse_command_type text =
    if text_eq text (lit "ping")
    then (ping, true)
    else if text_eq text (lit "logger.start")
    then (logger_start, true)
    else if text_eq text (lit "logger.stop")
    then (logger_stop, true)
    else if text_eq text (lit "logger.status")
    then (logger_status, true)
    else if text_eq text (lit "session.start")
    then (logger_start, true)
    else if text_eq text (lit "session.stop")
    then (logger_stop, true)
    else if text_eq text (lit "session.status")
    then (logger_status, true)
    else (unknown, false)
