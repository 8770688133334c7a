-- ===== src/Udp.antt =====
-- services/ekinox/include/ironsoft/ekinox/ekinox_udp_session.h and
-- services/ekinox/src/ekinox_udp_session.cpp, built with the sbgECom library. What the library answers
-- is a parameter of each call.
use ironsoft.Prelude.{
  ℕ, ◌-◌, ◌^◌, Bool, true, false, not, Option, none, some, ◌++◌, ◌==◌, if◌then◌else◌,
}
use ironsoft.Prelude.Int.{ℤ, pos, sub_ℕ}
use ironsoft.Text.{Text, lit, signed_decimal}

pub record UdpConfig : Type 0 where
  pub ip : Text
  pub remote_port : ℕ
  pub local_port : ℕ
  pub rx_dead_ms : ℕ

pub record UdpSession : Type 0 where
  pub config : UdpConfig
  pub last_rx_ms : ℕ
  pub connected : Bool

pub data SbgErrorCode : Type 0 where
  no_error not_ready invalid_parameter null_pointer time_out general_error : SbgErrorCode
  other_code : ℤ → SbgErrorCode

-- What sbgNetworkIpFromString (is the address not 0?), sbgInterfaceUdpCreate and sbgEComInit return.
pub record SbgOpening : Type 0 where
  pub ip_valid : Bool
  pub create : SbgErrorCode
  pub init : SbgErrorCode

-- What sbgEComHandleOneLog returns, and the time at which it called `on_receive_log`, if it did.
pub record SbgPoll : Type 0 where
  pub received : Option ℕ
  pub status : SbgErrorCode

abbrev pub int64_max : ℕ
int64_max = 2 ^ 63 - 1

unfoldable pub error_to_string : SbgErrorCode → Text
error_to_string no_error = lit "SBG_NO_ERROR"
error_to_string not_ready = lit "SBG_NOT_READY"
error_to_string invalid_parameter = lit "SBG_INVALID_PARAMETER"
error_to_string null_pointer = lit "SBG_NULL_POINTER"
error_to_string time_out = lit "SBG_TIME_OUT"
error_to_string general_error = lit "SBG_ERROR"
error_to_string (other_code n) = signed_decimal n

unfoldable pub last_rx_age_ms : UdpSession → ℕ → ℤ
last_rx_age_ms u now_ms = if u.last_rx_ms == 0 then pos int64_max else sub_ℕ now_ms u.last_rx_ms

unfoldable pub close : UdpSession → UdpSession
close u = if not u.connected then u else record u { connected = false }

abbrev pub opened : SbgErrorCode → SbgErrorCode → ℕ → UdpSession → UdpSession × Option Text
opened no_error no_error now_ms u = (record u { last_rx_ms = now_ms; connected = true }, none)
opened no_error status now_ms u = (u, some (lit "sbgEComInit: " ++ error_to_string status))
opened status init now_ms u = (u, some (lit "sbgInterfaceUdpCreate: " ++ error_to_string status))

-- The session after the call, and the error if it returned false; `now_ms` is the clock at the end.
unfoldable pub open_session : SbgOpening → ℕ → UdpConfig → UdpSession → UdpSession × Option Text
unfolding close
open_session sbg now_ms cfg u =
    let fresh = record (close u) { config = cfg; last_rx_ms = 0 } in
    if not sbg.ip_valid
    then (fresh, some (lit "invalid ip"))
    else opened sbg.create sbg.init now_ms fresh

abbrev pub received_at : Option ℕ → UdpSession → UdpSession
received_at none u = u
received_at (some now_ms) u = record u { last_rx_ms = now_ms }

abbrev pub poll_error : SbgErrorCode → Option Text
poll_error no_error = none
poll_error not_ready = none
poll_error time_out = none
poll_error status = some (lit "sbgEComHandleOneLog: " ++ error_to_string status)

unfoldable pub poll : SbgPoll → UdpSession → UdpSession × Option Text
poll sbg u =
    if not u.connected
    then (u, some (lit "not connected"))
    else (received_at sbg.received u, poll_error sbg.status)

-- The build without sbgECom.
unfoldable pub open_unavailable : UdpSession → UdpSession × Option Text
open_unavailable u = (u, some (lit "sbgECom unavailable"))

unfoldable pub poll_unavailable : UdpSession → UdpSession × Option Text
poll_unavailable u = (u, some (lit "sbgECom unavailable"))
