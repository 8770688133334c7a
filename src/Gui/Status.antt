-- ===== src/Gui/Status.antt =====
-- The states and the statuses that the MQTT client of the desktop client reports
-- (gui/src/mqtt_paho_client.h).
use ironsoft.Prelude.{Bool, false, []}
use ironsoft.Prelude.Int.{ℤ, pos}
use ironsoft.Text.{Text}

pub data ConnectionState : Type 0 where
  disconnected connecting connected stopping : ConnectionState

pub record BackendStatus : Type 0 where
  pub mode : Text
  pub api_ok : Bool
  pub last_error : Text
  pub ts : ℤ
  pub recording_active : Bool
  pub session_name : Text

pub record EkinoxStatus : Type 0 where
  pub state : Text
  pub mode : Text
  pub link_alive : Bool
  pub recording_active : Bool
  pub session_name : Text
  pub last_error : Text
  pub ts : ℤ

-- The member initialisers.
abbrev pub blank_status : BackendStatus
blank_status = record {
  mode = [];
  api_ok = false;
  last_error = [];
  ts = pos 0;
  recording_active = false;
  session_name = [];
}

abbrev pub blank_ekinox_status : EkinoxStatus
blank_ekinox_status = record {
  state = [];
  mode = [];
  link_alive = false;
  recording_active = false;
  session_name = [];
  last_error = [];
  ts = pos 0;
}
