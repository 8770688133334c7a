-- ===== src/Service/Loop.antt =====
-- The connection to the broker, the callbacks and the main loop of
-- services/ekinox/src/ekinox_service.cpp. The callbacks run between two rounds of the loop.
pub mod Lost
pub mod Leaving
pub mod Shutdown
pub mod Doubling
pub mod Backoff
pub mod Stuck
use ironsoft.Prelude.{
  ℕ, zero, suc, ◌+◌, ◌-◌, ◌/◌, Bool, true, false, not, Option, none, some, [], ◌∷◌, ◌++◌, ltb, leb,
  ◌==◌, if◌then◌else◌,
}
use ironsoft.Text.{Text, lit, is_empty}
use ironsoft.Types.{disconnected, connecting}
use ironsoft.Udp.{close}
use ironsoft.Service.State.{Service, Setup, TimePoint, CommandMessage, milliseconds, mono_ms_of}
use ironsoft.Service.Exec.{
  expect, Context, Exec, Action, mqtt_failure, skip, pure, throw, gets, ask, modify, ◌>>=◌, ◌>>◌,
  catch_mqtt, steady_now, mono_ms,
}
use ironsoft.Service.Health.{update_link_health, set_state}
use ironsoft.Service.Presence.{update_presence_state}
use ironsoft.Service.Publish.{publish_presence, publish_status, publish_heartbeat}
use ironsoft.Service.RestResult.{request_logger_state, refresh_rest_health}
use ironsoft.Service.Sensor.{
  next_backoff, ensure_sensor_session, poll_sensor, handle_sensor_disconnect,
}
use ironsoft.Service.Commands.{drain_commands}

-- The members that a new connection resets.
unfoldable pub with_connection : ℕ → Service → Service
with_connection next_rest_poll_ms s = record s {
  link = record (s.link) {
    connected = true;
    presence_online = false;
    last_presence_emit_ts_ms = 0;
  };
  status = record (s.status) { link_alive = false; api_ok = false; recording_active = false };
  sensor = record (s.sensor) { udp_link_alive = false; sensor_reconnect_needed = false };
  rest = record {
    rest_alive = false;
    last_rest_success = 0;
    last_rest_ok = 0;
    last_rest_ok_ts_ms = 0;
    rest_fail_streak = 0;
    rest_success_streak = 0;
    last_rest_error = [];
    next_rest_poll_ms = next_rest_poll_ms;
  };
}

-- The members that a lost connection resets.
unfoldable pub with_connection_lost : Service → Service
with_connection_lost s = record s {
  link = record (s.link) { connected = false; presence_online = false };
  status = record (s.status) { link_alive = false };
  rest = record (s.rest) { rest_success_streak = 0; next_rest_poll_ms = 0 };
  sensor = record (s.sensor) {
    udp_session = close s.sensor.udp_session;
    sensor_connected = false;
    sensor_reconnect_needed = false;
  };
}

unfoldable pub with_disconnection : Service → Service
with_disconnection s = record s {
  link = record (s.link) { connected = false };
  status = record (s.status) { link_alive = false };
  rest = record (s.rest) { rest_success_streak = 0; next_rest_poll_ms = 0 };
}

unfoldable pub set_next_poll : ℕ → Service → Service
set_next_poll next s = record s { rest = record (s.rest) { next_rest_poll_ms = next } }

-- `reader` thread: a command is queued behind the others.
unfoldable pub message_arrived : CommandMessage → Service → Service
message_arrived m s = record s { pending_commands = s.pending_commands ++ m ∷ [] }

abbrev pub attempt_or : TimePoint → Option TimePoint → TimePoint
attempt_or now none = now
attempt_or now (some t) = t

-- The backoff and the next attempt after a call of `connect_once`.
unfoldable pub with_attempt : Setup → TimePoint → Bool → Service → Service
with_attempt setup now true s =
    let backoff = setup.config.timeouts.reconnect_backoff_ms in
    record s {
      link = record (s.link) {
        current_backoff_ms = backoff;
        next_reconnect_attempt = some (now + milliseconds backoff);
      };
    }
with_attempt setup now false s =
    let backoff =
      next_backoff s.link.current_backoff_ms setup.config.timeouts.reconnect_backoff_max_ms in
    record s {
      link = record (s.link) {
        current_backoff_ms = backoff;
        next_reconnect_attempt = some (now + milliseconds backoff);
      };
    }

module _ {V : Type 0} (c : Context V) where
  open c use {setup, env}

  unfoldable pub subscribe : Text → Action
  subscribe topic = if is_empty topic then skip else expect env.subscribes

  -- The block of the `try`.
  unfoldable pub establish : Exec Bool
  establish = do
    set_state connecting
    expect env.connects
    subscribe setup.topics.cmd
    subscribe setup.topics.cmd_legacy
    poll_base ← mono_ms c
    modify (with_connection (poll_base + setup.rest_poll_interval))
    set_state connecting
    now_ms ← mono_ms c
    update_presence_state c now_ms (lit "connecting")
    publish_status c
    test_ms ← mono_ms c
    result ← request_logger_state c (lit "connect.selftest") test_ms
    publish_status c
    pure true

  unfoldable pub connect_once : Exec Bool
  connect_once = catch_mqtt establish (do set_state disconnected; pure false)

  unfoldable pub disconnect : Action
  disconnect = do
    connected ← gets λ s. s.link.connected
    if not connected
        then skip
        else catch_mqtt
            (do expect env.disconnects; modify with_disconnection; set_state disconnected) skip

  unfoldable pub attempt_connection : TimePoint → Action
  attempt_connection now = do succeeded ← connect_once; modify (with_attempt setup now succeeded)

  unfoldable pub ensure_connection : TimePoint → Action
  ensure_connection now = do
    connected ← gets λ s. s.link.connected
    due ← gets λ s. attempt_or now s.link.next_reconnect_attempt
    if connected then skip else (do
      modify λ s. record s { link = record (s.link) { next_reconnect_attempt = some due } }
      if ltb now due then skip else attempt_connection now)

  unfoldable pub connection_lost : Action
  connection_lost = do
    modify with_connection_lost
    now ← steady_now c
    let now_ms = mono_ms_of now
    update_link_health c now_ms
    set_state disconnected
    modify λ s. record s { link = record (s.link) { next_reconnect_attempt = some now } }
    update_presence_state c now_ms (lit "mqtt offline")

  unfoldable pub poll_rest : ℕ → Action
  poll_rest now_ms = do
    due ← gets λ s. s.rest.next_rest_poll_ms
    if due == 0 then modify (set_next_poll (now_ms + setup.rest_poll_interval)) else skip
    next ← gets λ s. s.rest.next_rest_poll_ms
    if leb next now_ms
        then (do
          result ← request_logger_state c (lit "poll.timer") now_ms
          modify (set_next_poll (now_ms + setup.rest_poll_interval)))
        else skip

  unfoldable pub publish_due : TimePoint → Action
  publish_due now = do
    status_due ← gets λ s. s.link.next_status_pub
    if leb status_due now
        then (do
          publish_status c
          modify λ s. record s {
            link = record (s.link) { next_status_pub = now + milliseconds 1000 };
          })
        else skip
    heartbeat_due ← gets λ s. s.link.next_heartbeat_pub
    start_tp ← gets λ s. s.link.start_tp
    if leb heartbeat_due now
        then (do
          publish_heartbeat c ((now - start_tp) / 1000000000)
          modify λ s. record s {
            link = record (s.link) { next_heartbeat_pub = now + milliseconds 1000 };
          })
        else skip

  -- The part of a round that a live connection has.
  unfoldable pub serve : TimePoint → Action
  serve now = do
    drain_commands c
    ensure_sensor_session c now
    poll_sensor c now
    refresh_rest_health c (mono_ms_of now)
    poll_rest (mono_ms_of now)
    publish_due now

  -- One round of the loop of `run`.
  unfoldable pub round : Action
  round = do
    now ← steady_now c
    ensure_connection now
    connected ← gets λ s. s.link.connected
    if connected then serve now else modify (set_next_poll 0)

  -- What follows the loop.
  unfoldable pub shutdown : Action
  shutdown = do
    sensor_connected ← gets λ s. s.sensor.sensor_connected
    if sensor_connected then handle_sensor_disconnect c else skip
    connected ← gets λ s. s.link.connected
    if connected
        then (do publish_presence c false (lit "shutdown"); publish_status c; disconnect)
        else skip

  unfoldable pub rounds : ℕ → Action
  rounds zero = skip
  rounds (suc n) = do round; rounds n

  -- The destructor; an exception of the MQTT client is only logged.
  unfoldable pub destroy : Action
  destroy = do
    modify λ s. record s { sensor = record (s.sensor) { udp_session = close s.sensor.udp_session } }
    connected ← gets λ s. s.link.connected
    if connected then catch_mqtt (expect env.disconnects) skip else skip

  -- `run`, where the stop flag is seen after `n` rounds.
  unfoldable pub run : ℕ → Exec Bool
  run n = do rounds n; shutdown; pure true
