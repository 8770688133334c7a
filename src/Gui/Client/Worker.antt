-- ===== src/Gui/Client/Worker.antt =====
-- `workerLoop`, `connectToBroker` and `stop` (gui/src/mqtt_paho_client.cpp), in steps between which the
-- other thread may run.
use ironsoft.Prelude.{ℕ, ◌+◌, ◌-◌, ◌*◌, ◌/◌, min, Bool, true, false, [], ltb, if◌then◌else◌}
use ironsoft.Service.State.{clamp}
use ironsoft.Gui.Json.{QJson}
use ironsoft.Gui.Status.{ConnectionState}
use ironsoft.Gui.Client.State.{
  Client, Worker, Channel, no_worker, finished, terminated, consuming, at_head, opening, starting,
  subscribing, waiting, free, to_presence, to_status, to_heartbeat, to_ack, to_ekinox_presence,
  to_ekinox_status, to_ekinox_heartbeat, in_stop, set_connected, set_presence, set_client_state,
}
use ironsoft.Gui.Client.Messages.{Incoming, handle_message}

abbrev pub initial_backoff : ℕ
initial_backoff = 1000

abbrev pub max_backoff : ℕ
max_backoff = 10000

-- The delay before the next attempt; the distribution gives `draw - jitter`, where `draw` is at most
-- twice the jitter.
unfoldable pub reconnect_delay : ℕ → ℕ → ℕ
reconnect_delay backoff_ms draw =
    let jitter = backoff_ms / 5 in
    clamp (if ltb 0 jitter then (backoff_ms + draw) - jitter else backoff_ms) 200 10000

unfoldable pub longer_backoff : ℕ → ℕ
longer_backoff backoff_ms = min (backoff_ms * 2) max_backoff

abbrev pub at_worker : Worker → Client → Client
at_worker w s = record s { worker = w }

-- What follows the outer loop.
unfoldable pub finish_loop : Client → Client
finish_loop s =
    set_client_state (if s.stop then ConnectionState.stopping else ConnectionState.disconnected)
      (record (set_presence false (set_connected false s)) {
        has_client = false;
        worker = finished;
      })

-- What follows the `try` block.
unfoldable pub after_session : ℕ → Client → Client
after_session backoff_ms s =
    if s.stop
    then finish_loop s
    else at_worker (waiting backoff_ms) (set_client_state ConnectionState.disconnected s)

-- Both ways out of the `try` block, by its end and by an exception; stop_consuming and disconnect
-- change no member.
unfoldable pub end_session : ℕ → Client → Client
end_session backoff_ms s = after_session backoff_ms (set_presence false (set_connected false s))

-- The test of the inner loop.
unfoldable pub next_message : Client → Client
next_message s = if s.stop then end_session initial_backoff s else at_worker consuming s

-- What the MQTT client answers to the worker's next call.
pub data Answer : Type 0 where
  succeeds fails : Answer
  delivers : Incoming → Answer

abbrev pub is_failure : Answer → Bool
is_failure fails = true
is_failure _ = false

-- The call that follows a subscription: the next one, or start_consuming.
unfoldable pub after_subscription : ℕ → Channel → Worker
after_subscription b to_presence = subscribing b to_status
after_subscription b to_status = subscribing b to_heartbeat
after_subscription b to_heartbeat = subscribing b to_ack
after_subscription b to_ack = subscribing b to_ekinox_presence
after_subscription b to_ekinox_presence = subscribing b to_ekinox_status
after_subscription b to_ekinox_status = subscribing b to_ekinox_heartbeat
after_subscription b to_ekinox_heartbeat = starting b

module _ {V : Type 0} (json : QJson V) where
  -- consume_message gives a message, or none, or throws.
  unfoldable pub consume : Answer → Client → Client
  consume (delivers m) s = next_message (handle_message json m s)
  consume _ s = end_session initial_backoff s

  -- The next step of the worker. The MQTT client is built outside of the `try` block: where its
  -- constructor throws, nothing catches it.
  unfoldable pub work_from : Worker → Answer → Client → Client
  work_from no_worker a s = s
  work_from finished a s = s
  work_from terminated a s = s
  work_from (at_head b) a s =
      if s.stop
      then finish_loop s
      else if is_failure a
      then at_worker terminated s
      else at_worker (opening b)
          (set_client_state ConnectionState.connecting (record s { has_client = true }))
  work_from (opening b) a s =
      if is_failure a
      then end_session b s
      else at_worker (subscribing b to_presence)
          (set_client_state ConnectionState.connected (set_connected true s))
  work_from (subscribing b channel) a s =
      if is_failure a then end_session b s else at_worker (after_subscription b channel) s
  work_from (starting b) a s = if is_failure a then end_session b s else next_message s
  work_from consuming a s = consume a s
  work_from (waiting b) a s =
      if s.stop then finish_loop s else at_worker (at_head (longer_backoff b)) s

  unfoldable pub work : Answer → Client → Client
  work a s = work_from s.worker a s

abbrev pub is_joinable : Worker → Bool
is_joinable no_worker = false
is_joinable _ = true

unfoldable pub connect_to_broker : Client → Client
connect_to_broker s =
    if is_joinable s.worker
    then s
    else at_worker (at_head initial_backoff) (
        set_client_state ConnectionState.connecting
          (set_presence false (set_connected false (record s { stop = false }))))

-- `stop` up to the join.
unfoldable pub begin_stop : Client → Client
begin_stop s =
    let t = set_client_state ConnectionState.stopping (record s { stop = true }) in
    record t { caller = in_stop }

-- The join returns: there is no worker, or it has returned.
abbrev pub is_joined : Worker → Bool
is_joined no_worker = true
is_joined finished = true
is_joined _ = false

-- `stop` after the join.
unfoldable pub end_stop : Client → Client
end_stop s = set_client_state ConnectionState.disconnected (
    set_presence false (
      set_connected false
        (record s { worker = no_worker; has_client = false; pending_pings = []; caller = free })))
