-- ===== src/Gui/Client/Sessions.antt =====
-- How the members of the MQTT client go together with the place of the worker, at all times.
use ironsoft.Prelude.{
  ℕ, ◌≤◌, ◌≡◌, refl, Bool, true, false, if◌then◌else◌, Option, none, some, List, arith,
}
use ironsoft.Text.{Text}
use ironsoft.Json.{Fields}
use ironsoft.Gui.Json.{QJson}
use ironsoft.Gui.Config.{MqttGuiConfig}
use ironsoft.Gui.Status.{ConnectionState}
use ironsoft.Gui.Client.State.{
  Client, Worker, Channel, no_worker, finished, terminated, consuming, at_head, opening, starting,
  subscribing, waiting, set_connected, set_presence, set_client_state, set_config, same_state,
  start_client,
}
use ironsoft.Gui.Client.Frames.{either_way, handle_message-keeps}
use ironsoft.Gui.Client.Messages.{Incoming, handle_message}
use ironsoft.Gui.Client.Pings.{
  publish_command_payload, ping_publish, ping_register, ping_show, handle_ping_timeout, settle_ack,
}
use ironsoft.Gui.Client.Worker.{
  at_worker, Answer, succeeds, fails, delivers, is_failure, is_joined, work, work_from, consume,
  finish_loop, after_subscription, end_session, after_session, next_message, longer_backoff,
  connect_to_broker, begin_stop, end_stop,
}
use ironsoft.Gui.Client.Runs.{run_events-keeps}
use ironsoft.Gui.Client.Events.{Event, run_events, join, fire_timer}

-- The worker has a connection: it subscribes, starts to consume, or consumes.
abbrev pub has_session : Worker → Bool
has_session (subscribing b channel) = true
has_session (starting b) = true
has_session consuming = true
has_session _ = false

abbrev pub is_running : Worker → Bool
is_running no_worker = false
is_running finished = false
is_running terminated = false
is_running (at_head b) = false
is_running _ = true

abbrev pub backoff_of : Worker → ℕ
backoff_of (at_head b) = b
backoff_of (opening b) = b
backoff_of (subscribing b channel) = b
backoff_of (starting b) = b
backoff_of (waiting b) = b
backoff_of _ = 1000

abbrev pub implies : Bool → Bool → Bool
implies a b = if a then b else true

-- The members say what the worker does: `connected` exactly while it has a session, presence and the
-- state `connected` only then, an MQTT client from its first attempt on; and its backoff is in bounds.
abbrev pub IsConsistent : Client → Type 0
IsConsistent s =
    (s.connected ≡ has_session s.worker)
    × (implies s.presence s.connected ≡ true)
    × (implies (same_state s.state ConnectionState.connected) s.connected ≡ true)
    × (implies s.connected s.has_client ≡ true)
    × (implies (is_running s.worker) s.has_client ≡ true)
    × (1000 ≤ backoff_of s.worker)
    × (backoff_of s.worker ≤ 10000)

finish_loop-IsConsistent : (s : Client) → IsConsistent (finish_loop s)
unfolding finish_loop set_client_state set_presence set_connected
finish_loop-IsConsistent s = ground arith

module _ (b : ℕ) (lower : 1000 ≤ b) (upper : b ≤ 10000) where
  waits-IsConsistent :
      (s : Client)
      → s.has_client ≡ true
      → IsConsistent (
          at_worker (waiting b) (
            set_client_state ConnectionState.disconnected
              (set_presence false (set_connected false s))))
  unfolding set_client_state set_presence set_connected
  waits-IsConsistent s has = ground arith

  end_session-IsConsistent : (s : Client) → s.has_client ≡ true → IsConsistent (end_session b s)
  unfolding end_session after_session
  end_session-IsConsistent s has =
      either_way IsConsistent _ (finish_loop-IsConsistent _) (waits-IsConsistent s has)

next_message-IsConsistent :
    (s : Client) → IsConsistent s → s.connected ≡ true → IsConsistent (next_message s)
unfolding next_message
next_message-IsConsistent s p up =
    either_way IsConsistent s.stop
      (end_session-IsConsistent 1000 (ground arith) (ground arith) s (ground arith)) (ground arith)

longer_backoff-bounds : (b : ℕ) → 1000 ≤ b → (1000 ≤ longer_backoff b) × (longer_backoff b ≤ 10000)
unfolding longer_backoff
longer_backoff-bounds b lower = (ground arith, ground arith)

connect_to_broker-IsConsistent : (s : Client) → IsConsistent s → IsConsistent (connect_to_broker s)
unfolding connect_to_broker set_client_state set_presence set_connected
connect_to_broker-IsConsistent s p = ground arith

begin_stop-IsConsistent : (s : Client) → IsConsistent s → IsConsistent (begin_stop s)
unfolding begin_stop set_client_state
begin_stop-IsConsistent s p = ground arith

end_stop-IsConsistent : (s : Client) → IsConsistent (end_stop s)
unfolding end_stop set_client_state set_presence set_connected
end_stop-IsConsistent s = ground arith

publish_command_payload-IsConsistent :
    (fields : Fields) (accepted : Bool) (s : Client)
    → IsConsistent s
    → IsConsistent (publish_command_payload fields accepted s).1
unfolding publish_command_payload
publish_command_payload-IsConsistent fields accepted s p = ground arith

ping_publish-IsConsistent :
    (id : Text) (accepted : Bool) (s : Client)
    → IsConsistent s
    → IsConsistent (ping_publish id accepted s)
unfolding ping_publish
ping_publish-IsConsistent id accepted s p = ground arith

ping_register-IsConsistent :
    (id : Text) (now_ms : ℕ) (s : Client)
    → IsConsistent s
    → IsConsistent (ping_register id now_ms s)
unfolding ping_register
ping_register-IsConsistent id now_ms s p = p

ping_show-IsConsistent : (id : Text) (s : Client) → IsConsistent s → IsConsistent (ping_show id s)
unfolding ping_show
ping_show-IsConsistent id s p = p

fire_timer-IsConsistent : (id : Text) (s : Client) → IsConsistent s → IsConsistent (fire_timer id s)
unfolding fire_timer handle_ping_timeout
fire_timer-IsConsistent id s p = ground arith

join-IsConsistent : (s : Client) → IsConsistent s → IsConsistent (join s)
unfolding join
join-IsConsistent s p = either_way IsConsistent (is_joined s.worker) (end_stop-IsConsistent s) p

set_config-IsConsistent :
    (cfg : MqttGuiConfig) (s : Client) → IsConsistent s → IsConsistent (set_config cfg s)
unfolding set_config
set_config-IsConsistent cfg s p = p

-- The next call after a subscription is one of the same session.
after_subscription-lem :
    (b : ℕ) (channel : Channel)
    → (has_session (after_subscription b channel) ≡ true)
      × (is_running (after_subscription b channel) ≡ true)
      × (backoff_of (after_subscription b channel) ≡ b)
unfolding after_subscription
after_subscription-lem b channel = ground arith

subscribed-IsConsistent :
    (b : ℕ) (channel : Channel) (s : Client)
    → s.worker ≡ subscribing b channel
    → IsConsistent s
    → IsConsistent (at_worker (after_subscription b channel) s)
subscribed-IsConsistent b channel s at p =
    let next = after_subscription-lem b channel in ground arith

-- A message comes in while the worker consumes.
abbrev IsReceiving : Client → Type 0
IsReceiving s = (s.worker ≡ consuming) × (s.connected ≡ true) × (s.has_client ≡ true)

receiving-IsConsistent : (s : Client) → IsReceiving s → IsConsistent s
receiving-IsConsistent s p = ground arith

set_presence-IsReceiving : (v : Bool) (s : Client) → IsReceiving s → IsReceiving (set_presence v s)
unfolding set_presence
set_presence-IsReceiving v s p = ground arith

settle_ack-IsReceiving :
    (type id : Text) (is_ok : Bool) (found : Option ℕ) (now_ms : ℕ) (s : Client)
    → IsReceiving s
    → IsReceiving (settle_ack type id is_ok found now_ms s)
unfolding settle_ack
settle_ack-IsReceiving type id is_ok none now_ms s p = p
settle_ack-IsReceiving type id is_ok (some sent_ms) now_ms s p = p

start-IsConsistent : IsConsistent start_client
unfolding start_client
start-IsConsistent = ground arith

module _ {V : Type 0} (json : QJson V) where
  handle_message-IsReceiving :
      (m : Incoming) (s : Client) → IsReceiving s → IsReceiving (handle_message json m s)
  handle_message-IsReceiving =
      handle_message-keeps json IsReceiving set_presence-IsReceiving (λ signal r s p. p)
        (λ type id is_ok now_ms s p. settle_ack-IsReceiving type id is_ok _ now_ms s p)

  -- A step of the worker.
  work_from-IsConsistent :
      (w : Worker) (a : Answer) (s : Client)
      → s.worker ≡ w
      → IsConsistent s
      → IsConsistent (work_from json w a s)
  unfolding work_from consume set_client_state set_connected
  work_from-IsConsistent no_worker a s at p = p
  work_from-IsConsistent finished a s at p = p
  work_from-IsConsistent terminated a s at p = p
  work_from-IsConsistent (at_head b) a s at p =
      either_way IsConsistent s.stop (finish_loop-IsConsistent s)
        (either_way IsConsistent (is_failure a) (ground arith) (ground arith))
  work_from-IsConsistent (opening b) a s at p =
      either_way IsConsistent (is_failure a)
        (end_session-IsConsistent b (ground arith) (ground arith) s (ground arith)) (ground arith)
  work_from-IsConsistent (subscribing b channel) a s at p =
      either_way IsConsistent (is_failure a)
        (end_session-IsConsistent b (ground arith) (ground arith) s (ground arith))
        (subscribed-IsConsistent b channel s at p)
  work_from-IsConsistent (starting b) a s at p =
      either_way IsConsistent (is_failure a)
        (end_session-IsConsistent b (ground arith) (ground arith) s (ground arith))
        (next_message-IsConsistent s p (ground arith))
  work_from-IsConsistent consuming (delivers m) s at p =
      let q = handle_message-IsReceiving m s (ground arith) in
      next_message-IsConsistent (handle_message json m s)
        (receiving-IsConsistent (handle_message json m s) q) q.1
  work_from-IsConsistent consuming succeeds s at p =
      end_session-IsConsistent 1000 (ground arith) (ground arith) s (ground arith)
  work_from-IsConsistent consuming fails s at p =
      end_session-IsConsistent 1000 (ground arith) (ground arith) s (ground arith)
  work_from-IsConsistent (waiting b) a s at p =
      let longer = longer_backoff-bounds b (ground arith) in
      either_way IsConsistent s.stop (finish_loop-IsConsistent s) (ground arith)

  work-IsConsistent : (a : Answer) (s : Client) → IsConsistent s → IsConsistent (work json a s)
  unfolding work
  work-IsConsistent a s p = work_from-IsConsistent s.worker a s refl p

  -- At all times: `connected` is set exactly while the worker has a session, that is, subscribes, starts
  -- to consume or consumes; presence and the state `connected` only while `connected` is set; there is
  -- an MQTT client while it is set, and while the worker is beyond the head of its loop, unless an
  -- exception left the thread; the backoff stays from 1000 to 10000 ms.
  pub run_events-IsConsistent : (es : List Event) → IsConsistent (run_events json es start_client)
  run_events-IsConsistent es =
      run_events-keeps json IsConsistent work-IsConsistent set_config-IsConsistent
        connect_to_broker-IsConsistent (λ s at p. begin_stop-IsConsistent s p)
        (λ s at p. join-IsConsistent s p) publish_command_payload-IsConsistent
        (λ id accepted s at p. ping_publish-IsConsistent id accepted s p)
        (λ id now_ms s at p. ping_register-IsConsistent id now_ms s p)
        (λ id s at p. ping_show-IsConsistent id s p) fire_timer-IsConsistent es start_client
        start-IsConsistent
