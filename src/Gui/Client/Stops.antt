-- ===== src/Gui/Client/Stops.antt =====
-- How `stop` ends, and between what bounds the worker waits.
use ironsoft.Prelude.{ℕ, ◌+◌, ◌-◌, ◌*◌, ◌/◌, ◌≤◌, ◌≡◌, refl, ◌∙◌, Bool, true, false, arith}
use ironsoft.Gui.Json.{QJson}
use ironsoft.Gui.Status.{ConnectionState}
use ironsoft.Gui.Client.State.{
  Client, Worker, Channel, no_worker, finished, terminated, consuming, at_head, opening, starting,
  subscribing, to_presence, to_status, to_heartbeat, to_ack, to_ekinox_presence, to_ekinox_status,
  to_ekinox_heartbeat, waiting, set_connected, set_presence, set_client_state,
}
use ironsoft.Gui.Client.Messages.{handle_message}
use ironsoft.Gui.Client.Frames.{handle_message-SameSession}
use ironsoft.Gui.Client.Worker.{
  initial_backoff, Answer, succeeds, fails, delivers, work, work_from, consume, finish_loop,
  after_session, after_subscription, end_session, next_message, reconnect_delay,
}

module _ (v : Bool) (s : Client) where
  set_connected-worker : (set_connected v s).worker ≡ s.worker
  unfolding set_connected
  set_connected-worker = ground arith

  set_connected-stop : (set_connected v s).stop ≡ s.stop
  unfolding set_connected
  set_connected-stop = ground arith

  set_presence-worker : (set_presence v s).worker ≡ s.worker
  unfolding set_presence
  set_presence-worker = ground arith

  set_presence-stop : (set_presence v s).stop ≡ s.stop
  unfolding set_presence
  set_presence-stop = ground arith

module _ (v : ConnectionState) (s : Client) where
  set_client_state-worker : (set_client_state v s).worker ≡ s.worker
  unfolding set_client_state
  set_client_state-worker = ground arith

  set_client_state-stop : (set_client_state v s).stop ≡ s.stop
  unfolding set_client_state
  set_client_state-stop = ground arith

finish_loop-finished : (s : Client) → (finish_loop s).worker ≡ finished
unfolding finish_loop
finish_loop-finished s = set_client_state-worker _ _

end_session-stopped : (b : ℕ) (s : Client) → s.stop ≡ true → (end_session b s).worker ≡ finished
unfolding end_session after_session
end_session-stopped b s stopped =
    rw (set_presence-stop false (set_connected false s), set_connected-stop false s, stopped)
      (finish_loop-finished _)

next_message-stopped : (s : Client) → s.stop ≡ true → (next_message s).worker ≡ finished
unfolding next_message
next_message-stopped s stopped =
    let ended = end_session-stopped initial_backoff s stopped in ground arith

-- The subscriptions from this one on.
abbrev pub subscriptions_left : Channel → ℕ
subscriptions_left to_presence = 7
subscriptions_left to_status = 6
subscriptions_left to_heartbeat = 5
subscriptions_left to_ack = 4
subscriptions_left to_ekinox_presence = 3
subscriptions_left to_ekinox_status = 2
subscriptions_left to_ekinox_heartbeat = 1

-- No exception left the thread.
abbrev pub is_alive : Worker → Bool
is_alive terminated = false
is_alive _ = true

-- The number of steps after which a worker that is told to stop has returned at the latest.
abbrev pub steps_left : Worker → ℕ
steps_left no_worker = 0
steps_left finished = 0
steps_left (opening b) = 9
steps_left (subscribing b channel) = subscriptions_left channel + 1
steps_left _ = 1

after_subscription-steps_left :
    (b : ℕ) (channel : Channel)
    → (steps_left (after_subscription b channel) ≤ subscriptions_left channel)
      × (is_alive (after_subscription b channel) ≡ true)
unfolding after_subscription
after_subscription-steps_left b channel = ground arith

-- A worker that is closer to its return by a step.
abbrev pub Falls : Worker → Worker → Type 0
Falls after before = (steps_left after ≤ steps_left before - 1) × (is_alive after ≡ true)

module _ {V : Type 0} (json : QJson V) where
  -- With the flag set, a step of the worker brings its return closer.
  work_from-steps_left :
      (w : Worker) (a : Answer) (s : Client)
      → s.stop ≡ true
      → s.worker ≡ w
      → is_alive w ≡ true
      → Falls (work_from json w a s).worker w
  unfolding work_from consume
  work_from-steps_left no_worker a s stopped at alive = ground arith
  work_from-steps_left finished a s stopped at alive = ground arith
  work_from-steps_left terminated a s stopped at alive = absurd (cc alive)
  work_from-steps_left (at_head b) a s stopped at alive =
      let f = finish_loop-finished s in ground arith
  work_from-steps_left (opening b) succeeds s stopped at alive = ground arith
  work_from-steps_left (opening b) fails s stopped at alive =
      let f = end_session-stopped b s stopped in ground arith
  work_from-steps_left (opening b) (delivers m) s stopped at alive = ground arith
  work_from-steps_left (subscribing b channel) a s stopped at alive =
      let f = end_session-stopped b s stopped in
      let next = after_subscription-steps_left b channel in ground arith
  work_from-steps_left (starting b) a s stopped at alive =
      let f = end_session-stopped b s stopped in
      let g = next_message-stopped s stopped in ground arith
  work_from-steps_left consuming (delivers m) s stopped at alive =
      let g =
        next_message-stopped (handle_message json m s)
          ((handle_message-SameSession json m s).same_stop ∙ stopped) in
      ground arith
  work_from-steps_left consuming succeeds s stopped at alive =
      let f = end_session-stopped initial_backoff s stopped in ground arith
  work_from-steps_left consuming fails s stopped at alive =
      let f = end_session-stopped initial_backoff s stopped in ground arith
  work_from-steps_left (waiting b) a s stopped at alive =
      let f = finish_loop-finished s in ground arith

  pub work-steps_left :
      (a : Answer) (s : Client)
      → s.stop ≡ true
      → is_alive s.worker ≡ true
      → Falls (work json a s).worker s.worker
  unfolding work
  work-steps_left a s stopped alive = work_from-steps_left s.worker a s stopped refl alive

-- From a backoff of 1000 to 10000 ms and with a draw of at most twice the jitter, the worker waits at
-- least four fifths of the backoff, at most six fifths of it, and never more than 10000 ms.
pub reconnect_delay-bounds :
    (backoff_ms draw : ℕ)
    → 1000 ≤ backoff_ms
    → backoff_ms ≤ 10000
    → draw ≤ 2 * (backoff_ms / 5)
    → (4 * backoff_ms ≤ 5 * reconnect_delay backoff_ms draw)
      × (5 * reconnect_delay backoff_ms draw ≤ 6 * backoff_ms)
      × (reconnect_delay backoff_ms draw ≤ 10000)
unfolding reconnect_delay
reconnect_delay-bounds backoff_ms draw lower upper drawn =
    (ground arith, ground arith, ground arith)
