-- ===== src/Tests/Loop.antt =====
-- The queue, the sensor and the connection at concrete inputs.
use ironsoft.Prelude.{leb, some, List, ◌∷◌, ◌+◌, All, length, ◌≡◌, refl, true, false, [], arith}
use ironsoft.Text.{Text, lit, text_eq}
use ironsoft.Topics.{make_topics}
use ironsoft.Service.State.{Service, TimePoint, mono_ms_of, make_setup, init}
use ironsoft.Service.Yields.{Returned}
use ironsoft.Service.Sensor.{recording_now}
use ironsoft.Service.Exec.{Context, done}
use ironsoft.Service.Sensor.{fail_threshold, next_backoff}
use ironsoft.Service.Sensor.Silence.{polls, IsLate, Waiting, After, polls-GivenUp}
use ironsoft.Udp.{UdpSession, last_rx_age_ms}
use ironsoft.Service.Commands.{drain_commands}
use ironsoft.Service.Answers.Queue.{Served, names_of, drain_commands-Served}
use ironsoft.Service.Loop.Backoff.{IsDown, attempts, retries, Retried, retries-backoff}
use ironsoft.Service.Loop.Stuck.{ensure_connection-stuck}
use ironsoft.Types.{disconnected}
use ironsoft.Service.Loop.Shutdown.{Ended, shutdown-Ended}
use ironsoft.Service.Loop.{message_arrived, shutdown, ensure_connection}
use ironsoft.Service.Invariant.{Inv}
use ironsoft.Tests.Data.{
  calm, calm_setup, calm_context, built_state, connected_state, proven_state, recording_state,
}
use ironsoft.Tests.Service.{ping_message, drone_topics}

-- A ping waits behind another one.
abbrev waiting_state : Service
waiting_state = message_arrived ping_message (message_arrived ping_message connected_state)

drain_commands-Served_example :
    Served
      (make_topics (lit "uav1")).ack
      (names_of calm_context waiting_state.pending_commands)
      []
      (drain_commands calm_context waiting_state)
unfolding message_arrived init
drain_commands-Served_example =
    drain_commands-Served calm_context (lit "uav1") drone_topics (λ n. refl) waiting_state refl

-- Over a live connection, with a sensor.
recording_state-Inv : Inv calm_setup recording_state
unfolding init make_setup
recording_state-Inv = ground arith

recording_connected : recording_state.link.connected ≡ true
unfolding init
recording_connected = refl

shutdown-Ended_example :
    Returned (shutdown calm_context recording_state).0
    × Ended calm_context recording_state.tick recording_state.link recording_state.status.state
        recording_state.sent
        (shutdown calm_context recording_state).1
shutdown-Ended_example =
    shutdown-Ended calm_context (λ n. refl) (λ n. refl) recording_state recording_state-Inv
      recording_connected

-- An open session, and a device that does not record.
abbrev listening_state : Service
listening_state = record proven_state {
  sensor = record (proven_state.sensor) {
    sensor_connected = true;
    udp_session = record (proven_state.sensor.udp_session) { connected = true; last_rx_ms = 1 };
  };
}

abbrev silent_session : UdpSession
silent_session = listening_state.sensor.udp_session

session_opened : silent_session.connected ≡ true
unfolding init
session_opened = refl

listening-Waiting : Waiting calm_context silent_session 0 listening_state
unfolding init recording_now text_eq lit
listening-Waiting = ((refl, refl, refl, refl, refl), λ shown. shown)

abbrev three_times : List TimePoint
three_times = 9000000000000 ∷ 9001000000000 ∷ 9002000000000 ∷ []

times-IsLate : All (IsLate calm_context silent_session) three_times
unfolding last_rx_age_ms make_setup init mono_ms_of
times-IsLate = (omega arith, (omega arith, (omega arith, tt)))

threshold_three : fail_threshold calm_context ≡ 3
unfolding make_setup
threshold_three = refl

polls-GivenUp_example :
    Returned (polls calm_context three_times listening_state).0
    × After calm_context silent_session
        (0 + length three_times)
        (polls calm_context three_times listening_state).1
unfolding make_setup
polls-GivenUp_example =
    polls-GivenUp calm_context silent_session (omega arith) session_opened (λ n. refl) (λ n. refl)
      three_times 0 listening_state (omega arith) (omega arith) times-IsLate listening-Waiting

-- A broker that refuses every connection.
abbrev refusing_context : Context Text
refusing_context = record calm_context { env = record calm { connects = λ n. false } }

abbrev round_times : List TimePoint
round_times = 4000000000 ∷ 5000000000 ∷ 5100000000 ∷ 6000000000 ∷ []

built-IsDown : IsDown refusing_context 250 5000000000 0 [] built_state
unfolding init make_setup
built-IsDown = (refl, refl, refl, refl, refl)

two_attempts : attempts refusing_context 250 5000000000 round_times ≡ 2
unfolding attempts next_backoff make_setup
two_attempts = refl

retries-backoff_example :
    Returned (retries refusing_context round_times built_state).0
    × Retried refusing_context
        (λ n. refl)
        []
        250
        (attempts refusing_context 250 5000000000 round_times)
        0
        (retries refusing_context round_times built_state).1
unfolding make_setup
retries-backoff_example =
    retries-backoff refusing_context (λ n. refl) [] (omega arith) round_times 250 5000000000 0
      built_state (omega arith) built-IsDown

-- A broker that accepts everything, and a client that throws at the first publications.
abbrev throwing_context : Context Text
throwing_context = record calm_context { env = record calm { publishes = λ n. leb 8 n } }

built_disconnected : built_state.link.connected ≡ false
unfolding init
built_disconnected = refl

built_due : built_state.link.next_reconnect_attempt ≡ some 5000000000
unfolding init
built_due = refl

ensure_connection-stuck_example :
    let t = (ensure_connection throwing_context 5000000000 built_state).1 in
    Returned (ensure_connection throwing_context 5000000000 built_state).0
    × (t.link.connected ≡ true)
    × (t.status.state ≡ disconnected)
    × ((later : TimePoint) (u : Service)
        → u.link.connected ≡ true
        → ensure_connection throwing_context later u ≡ (done tt, u))
unfolding init
ensure_connection-stuck_example =
    ensure_connection-stuck throwing_context (λ n. refl) (λ n. refl) 5000000000 5000000000
      built_state (λ n small. ground arith) built_disconnected built_due (omega arith)
