-- ===== src/Tests/Service.antt =====
-- The service at concrete inputs.
use ironsoft.Prelude.{ℕ, ◌≤◌, ◌+◌, ◌∷◌, ◌/◌, max, min, ◌≡◌, ◌↔◌, refl, true, false, [], arith}
use ironsoft.Text.{lit}
use ironsoft.Topics.{make_topics}
use ironsoft.Rest.Enrich.{LoggerResult, empty_result}
use ironsoft.Service.State.{Service, CommandMessage, make_setup, init}
use ironsoft.Service.Exec.{mono_ms, steady_now, unix_ts, gets, ask, modify, pure, publish, ◌>>=◌}
use ironsoft.Service.Health.{rest_offline_condition, rest_age_ms}
use ironsoft.Service.Health.Offline.{Offline, rest_offline_condition_iff}
use ironsoft.Service.Publish.{publish_presence, emit_presence, rate_limited}
use ironsoft.Service.Presence.{should_online, presence_reason, update_presence_state}
use ironsoft.Service.Presence.Rules.{
  Ready, SentOnce, update_presence_state-Ready, publish_presence-SentOnce,
}
use ironsoft.Service.RestResult.{mark_rest_result, rest_success}
use ironsoft.Service.RestResult.Streaks.{Healthy, mark_rest_result-Healthy}
use ironsoft.Service.RestResult.Failures.{Report, marked, all_marked, all_marked-offline}
use ironsoft.Service.Health.{int_max}
use ironsoft.Service.Sensor.{poll_sensor, recording_now}
use ironsoft.Service.Sensor.Deferral.{poll_sensor-keeps_session}
use ironsoft.Service.State.Bounds.{make_setup-faithful}
use ironsoft.Service.Commands.{handle_command_message}
use ironsoft.Service.Answers.{Answering}
use ironsoft.Service.Answers.Commands.{named, handle_command_message-answers}
use ironsoft.Service.Loop.{round, connection_lost, message_arrived}
use ironsoft.Service.Invariant.{Inv}
use ironsoft.Service.Invariant.Loop.{Reach, built, went_round, lost, arrived, Reach-Inv}
use ironsoft.Tests.Rest.{loaded_IsValid}
use ironsoft.Service.Loop.Lost.{Down, connection_lost-Down}
use ironsoft.Service.Exec.{done}
use ironsoft.Tests.Data.{
  calm_setup, calm_context, built_state, connected_state, proven_state, recording_state,
  loaded_config,
}

abbrev pub ping_message : CommandMessage
ping_message = record { topic = lit "ironsoft/uav/uav1/cmd"; payload = lit "{}" }

pub drone_topics : calm_setup.topics ≡ make_topics (lit "uav1")
unfolding make_setup
drone_topics = refl

state_connected : connected_state.link.connected ≡ true
unfolding init
state_connected = refl

handle_command_message-answers_example :
    Answering
      (make_topics (lit "uav1")).ack
      (named calm_context (calm_context.json.parse ping_message.payload)).0
      (named calm_context (calm_context.json.parse ping_message.payload)).1
      connected_state
      (handle_command_message calm_context ping_message connected_state)
handle_command_message-answers_example =
    handle_command_message-answers calm_context (lit "uav1") drone_topics (λ n. refl) ping_message
      connected_state refl

-- A round, a command, another round, and then the connection is lost.
abbrev lost_state : Service
lost_state =
    (connection_lost calm_context
      (round calm_context (message_arrived ping_message (round calm_context built_state).1)).1).1

lost_reached : Reach calm_context 1700000000 5000000000 lost_state
lost_reached = lost (went_round (arrived ping_message (went_round built)))

Reach-Inv_example : Inv calm_setup lost_state
Reach-Inv_example = Reach-Inv calm_context lost_reached

goes_online :
    (update_presence_state calm_context 5000 [] proven_state).1.link.presence_online ≡ true
unfolding update_presence_state should_online presence_reason publish_presence emit_presence
    rate_limited rest_offline_condition rest_age_ms mono_ms steady_now unix_ts publish gets ask
    modify pure init make_setup ◌>>=◌
goes_online = refl

was_offline : proven_state.link.presence_online ≡ false
unfolding init
was_offline = refl

update_presence_state-Ready_example : Ready calm_context 5000 proven_state
update_presence_state-Ready_example =
    update_presence_state-Ready calm_context 5000 [] proven_state was_offline goes_online

publish_presence-SentOnce_example :
    SentOnce calm_context true
      (lit "ok")
      connected_state
      (publish_presence calm_context true (lit "ok") connected_state).1
publish_presence-SentOnce_example =
    publish_presence-SentOnce calm_context true (lit "ok") connected_state

abbrev good_result : LoggerResult
good_result = record empty_result { ok = true; http_code = 204 }

good_succeeds : rest_success good_result ≡ true
unfolding rest_success
good_succeeds = refl

mark_rest_result-Healthy_example :
    Healthy calm_context 5000 connected_state.rest
      (mark_rest_result calm_context good_result (lit "poll.timer") 5000 connected_state).1
mark_rest_result-Healthy_example =
    mark_rest_result-Healthy calm_context good_result (lit "poll.timer") 5000 connected_state
      good_succeeds (omega arith)

empty_fails : rest_success empty_result ≡ false
unfolding rest_success
empty_fails = refl

abbrev failing_report : ℕ → Report
failing_report now_ms = record { result = empty_result; reason = lit "poll.timer"; now_ms = now_ms }

-- A healthy service, and three failed polls.
all_marked-offline_example :
    let t =
      marked calm_context
        (failing_report 7000)
        (all_marked calm_context (failing_report 5000 ∷ failing_report 6000 ∷ []) proven_state) in
    (rest_offline_condition calm_setup t 7000 ≡ true)
    × (t.status.api_ok ≡ false)
    × (t.rest.rest_alive ≡ false)
    × (t.rest.rest_success_streak ≡ 0)
    × (min (proven_state.rest.rest_fail_streak + 2 + 1) int_max ≤ t.rest.rest_fail_streak)
all_marked-offline_example =
    all_marked-offline calm_context (failing_report 5000 ∷ failing_report 6000 ∷ [])
      (failing_report 7000) proven_state (empty_fails, (empty_fails, tt)) empty_fails (omega arith)

rest_offline_condition_iff_example :
    (rest_offline_condition calm_setup proven_state 60000 ≡ true)
    ↔ Offline calm_setup proven_state 60000
rest_offline_condition_iff_example = rest_offline_condition_iff calm_setup proven_state 60000

session_connected : recording_state.sensor.sensor_connected ≡ true
unfolding init
session_connected = refl

session_open : recording_state.sensor.udp_session.connected ≡ true
unfolding init
session_open = refl

records : recording_now recording_state ≡ true
unfolding recording_now init
records = refl

poll_sensor-keeps_session_example :
    ((poll_sensor calm_context 9000000000000 recording_state).1.sensor.sensor_connected ≡ true)
    × ((poll_sensor calm_context 9000000000000 recording_state).1.sensor.udp_session.connected
        ≡ true)
poll_sensor-keeps_session_example =
    poll_sensor-keeps_session calm_context (λ n. refl) 9000000000000 recording_state
      session_connected session_open records

make_setup-faithful_example :
    let setup = make_setup true loaded_config in
    (setup.udp_config.remote_port ≡ loaded_config.ekinox.udp_port)
    × (setup.udp_config.local_port ≡ loaded_config.ekinox.udp_local_port)
    × (setup.udp_config.rx_dead_ms ≡ loaded_config.timeouts.rx_dead_ms)
    × (setup.presence_timeout ≡ loaded_config.timeouts.presence_timeout_ms)
    × (setup.rest_poll_interval ≡ max 1000 (min 2000 (setup.presence_timeout / 2)))
make_setup-faithful_example = make_setup-faithful true loaded_config loaded_IsValid (omega arith)

connection_lost-Down_example :
    ((connection_lost calm_context recording_state).0 ≡ done tt)
    × Down calm_context recording_state (connection_lost calm_context recording_state).1
connection_lost-Down_example = connection_lost-Down calm_context recording_state
