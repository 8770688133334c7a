-- ===== src/Service/Invariant/Loop.antt =====
-- The invariant holds in every state that the rounds of the loop, the callbacks of the MQTT client and
-- the shutdown reach from the members that the constructor leaves.
use ironsoft.Prelude.{ℕ, Bool, true, false, arith}
use ironsoft.Text.{Text}
use ironsoft.Service.State.{Service, CommandMessage, init}
use ironsoft.Service.Steps.{
  Order, Steps, Steps-pure, Steps-gets, Steps-bind, Steps-catch, Steps-modify, Steps-if,
}
use ironsoft.Service.Yields.{Yields-Steps}
use ironsoft.Service.Exec.{Context, modify}
use ironsoft.Service.Sensor.{next_backoff}
use ironsoft.Service.Invariant.{
  Inv, Keep, keep, set_state-Inv, steady_now-Inv, mono_ms-Inv, update_link_health-Inv,
}
use ironsoft.Service.Invariant.Rest.{
  expect-Inv, publish_status-Inv, publish_heartbeat-Inv, update_presence_state-Inv,
  refresh_rest_health-Inv, request_logger_state-Inv,
}
use ironsoft.Service.Invariant.Session.{ensure_sensor_session-I, poll_sensor-I}
use ironsoft.Service.Invariant.Commands.{drain_commands-Inv}
use ironsoft.Service.Invariant.Shutdown.{shutdown-Inv}
use ironsoft.Service.Loop.{
  with_connection, with_connection_lost, set_next_poll, message_arrived, with_attempt, subscribe,
  establish, connect_once, attempt_connection, ensure_connection, connection_lost, poll_rest,
  publish_due, serve, round, shutdown,
}

module _ {V : Type 0} (c : Context V) where
  open c use {setup}

  abbrev k : Order (Keep setup)
  k = keep c

  subscribe-Inv : (topic : Text) → Steps (Keep setup) (subscribe c topic)
  unfolding subscribe
  subscribe-Inv topic = Steps-if _ (Steps-pure k _) (expect-Inv c _)

  with_connection-Inv : (next : ℕ) → Steps (Keep setup) (modify (with_connection next))
  unfolding with_connection
  with_connection-Inv next = Steps-modify _ λ s h. ground arith

  set_next_poll-Inv : (next : ℕ) → Steps (Keep setup) (modify (set_next_poll next))
  unfolding set_next_poll
  set_next_poll-Inv next = Steps-modify _ λ s h. ground arith

  with_attempt-Inv : (now : ℕ) (b : Bool) → Steps (Keep setup) (modify (with_attempt setup now b))
  unfolding with_attempt next_backoff
  with_attempt-Inv now true = Steps-modify _ λ s h. ground arith
  with_attempt-Inv now false = Steps-modify _ λ s h. ground arith

  connect_once-Inv : Steps (Keep setup) (connect_once c)
  unfolding connect_once establish
  connect_once-Inv =
      Steps-catch k
        (Steps-bind k (set_state-Inv c _) λ _. Steps-bind k (expect-Inv c _) λ _.
          Steps-bind k (subscribe-Inv _) λ _. Steps-bind k (subscribe-Inv _) λ _.
            Steps-bind k (mono_ms-Inv c) λ base. Steps-bind k (with_connection-Inv _) λ _.
              Steps-bind k (set_state-Inv c _) λ _. Steps-bind k (mono_ms-Inv c) λ now_ms.
                Steps-bind k (update_presence_state-Inv c _ _) λ _.
                  Steps-bind k (publish_status-Inv c) λ _. Steps-bind k (mono_ms-Inv c) λ test_ms.
                    Steps-bind k (request_logger_state-Inv c _ _)
                      λ r. Steps-bind k (publish_status-Inv c) λ _. Steps-pure k _)
        (Steps-bind k (set_state-Inv c _) λ _. Steps-pure k _)

  ensure_connection-Inv : (now : ℕ) → Steps (Keep setup) (ensure_connection c now)
  unfolding ensure_connection attempt_connection
  ensure_connection-Inv now = Steps-bind k (Steps-gets k _) λ connected.
      Steps-bind k (Steps-gets k _) λ due. Steps-if _ (Steps-pure k _) (
        Steps-bind k (Steps-modify _ λ s h. ground arith) λ _.
          Steps-if _ (Steps-pure k _)
            (Steps-bind k connect_once-Inv λ succeeded. with_attempt-Inv now succeeded))

  -- A lost connection, which the client reports, keeps the invariant.
  connection_lost-Inv : Steps (Keep setup) (connection_lost c)
  unfolding connection_lost with_connection_lost
  connection_lost-Inv = Steps-bind k (Steps-modify _ λ s h. ground arith) λ _.
      Steps-bind k (steady_now-Inv c) λ now. Steps-bind k (update_link_health-Inv c _) λ _.
        Steps-bind k (set_state-Inv c _) λ _.
          Steps-bind k (Steps-modify _ λ s h. ground arith) λ _. update_presence_state-Inv c _ _

  poll_rest-Inv : (now_ms : ℕ) → Steps (Keep setup) (poll_rest c now_ms)
  unfolding poll_rest
  poll_rest-Inv now_ms = Steps-bind k (Steps-gets k _) λ due.
      Steps-bind k (Steps-if _ (set_next_poll-Inv _) (Steps-pure k _)) λ _.
        Steps-bind k (Steps-gets k _) λ next.
          Steps-if _ (Steps-bind k (request_logger_state-Inv c _ _) λ r. set_next_poll-Inv _)
            (Steps-pure k _)

  publish_due-Inv : (now : ℕ) → Steps (Keep setup) (publish_due c now)
  unfolding publish_due
  publish_due-Inv now = Steps-bind k (Steps-gets k _) λ status_due.
      Steps-bind k
        (Steps-if _ (Steps-bind k (publish_status-Inv c) λ _. Steps-modify _ λ s h. ground arith)
          (Steps-pure k _))
        λ _. Steps-bind k (Steps-gets k _) λ heartbeat_due.
          Steps-bind k (Steps-gets k _) λ start_tp.
            Steps-if _
              (Steps-bind k (publish_heartbeat-Inv c _) λ _. Steps-modify _ λ s h. ground arith)
              (Steps-pure k _)

  serve-Inv : (now : ℕ) → Steps (Keep setup) (serve c now)
  unfolding serve
  serve-Inv now = Steps-bind k (drain_commands-Inv c) λ _.
      Steps-bind k (Yields-Steps (ensure_sensor_session-I c now)) λ _.
        Steps-bind k (Yields-Steps (poll_sensor-I c now)) λ _.
          Steps-bind k (refresh_rest_health-Inv c _)
            λ _. Steps-bind k (poll_rest-Inv _) λ _. publish_due-Inv now

  -- A round of the loop keeps the invariant, whatever the environment answers, also where it throws.
  round-Inv : Steps (Keep setup) (round c)
  unfolding round
  round-Inv = Steps-bind k (steady_now-Inv c) λ now. Steps-bind k (ensure_connection-Inv now) λ _.
      Steps-bind k (Steps-gets k _) λ connected. Steps-if _ (serve-Inv now) (set_next_poll-Inv _)

  -- The states that the service goes through: the constructor's, and those after a round,
  -- a callback or the end of `run`.
  pub data Reach (unix_ts now : ℕ) : Service → Type 0 where
    built : Reach unix_ts now (init setup unix_ts now)
    went_round : {s : Service} → Reach unix_ts now s → Reach unix_ts now (round c s).1
    lost : {s : Service} → Reach unix_ts now s → Reach unix_ts now (connection_lost c s).1
    arrived :
        {s : Service} (m : CommandMessage)
        → Reach unix_ts now s
        → Reach unix_ts now (message_arrived m s)
    ended : {s : Service} → Reach unix_ts now s → Reach unix_ts now (shutdown c s).1

  init-Inv : (unix_ts now : ℕ) → Inv setup (init setup unix_ts now)
  unfolding init
  init-Inv unix_ts now = ground arith

  message_arrived-Inv :
      (m : CommandMessage) (s : Service) → Inv setup s → Inv setup (message_arrived m s)
  unfolding message_arrived
  message_arrived-Inv m s h = ground arith

  -- In every state that rounds of the loop, lost connections, arriving messages and the end of `run`
  -- reach from the constructor's, whatever the environment answers and wherever it throws, the
  -- invariant `Inv` holds: the link is alive only with a sensor session that is open and receives, the
  -- service is online only while it is connected, REST successes and failures in a row exclude one
  -- another, and streaks and backoff are bounded.
  pub Reach-Inv : {unix_ts now : ℕ} {s : Service} → Reach unix_ts now s → Inv setup s
  Reach-Inv built = init-Inv _ _
  Reach-Inv (went_round r) = round-Inv.at _ (Reach-Inv r)
  Reach-Inv (lost r) = connection_lost-Inv.at _ (Reach-Inv r)
  Reach-Inv (arrived m r) = message_arrived-Inv m _ (Reach-Inv r)
  Reach-Inv (ended r) = (shutdown-Inv c).at _ (Reach-Inv r)
