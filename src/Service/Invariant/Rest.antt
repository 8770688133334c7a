-- ===== src/Service/Invariant/Rest.antt =====
-- Publishing and the REST results keep the invariant.
use ironsoft.Prelude.{ℕ, ◌≡◌, refl, Bool, true, false, Option, none, some, arith}
use ironsoft.Text.{Text}
use ironsoft.Json.{Fields}
use ironsoft.Rest.Enrich.{LoggerResult}
use ironsoft.Service.State.{Service, Setup, Message}
use ironsoft.Service.Steps.{
  Order, Steps, Steps-pure, Steps-throw, Steps-gets, Steps-ask, Steps-bind, Steps-catch,
  Steps-modify, Steps-if,
}
use ironsoft.Service.Invariant.{
  Inv, Keep, keep, set_state-Inv, steady_now-Inv, unix_ts-Inv, mono_ms-Inv, publish-Inv,
  set_error-Inv, update_link_health-Inv,
}
use ironsoft.Service.Exec.{
  expect, Context, gets, modify, ◌>>=◌, publish, mono_ms, steady_now, unix_ts,
}
use ironsoft.Service.Health.{bump}
use ironsoft.Service.Publish.{
  defer_presence, emit_presence, publish_presence, publish_status, publish_heartbeat, publish_topic,
  publish_ack, send_ack,
}
use ironsoft.Service.Presence.{should_online, update_presence_state}
use ironsoft.Service.RestResult.{
  with_success, with_failure, with_rest_alive, with_timeout_error, with_reported_session, or_throw,
  mark_success, mark_failure, mark_rest_result, rest_times_out, refresh_rest_health, adopt_flag,
  adopt_success, adopt_failure, call_get, request_logger_state,
}

-- An action while the service is connected: it stays connected, and keeps the invariant.
abbrev Online : Setup → Service → Service → Type 0
Online setup s t = s.link.connected ≡ true → Inv setup s → (t.link.connected ≡ true) × Inv setup t

Online-Order : (setup : Setup) → Order (Online setup)
Online-Order setup = record {
  refl_of = λ s h i. (h, i);
  trans_of = λ s t u f g h i. let p = f h i in g p.0 p.1;
  tick_of = λ s h i. ground arith;
}

module _ {V : Type 0} (c : Context V) where
  open c use {setup}

  abbrev k : Order (Keep setup)
  k = keep c

  pub publish_status-Inv : Steps (Keep setup) (publish_status c)
  unfolding publish_status
  publish_status-Inv = Steps-bind k (Steps-gets k _) λ connected.
      Steps-bind k (Steps-gets k _) λ payload. Steps-if _ (Steps-pure k _) (publish-Inv c _)

  pub publish_heartbeat-Inv : (uptime_s : ℕ) → Steps (Keep setup) (publish_heartbeat c uptime_s)
  unfolding publish_heartbeat
  publish_heartbeat-Inv uptime_s = Steps-bind k (Steps-gets k _) λ connected.
      Steps-if _ (Steps-pure k _) (
        Steps-bind k (Steps-modify _ λ s h. ground arith)
          λ _. Steps-bind k (Steps-gets k _) λ seq. publish-Inv c _)

  pub expect-Inv : (outcome : ℕ → Bool) → Steps (Keep setup) (expect outcome)
  unfolding expect
  expect-Inv outcome =
      Steps-bind k (Steps-ask k _)
        λ succeeded. Steps-if succeeded (Steps-pure k _) (Steps-throw k _)

  publish_topic-Inv : (f : Fields) (t : Text) → Steps (Keep setup) (publish_topic c f t)
  unfolding publish_topic
  publish_topic-Inv f t = Steps-bind k (Steps-gets k _) λ connected.
      Steps-if _ (Steps-pure k _)
        (Steps-catch k (Steps-bind k (publish-Inv c _) λ _. expect-Inv _) (Steps-pure k _))

  pub publish_ack-Inv :
      (type id : Text) (ok : Bool) (code : ℕ) (message err : Text)
      → Steps (Keep setup) (publish_ack c type id ok code message err)
  unfolding publish_ack
  publish_ack-Inv type id ok code message err = Steps-bind k (unix_ts-Inv c) λ ts.
      Steps-bind k (publish_topic-Inv _ _) λ _. Steps-if _ (publish_topic-Inv _ _) (Steps-pure k _)

  pub send_ack-Inv :
      (id type : Text) (ok : Bool) (message err : Text) (code : ℕ)
      → Steps (Keep setup) (send_ack c id type ok message err code)
  unfolding send_ack
  send_ack-Inv id type ok message err code = publish_ack-Inv _ _ _ _ _ _

  pub publish_offline-Inv : (reason : Text) → Steps (Keep setup) (publish_presence c false reason)
  unfolding publish_presence defer_presence emit_presence
  publish_offline-Inv reason = Steps-bind k (mono_ms-Inv c) λ now_ms.
      Steps-bind k (Steps-gets k _) λ limited. Steps-bind k (Steps-gets k _) λ connected.
        Steps-if _ (Steps-bind k (unix_ts-Inv c) λ ts. Steps-modify _ λ s h. ground arith) (
          Steps-if _ (Steps-pure k _) (
            Steps-bind k (unix_ts-Inv c) λ ts.
              Steps-bind k (Steps-modify _ λ s h. ground arith) λ _.
                Steps-bind k (Steps-gets k _) λ payload.
                  Steps-bind k (publish-Inv c _) λ _. Steps-modify _ λ s h. ground arith))

  abbrev o : Order (Online setup)
  o = Online-Order setup

  publish-Online : (m : Message) → Steps (Online setup) (publish c m)
  unfolding publish
  publish-Online m =
      Steps-bind o (Steps-ask o _)
        λ accepted. Steps-if accepted (Steps-modify _ λ s h i. ground arith) (Steps-throw o _)

  publish_online-Online : (reason : Text) → Steps (Online setup) (publish_presence c true reason)
  unfolding publish_presence defer_presence emit_presence mono_ms steady_now unix_ts
  publish_online-Online reason =
      Steps-bind o (Steps-bind o (Steps-ask o _) λ now. Steps-pure o _) λ now_ms.
        Steps-bind o (Steps-gets o _) λ limited. Steps-bind o (Steps-gets o _) λ connected.
          Steps-if _ (Steps-bind o (Steps-ask o _) λ ts. Steps-modify _ λ s h i. ground arith) (
            Steps-if _ (Steps-pure o _) (
              Steps-bind o (Steps-ask o _) λ ts.
                Steps-bind o (Steps-modify _ λ s h i. ground arith) λ _.
                  Steps-bind o (Steps-gets o _) λ payload.
                    Steps-bind o (publish-Online _) λ _. Steps-modify _ λ s h i. ground arith))

  should_online-connected :
      (now_ms : ℕ) (s : Service) → should_online setup now_ms s ≡ true → s.link.connected ≡ true
  unfolding should_online
  should_online-connected now_ms s h = ground arith

  publish_decided-Inv :
      (online : Bool) (reason : Text) (s : Service)
      → (online ≡ true → s.link.connected ≡ true)
      → Keep setup s (publish_presence c online reason s).1
  publish_decided-Inv true reason s h i = ((publish_online-Online reason).at s (h refl) i).1
  publish_decided-Inv false reason s h i = (publish_offline-Inv reason).at s i

  pub update_presence_state-Inv :
      (now_ms : ℕ) (reason : Text) → Steps (Keep setup) (update_presence_state c now_ms reason)
  unfolding update_presence_state gets ◌>>=◌
  update_presence_state-Inv now_ms reason = record {
    at = λ s. publish_decided-Inv _ _ s (should_online-connected now_ms s);
  }

  pub or_throw-Inv : (r : Option LoggerResult) → Steps (Keep setup) (or_throw r)
  unfolding or_throw
  or_throw-Inv none = Steps-throw k _
  or_throw-Inv (some r) = Steps-pure k _

  with_rest_alive-Inv : (alive : Bool) → Steps (Keep setup) (modify (with_rest_alive alive))
  unfolding with_rest_alive
  with_rest_alive-Inv alive = Steps-modify _ λ s h. ground arith

  mark_success-Inv : (now now_ms : ℕ) → Steps (Keep setup) (mark_success c now now_ms)
  unfolding mark_success with_success bump
  mark_success-Inv now now_ms =
      Steps-bind k (Steps-modify _ λ s h. ground arith)
        λ _. Steps-bind k (update_link_health-Inv c _) λ _. update_presence_state-Inv _ _

  mark_failure-Inv :
      (r : LoggerResult) (reason : Text) (now_ms : ℕ)
      → Steps (Keep setup) (mark_failure c r reason now_ms)
  unfolding mark_failure with_failure bump
  mark_failure-Inv r reason now_ms = Steps-bind k (Steps-modify _ λ s h. ground arith) λ _.
      Steps-bind k (Steps-gets k _) λ offline. Steps-bind k (with_rest_alive-Inv _) λ _.
        Steps-bind k (update_link_health-Inv c _)
          λ _. Steps-if offline (update_presence_state-Inv _ _) (Steps-pure k _)

  pub mark_rest_result-Inv :
      (r : LoggerResult) (reason : Text) (now_ms : ℕ)
      → Steps (Keep setup) (mark_rest_result c r reason now_ms)
  unfolding mark_rest_result
  mark_rest_result-Inv r reason now_ms =
      Steps-bind k (steady_now-Inv c)
        λ now. Steps-if _ (mark_success-Inv _ _) (mark_failure-Inv _ _ _)

  pub refresh_rest_health-Inv : (now_ms : ℕ) → Steps (Keep setup) (refresh_rest_health c now_ms)
  unfolding refresh_rest_health rest_times_out with_timeout_error
  refresh_rest_health-Inv now_ms = Steps-bind k (Steps-gets k _) λ offline.
      Steps-bind k (Steps-gets k _) λ alive. Steps-if _ (with_rest_alive-Inv _) (
        Steps-if _ (Steps-pure k _) (
          Steps-bind k (Steps-modify _ λ s h. ground arith)
            λ _. Steps-bind k (update_link_health-Inv c _) λ _. update_presence_state-Inv _ _))

  adopt_success-Inv : (r : LoggerResult) → Steps (Keep setup) (adopt_success r)
  unfolding adopt_success adopt_flag with_reported_session
  adopt_success-Inv r = Steps-bind k (Steps-modify _ λ s h. ground arith) λ _.
      Steps-bind k
        (Steps-if r.has_recording_flag
          (Steps-bind k (Steps-modify _ λ s h. ground arith) λ _. set_state-Inv c _)
          (Steps-pure k _))
        λ _. Steps-modify _ λ s h. ground arith

  adopt_failure-Inv :
      (r : LoggerResult) (reason : Text) → Steps (Keep setup) (adopt_failure c r reason)
  unfolding adopt_failure
  adopt_failure-Inv r reason = Steps-bind k (Steps-if _ (set_error-Inv c _) (Steps-pure k _)) λ _.
      Steps-if _ (Steps-bind k (Steps-modify _ λ s h. ground arith) λ _. set_state-Inv c _)
        (set_state-Inv c _)

  -- A request of the logger's state, whatever the device answers, keeps the invariant.
  pub request_logger_state-Inv :
      (reason : Text) (now_ms : ℕ) → Steps (Keep setup) (request_logger_state c reason now_ms)
  unfolding request_logger_state call_get
  request_logger_state-Inv reason now_ms =
      Steps-bind k (Steps-bind k (Steps-ask k _) λ curl. or_throw-Inv _) λ r.
        Steps-bind k (mark_rest_result-Inv _ _ _) λ _.
          Steps-bind k (Steps-if _ (adopt_success-Inv _) (adopt_failure-Inv _ _))
            λ _. Steps-pure k _
