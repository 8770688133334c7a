-- ===== src/Service/Quiet.antt =====
-- Actions that answer no command: a connected service stays connected, and nothing is added on the
-- topic of the acknowledgements.
use ironsoft.Prelude.{
  ℕ, ◌≡◌, refl, ◌∙◌, Bool, true, false, Option, none, some, List, [], ◌∷◌, if◌then◌else◌, arith,
}
use ironsoft.Text.{Text, text_eq, is_empty}
use ironsoft.Json.{Fields}
use ironsoft.Types.{ServiceState}
use ironsoft.Rest.Enrich.{LoggerResult}
use ironsoft.Service.State.{Service, Setup, Message}
use ironsoft.Service.Steps.{
  Order, Steps, Steps-pure, Steps-throw, Steps-gets, Steps-ask, Steps-bind, Steps-modify, Steps-if,
}
use ironsoft.Service.Exec.{Context, publish, mono_ms, steady_now, unix_ts}
use ironsoft.Service.Health.{set_state, update_link_health, with_link_health, set_error}
use ironsoft.Service.Publish.{defer_presence, emit_presence, publish_presence, publish_status}
use ironsoft.Service.Presence.{update_presence_state}
use ironsoft.Service.RestResult.{
  with_success, with_failure, with_rest_alive, with_reported_session, or_throw, mark_success,
  mark_failure, mark_rest_result, adopt_flag, adopt_success, adopt_failure, call_get,
  request_logger_state,
}

-- The payloads sent on a topic, newest first.
unfoldable pub sent_on : Text → List Message → List Fields
sent_on topic [] = []
sent_on topic (m ∷ rest) =
    if text_eq m.topic topic then m.fields ∷ sent_on topic rest else sent_on topic rest

abbrev pub Quiet : Setup → Service → Service → Type 0
Quiet setup s t =
    s.link.connected ≡ true
    → (t.link.connected ≡ true)
      × (sent_on setup.topics.ack t.sent ≡ sent_on setup.topics.ack s.sent)

pub Quiet-Order : (setup : Setup) → Order (Quiet setup)
Quiet-Order setup = record {
  refl_of = λ s h. (h, refl);
  trans_of = λ s t u f g h. let p = f h in let q = g p.0 in (q.0, q.1 ∙ p.1);
  tick_of = λ s h. (h, refl);
}

-- The topics on which the service reports are not the one on which it answers.
pub record Apart (setup : Setup) : Type 0 where
  pub presence : text_eq setup.topics.presence setup.topics.ack ≡ false
  pub status : text_eq setup.topics.status setup.topics.ack ≡ false
  pub ack : is_empty setup.topics.ack ≡ false

module _ {V : Type 0} (c : Context V) where
  open c use {setup}

  abbrev pub quiet : Order (Quiet setup)
  quiet = Quiet-Order setup

  abbrev k : Order (Quiet setup)
  k = quiet

  pub set_state-Quiet : (t : ServiceState) → Steps (Quiet setup) (set_state t)
  unfolding set_state
  set_state-Quiet t = Steps-modify _ λ s h. (h, refl)

  pub unix_ts-Quiet : Steps (Quiet setup) (unix_ts c)
  unfolding unix_ts
  unix_ts-Quiet = Steps-ask k _

  pub mono_ms-Quiet : Steps (Quiet setup) (mono_ms c)
  unfolding mono_ms steady_now
  mono_ms-Quiet = Steps-bind k (Steps-ask k _) λ now. Steps-pure k _

  publish-Quiet :
      (m : Message) → text_eq m.topic setup.topics.ack ≡ false → Steps (Quiet setup) (publish c m)
  unfolding publish sent_on
  publish-Quiet m e =
      Steps-bind k (Steps-ask k _)
        λ accepted. Steps-if accepted (Steps-modify _ λ s h. (h, ground arith)) (Steps-throw k _)

  pub set_error-Quiet : (t : Text) → Steps (Quiet setup) (set_error c t)
  unfolding set_error
  set_error-Quiet t =
      Steps-bind k (Steps-modify _ λ s h. (h, refl))
        λ _. Steps-bind k unix_ts-Quiet λ ts. Steps-modify _ λ s h. (h, refl)

  pub update_link_health-Quiet : (now_ms : ℕ) → Steps (Quiet setup) (update_link_health c now_ms)
  unfolding update_link_health with_link_health
  update_link_health-Quiet now_ms = Steps-modify _ λ s h. (h, refl)

  pub or_throw-Quiet : (r : Option LoggerResult) → Steps (Quiet setup) (or_throw r)
  unfolding or_throw
  or_throw-Quiet none = Steps-throw k _
  or_throw-Quiet (some r) = Steps-pure k _

  adopt_success-Quiet : (r : LoggerResult) → Steps (Quiet setup) (adopt_success r)
  unfolding adopt_success adopt_flag with_reported_session
  adopt_success-Quiet r = Steps-bind k (Steps-modify _ λ s h. (h, refl)) λ _.
      Steps-bind k
        (Steps-if r.has_recording_flag
          (Steps-bind k (Steps-modify _ λ s h. (h, refl)) λ _. set_state-Quiet _) (Steps-pure k _))
        λ _. Steps-modify _ λ s h. (h, refl)

  adopt_failure-Quiet :
      (r : LoggerResult) (reason : Text) → Steps (Quiet setup) (adopt_failure c r reason)
  unfolding adopt_failure
  adopt_failure-Quiet r reason = Steps-bind k (Steps-if _ (set_error-Quiet _) (Steps-pure k _)) λ _.
      Steps-if _ (Steps-bind k (Steps-modify _ λ s h. (h, refl)) λ _. set_state-Quiet _)
        (set_state-Quiet _)

  module _ (apart : Apart setup) where
    pub publish_status-Quiet : Steps (Quiet setup) (publish_status c)
    unfolding publish_status
    publish_status-Quiet = Steps-bind k (Steps-gets k _) λ connected.
        Steps-bind k (Steps-gets k _)
          λ payload. Steps-if _ (Steps-pure k _) (publish-Quiet _ apart.status)

    publish_presence-Quiet :
        (online : Bool) (reason : Text) → Steps (Quiet setup) (publish_presence c online reason)
    unfolding publish_presence defer_presence emit_presence
    publish_presence-Quiet online reason = Steps-bind k mono_ms-Quiet λ now_ms.
        Steps-bind k (Steps-gets k _) λ limited. Steps-bind k (Steps-gets k _) λ connected.
          Steps-if _ (Steps-bind k unix_ts-Quiet λ ts. Steps-modify _ λ s h. (h, refl)) (
            Steps-if _ (Steps-pure k _) (
              Steps-bind k unix_ts-Quiet λ ts. Steps-bind k (Steps-modify _ λ s h. (h, refl)) λ _.
                Steps-bind k (Steps-gets k _) λ payload.
                  Steps-bind k (publish-Quiet _ apart.presence)
                    λ _. Steps-modify _ λ s h. (h, refl)))

    pub update_presence_state-Quiet :
        (now_ms : ℕ) (reason : Text) → Steps (Quiet setup) (update_presence_state c now_ms reason)
    unfolding update_presence_state
    update_presence_state-Quiet now_ms reason =
        Steps-bind k (Steps-gets k _)
          λ online. Steps-bind k (Steps-gets k _) λ text. publish_presence-Quiet online text

    pub mark_rest_result-Quiet :
        (r : LoggerResult) (reason : Text) (now_ms : ℕ)
        → Steps (Quiet setup) (mark_rest_result c r reason now_ms)
    unfolding mark_rest_result mark_success mark_failure with_success with_failure with_rest_alive
        steady_now
    mark_rest_result-Quiet r reason now_ms = Steps-bind k (Steps-ask k _) λ now.
        Steps-if _
          (Steps-bind k (Steps-modify _ λ s h. (h, refl))
            λ _. Steps-bind k (update_link_health-Quiet _) λ _. update_presence_state-Quiet _ _)
          (Steps-bind k (Steps-modify _ λ s h. (h, refl)) λ _.
            Steps-bind k (Steps-gets k _) λ offline.
              Steps-bind k (Steps-modify _ λ s h. (h, refl)) λ _.
                Steps-bind k (update_link_health-Quiet _)
                  λ _. Steps-if offline (update_presence_state-Quiet _ _) (Steps-pure k _))

    pub request_logger_state-Quiet :
        (reason : Text) (now_ms : ℕ) → Steps (Quiet setup) (request_logger_state c reason now_ms)
    unfolding request_logger_state call_get
    request_logger_state-Quiet reason now_ms =
        Steps-bind k (Steps-bind k (Steps-ask k _) λ curl. or_throw-Quiet _) λ r.
          Steps-bind k (mark_rest_result-Quiet _ _ _) λ _.
            Steps-bind k (Steps-if _ (adopt_success-Quiet _) (adopt_failure-Quiet _ _))
              λ _. Steps-pure k _
