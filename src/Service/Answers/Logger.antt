-- ===== src/Service/Answers/Logger.antt =====
-- The handlers of the logger commands answer exactly once.
use ironsoft.Text.Sanitize.{
  IsClean, sanitize_and_clip_nonempty, sanitize_and_clip-IsClean, sanitize_and_clip_plain,
}
use ironsoft.Service.Health.{clip}
use ironsoft.Prelude.{
  arith, All, ℕ, ◌≡◌, ◌≢◌, refl, true, false, Option, none, some, [], ◌∷◌, if◌then◌else◌,
}
use ironsoft.Text.{Text, is_empty, lit}
use ironsoft.Rest.Enrich.{LoggerResult}
use ironsoft.Service.Steps.{
  Order, Steps, Steps-pure, Steps-gets, Steps-ask, Steps-bind, Steps-modify, Steps-if,
}
use ironsoft.Service.Exec.{Context, Action, ◌>>=◌, ◌>>◌, mono_ms}
use ironsoft.Service.Publish.{publish_status, send_ack}
use ironsoft.Service.RestResult.{request_logger_state}
use ironsoft.Service.Quiet.{
  Quiet, Apart, quiet, set_state-Quiet, mono_ms-Quiet, set_error-Quiet, update_link_health-Quiet,
  or_throw-Quiet, publish_status-Quiet, update_presence_state-Quiet, mark_rest_result-Quiet,
  request_logger_state-Quiet,
}
use ironsoft.Service.Commands.Start.{
  refuse_offline, refuse_config, if_valid, guarded, generate_session_name, session_name_for,
  call_start, start_failed, verify_start, start_recording, handle_logger_start,
}
use ironsoft.Service.Commands.Stop.{
  already_stopped, call_stop, stop_refused, stop_failed, verify_stop, stop_recording,
  handle_logger_stop, clear_session,
}
use ironsoft.Service.Commands.{status_reply, handle_logger_status}
use ironsoft.Service.Answers.{Replies, Replies-bind, Replies-if, publish_ack-Replies}

clip-IsClean : (text : Text) → All IsClean (clip text)
clip-IsClean text = (sanitize_and_clip-IsClean text 300).0

clip_blank : clip [] ≡ []
clip_blank = sanitize_and_clip_plain [] 300 tt (omega arith)

named_error : (err : Text) → (if is_empty err then lit "error" else err) ≢ []
unfolding is_empty lit
named_error [] = λ e. cc
named_error (_ ∷ _) = λ e. cc

module _ {V : Type 0} (c : Context V) where
  open c use {setup, json, env}

  abbrev pub k : Order (Quiet setup)
  k = quiet c

  abbrev pub Answers : Text → Text → Action → Type 0
  Answers type id m = Replies setup.topics.ack type id m

  module _ (up : (n : ℕ) → env.publishes n ≡ true) (apart : Apart setup) where
    -- `send_ack` where a success names no error.
    pub accept-Answers :
        (id type message : Text) (code : ℕ)
        → Answers type id (send_ack c id type true message [] code)
    unfolding send_ack
    accept-Answers id type message code =
        publish_ack-Replies c up apart type id true code _ _
          (record { fits = clip_blank; message_clean = clip-IsClean _; err_clean = clip-IsClean _ })

    refuse-Answers :
        (id type message err : Text) (code : ℕ)
        → Answers type id (send_ack c id type false message err code)
    unfolding send_ack
    refuse-Answers id type message err code =
        publish_ack-Replies c up apart type id false code _ _ (record {
          fits = sanitize_and_clip_nonempty _ (named_error err);
          message_clean = clip-IsClean _;
          err_clean = clip-IsClean _;
        })

    -- The status is published before the answer.
    status_first :
        {type id : Text} {m : Action} → Answers type id m → Answers type id (publish_status c >> m)
    status_first a = Replies-bind c (publish_status-Quiet c apart) λ _. a

    refuse_offline-Answers : (id type : Text) → Answers type id (refuse_offline c id type)
    unfolding refuse_offline
    refuse_offline-Answers id type =
        Replies-bind c (set_error-Quiet c _) λ _. status_first (refuse-Answers _ _ _ _ _)

    refuse_config-Answers : (id type t : Text) → Answers type id (refuse_config c id type t)
    unfolding refuse_config
    refuse_config-Answers id type t = Replies-bind c (set_error-Quiet c _) λ _.
        Replies-bind c (mono_ms-Quiet c) λ now_ms.
          Replies-bind c (update_link_health-Quiet c _) λ _.
            Replies-bind c (update_presence_state-Quiet c apart _ _)
              λ _. status_first (refuse-Answers _ _ _ _ _)

    if_valid-Answers :
        (r : Option Text) (id type : Text) {body : Action}
        → Answers type id body
        → Answers type id (if_valid c r id type body)
    unfolding if_valid
    if_valid-Answers none id type b = b
    if_valid-Answers (some t) id type b = refuse_config-Answers id type t

    guarded-Answers :
        (id type : Text) {body : Action}
        → Answers type id body
        → Answers type id (guarded c id type body)
    unfolding guarded
    guarded-Answers id type b =
        Replies-bind c (Steps-gets k _) λ connected.
          Replies-if c _ (refuse_offline-Answers id type) (if_valid-Answers _ id type b)

    -- Asking the device, and answering after it.
    look_first :
        {type id : Text} (reason : Text) {f : LoggerResult → Action}
        → ((r : LoggerResult) → Answers type id (f r))
        → Answers type id do now_ms ← mono_ms c; r ← request_logger_state c reason now_ms; f r
    look_first reason kf =
        Replies-bind c (mono_ms-Quiet c)
          λ now_ms. Replies-bind c (request_logger_state-Quiet c apart _ _) kf

    session_name_for-Quiet : (root : V) → Steps (Quiet setup) (session_name_for c root)
    unfolding session_name_for generate_session_name
    session_name_for-Quiet root =
        Steps-if _ (Steps-bind k (Steps-ask k _) λ stamp. Steps-pure k _) (Steps-pure k _)

    start_failed-Answers :
        (id type : Text) (r : LoggerResult) (code : ℕ)
        → Answers type id (start_failed c id type r code)
    unfolding start_failed
    start_failed-Answers id type r code =
        Replies-if c _ (look_first _ λ r. status_first (accept-Answers _ _ _ _)) (
          Replies-bind c (set_state-Quiet c _)
            λ _. Replies-bind c (set_error-Quiet c _) λ _. status_first (refuse-Answers _ _ _ _ _))

    verify_start-Answers :
        (id type : Text) (code : ℕ) → Answers type id (verify_start c id type code)
    unfolding verify_start
    verify_start-Answers id type code = look_first _ λ first.
        look_first _
          λ later. status_first (Replies-if c _ (accept-Answers _ _ _ _) (refuse-Answers _ _ _ _ _))

    pub handle_logger_start-Answers :
        (id type : Text) (root : V) → Answers type id (handle_logger_start c id type root)
    unfolding handle_logger_start start_recording call_start
    handle_logger_start-Answers id type root = guarded-Answers id type (
        look_first _ λ pre. status_first (
          Replies-if c _ (accept-Answers _ _ _ _) (
            Replies-bind c (session_name_for-Quiet root) λ name.
              Replies-bind c (set_state-Quiet c _) λ _. status_first (
                Replies-bind c (Steps-bind k (Steps-ask k _) λ curl. or_throw-Quiet c _) λ r.
                  Replies-bind c (mono_ms-Quiet c) λ now_ms.
                    Replies-bind c (mark_rest_result-Quiet c apart _ _ _) λ _.
                      Replies-if c _ (start_failed-Answers id type r _)
                        (verify_start-Answers id type _)))))

    clear_session-Quiet : Steps (Quiet setup) clear_session
    clear_session-Quiet = Steps-modify _ λ s h. (h, refl)

    already_stopped-Answers :
        (id type : Text) (code : ℕ) → Answers type id (already_stopped c id type code)
    unfolding already_stopped
    already_stopped-Answers id type code =
        Replies-bind c clear_session-Quiet
          λ _. Replies-bind c (set_state-Quiet c _) λ _. status_first (accept-Answers _ _ _ _)

    stop_refused-Answers :
        (id type : Text) (r : LoggerResult) (code : ℕ)
        → Answers type id (stop_refused c id type r code)
    unfolding stop_refused
    stop_refused-Answers id type r code =
        Replies-bind c (set_state-Quiet c _)
          λ _. Replies-bind c (set_error-Quiet c _) λ _. status_first (refuse-Answers _ _ _ _ _)

    stop_failed-Answers :
        (id type : Text) (r : LoggerResult) (code : ℕ)
        → Answers type id (stop_failed c id type r code)
    unfolding stop_failed
    stop_failed-Answers id type r code =
        Replies-if c _
          (look_first _ λ retry. status_first (
            Replies-if c _ (already_stopped-Answers id type code)
              (stop_refused-Answers id type r code)))
          (stop_refused-Answers id type r code)

    verify_stop-Answers : (id type : Text) (code : ℕ) → Answers type id (verify_stop c id type code)
    unfolding verify_stop
    verify_stop-Answers id type code = look_first _ λ first. look_first _ λ later.
        Replies-bind c (Steps-if _ clear_session-Quiet (Steps-pure k _))
          λ _. status_first (Replies-if c _ (accept-Answers _ _ _ _) (refuse-Answers _ _ _ _ _))

    pub handle_logger_stop-Answers :
        (id type : Text) → Answers type id (handle_logger_stop c id type)
    unfolding handle_logger_stop stop_recording call_stop
    handle_logger_stop-Answers id type = guarded-Answers id type (
        look_first _ λ pre. status_first (
          Replies-if c _ (already_stopped-Answers id type _) (
            Replies-bind c (set_state-Quiet c _) λ _. status_first (
              Replies-bind c (Steps-bind k (Steps-ask k _) λ curl. or_throw-Quiet c _) λ r.
                Replies-bind c (mono_ms-Quiet c) λ now_ms.
                  Replies-bind c (mark_rest_result-Quiet c apart _ _ _) λ _.
                    Replies-if c _ (stop_failed-Answers id type r _)
                      (verify_stop-Answers id type _)))))

    pub handle_logger_status-Answers :
        (id type : Text) → Answers type id (handle_logger_status c id type)
    unfolding handle_logger_status status_reply
    handle_logger_status-Answers id type = guarded-Answers id type (
        look_first _ λ r. status_first (
          Replies-bind c (Steps-gets k _)
            λ active. Replies-if c _ (accept-Answers _ _ _ _) (refuse-Answers _ _ _ _ _)))
