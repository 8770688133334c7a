-- ===== src/Service/Answers.antt =====
-- What is sent on the topic of the acknowledgements while a command is handled, where the MQTT client
-- accepts every message.
pub mod Logger
pub mod Commands
pub mod Queue
use ironsoft.Prelude.{
  All, ◌≢◌, ℕ, ◌+◌, ◌≡◌, refl, sym, ◌∙◌, ap, subst, Bool, true, false, not, ◌&&◌, ◌||◌, Option,
  none, some, List, [], ◌∷◌, if◌then◌else◌, arith, Bool-cases, inl, inr,
}
use ironsoft.Text.{Text, text_eq, is_empty, text_eq_refl, text_eq_sound, lit}
use ironsoft.Text.Sanitize.{IsClean}
use ironsoft.Topics.{make_topics}
use ironsoft.Topics.Distinct.{channels-AllDistinct}
use ironsoft.Json.{Json, Fields, Parsed, parsed, parse_error}
use ironsoft.Types.{
  CommandType, ping, logger_start, logger_stop, logger_status, unknown, try_parse_command_type,
}
use ironsoft.Rest.Enrich.{LoggerResult}
use ironsoft.Service.State.{Service, Setup, Message, CommandMessage}
use ironsoft.Service.Steps.{
  Order, Steps, Steps-pure, Steps-gets, Steps-ask, Steps-bind, Steps-modify, Steps-if,
}
use ironsoft.Service.Yields.{Returned}
use ironsoft.Service.Exec.{
  Context, Exec, Action, Outcome, done, thrown, continue, gets, modify, skip, ask, pure, ◌>>=◌,
  ◌>>◌, publish, mono_ms, steady_now, unix_ts, catch_mqtt, expect, throw,
}
use ironsoft.Service.Publish.{ack_fields, publish_topic, publish_ack, send_ack}
use ironsoft.Service.RestResult.{request_logger_state}
use ironsoft.Service.Quiet.{
  sent_on, Quiet, Apart, quiet, set_state-Quiet, unix_ts-Quiet, mono_ms-Quiet, set_error-Quiet,
  update_link_health-Quiet, or_throw-Quiet, publish_status-Quiet, update_presence_state-Quiet,
  mark_rest_result-Quiet, request_logger_state-Quiet,
}
use ironsoft.Service.Commands.Start.{
  refuse_offline, refuse_config, if_valid, guarded, validate_rest_endpoint, generate_session_name,
  session_name_for, call_start, start_failed, verify_start, start_recording, handle_logger_start,
}
use ironsoft.Service.Commands.Stop.{
  already_stopped, call_stop, stop_refused, stop_failed, verify_stop, stop_recording,
  handle_logger_stop, clear_session,
}
use ironsoft.Service.Commands.{
  status_reply, handle_logger_status, handle_ping, dispatch, bad_request, text_member,
  bad_timestamp, handle_command_object, handle_parsed, handle_command_message,
}

-- An acknowledgement names an error exactly where it refuses.
abbrev pub ErrorFits : Bool → Text → Type 0
ErrorFits true err = err ≡ []
ErrorFits false err = err ≢ []

-- The texts of an acknowledgement: the error fits, and every byte is clean.
pub record Proper (ok : Bool) (message err : Text) : Type 0 where
  pub fits : ErrorFits ok err
  pub message_clean : All IsClean message
  pub err_clean : All IsClean err

-- One acknowledgement was added, with the given type and id.
pub record Answered (topic type id : Text) (before after : List Message) : Type 0 where
  pub ok : Bool
  pub ts : ℕ
  pub code : ℕ
  pub message : Text
  pub err : Text
  pub proper : Proper ok message err
  pub grown : sent_on topic after ≡ ack_fields type id ok ts code message err ∷ sent_on topic before

-- Where the action returned, it answered, over a connection that is still there; where it threw, it
-- did not answer.
abbrev pub Answering : Text → Text → Text → Service → Outcome (Unit {0}) × Service → Type 0
Answering topic type id s (done a, t) =
    Answered topic type id s.sent t.sent × (t.link.connected ≡ true)
Answering topic type id s (thrown f, t) = sent_on topic t.sent ≡ sent_on topic s.sent

pub record Replies (topic type id : Text) (m : Action) : Type 0 where
  pub at : (s : Service) → s.link.connected ≡ true → Answering topic type id s (m s)

-- The action returned, and added nothing.
abbrev Still : Text → Service → Outcome (Unit {0}) × Service → Type 0
Still topic s (r, t) =
    Returned r
    × (sent_on topic t.sent ≡ sent_on topic s.sent)
    × (t.link.connected ≡ s.link.connected)

Answered-from :
    (topic type id : Text) (a b d : List Message)
    → sent_on topic b ≡ sent_on topic a
    → Answered topic type id b d
    → Answered topic type id a d
Answered-from topic type id a b d e h = record {
  ok = h.ok;
  proper = h.proper;
  ts = h.ts;
  code = h.code;
  message = h.message;
  err = h.err;
  grown = h.grown ∙ ap (λ x. ack_fields type id h.ok h.ts h.code h.message h.err ∷ x) e;
}

Answered-to :
    (topic type id : Text) (a b d : List Message)
    → Answered topic type id a b
    → sent_on topic d ≡ sent_on topic b
    → Answered topic type id a d
Answered-to topic type id a b d h e = record {
  ok = h.ok;
  proper = h.proper;
  ts = h.ts;
  code = h.code;
  message = h.message;
  err = h.err;
  grown = e ∙ h.grown;
}

Answering-from :
    (topic type id : Text) (s t : Service) (r : Outcome (Unit {0}) × Service)
    → sent_on topic t.sent ≡ sent_on topic s.sent
    → Answering topic type id t r
    → Answering topic type id s r
Answering-from topic type id s t (done a, u) e h =
    (Answered-from topic type id s.sent t.sent u.sent e h.0, h.1)
Answering-from topic type id s t (thrown f, u) e h = h ∙ e

module _ {V : Type 0} (c : Context V) where
  open c use {setup, json, env}

  abbrev k : Order (Quiet setup)
  k = quiet c

  Replies-continue :
      {A : Type 0} (type id : Text) (r : Outcome A) (f : A → Action) (s t : Service)
      → (t.link.connected ≡ true)
        × (sent_on setup.topics.ack t.sent ≡ sent_on setup.topics.ack s.sent)
      → ((a : A) → Replies setup.topics.ack type id (f a))
      → Answering setup.topics.ack type id s (continue r f t)
  Replies-continue type id (done a) f s t q kf =
      Answering-from _ type id s t (f a t) q.1 ((kf a).at t q.0)
  Replies-continue type id (thrown e) f s t q kf = q.1

  pub Replies-bind :
      {A : Type 0} {type id : Text} {m : Exec A} {f : A → Action}
      → Steps (Quiet setup) m
      → ((a : A) → Replies setup.topics.ack type id (f a))
      → Replies setup.topics.ack type id (m >>= f)
  unfolding ◌>>=◌
  Replies-bind {type} {id} {m} {f} q kf = record {
    at = λ s h. Replies-continue type id (m s).0 f s (m s).1 (q.at s h) kf;
  }

  pub Replies-if :
      {type id : Text} (b : Bool) {m n : Action}
      → Replies setup.topics.ack type id m
      → Replies setup.topics.ack type id n
      → Replies setup.topics.ack type id (if b then m else n)
  Replies-if true km kn = km
  Replies-if false km kn = kn

  module _ (up : (n : ℕ) → env.publishes n ≡ true) (apart : Apart setup) where
    publish_topic-sent :
        (fields : Fields) (topic : Text) (s : Service)
        → s.link.connected ≡ true
        → is_empty topic ≡ false
        → publish_topic c fields topic s ≡ (
          done tt,
          record s {
            tick = s.tick + 1 + 1;
            sent = record { topic = topic; fields = fields; qos = 1; retained = false } ∷ s.sent;
          },
        )
    unfolding publish_topic publish expect ◌>>=◌ gets ask modify catch_mqtt pure throw
    publish_topic-sent fields topic s h e = elim (Bool-cases (env.waits (s.tick + 1))) [
      | inl waited ↦ simp (h, e, up s.tick, waited)
      | inr late ↦ simp (h, e, up s.tick, late)
    ]

    abbrev sent_once : Fields → Text → Service → Service
    sent_once fields topic s = record s {
      tick = s.tick + 1 + 1;
      sent = record { topic = topic; fields = fields; qos = 1; retained = false } ∷ s.sent;
    }

    sent_on-other :
        (fields : Fields) (topic : Text) (s : Service)
        → text_eq topic setup.topics.ack ≡ false
        → sent_on setup.topics.ack (sent_once fields topic s).sent ≡ sent_on setup.topics.ack s.sent
    unfolding sent_on
    sent_on-other fields topic s e = ground arith

    sent_on-same :
        (fields : Fields) (topic : Text) (s : Service)
        → sent_on topic (sent_once fields topic s).sent ≡ fields ∷ sent_on topic s.sent
    unfolding sent_on
    sent_on-same fields topic s = ground (arith, text_eq_refl topic)

    -- The acknowledgement on the older topic is none on this one.
    legacy-Still :
        (fields : Fields) (b : Bool) (s : Service)
        → s.link.connected ≡ true
        → (b ≡ true
            → (is_empty setup.topics.ack_legacy ≡ false)
              × (text_eq setup.topics.ack_legacy setup.topics.ack ≡ false))
        → Still setup.topics.ack s
            ((if b then publish_topic c fields setup.topics.ack_legacy else skip) s)
    unfolding pure
    legacy-Still fields false s h e = (tt, refl, refl)
    legacy-Still fields true s h e =
        subst (Still setup.topics.ack s)
          (sym (publish_topic-sent fields setup.topics.ack_legacy s h (e refl).0))
          (tt, sent_on-other fields setup.topics.ack_legacy s (e refl).1, refl)

    Answered-then :
        (type id : Text) (s t : Service) (r : Outcome (Unit {0}) × Service)
        → t.link.connected ≡ true
        → Answered setup.topics.ack type id s.sent t.sent
        → Still setup.topics.ack t r
        → Answering setup.topics.ack type id s r
    Answered-then type id s t (done a, u) up h q =
        (Answered-to _ type id s.sent t.sent u.sent h q.1, q.2 ∙ up)
    Answered-then type id s t (thrown f, u) up h q = absurd q.0

    publish_ack-Answering :
        (type id : Text) (ok : Bool) (ts code : ℕ) (message err : Text) (s : Service)
        → Proper ok message err
        → s.link.connected ≡ true
        → Answering setup.topics.ack type id s (
            (publish_topic c (ack_fields type id ok ts code message err) setup.topics.ack
                >> (if not (is_empty setup.topics.ack_legacy)
                      && not (text_eq setup.topics.ack_legacy setup.topics.ack)
                    then publish_topic c
                        (ack_fields type id ok ts code message err)
                        setup.topics.ack_legacy
                    else skip))
              s)
    unfolding ◌>>=◌
    publish_ack-Answering type id ok ts code message err s proper h =
        let fields = ack_fields type id ok ts code message err in
        let once = sent_once fields setup.topics.ack s in
        let answered : Answered setup.topics.ack type id s.sent once.sent = record {
          ok = ok;
          proper = proper;
          ts = ts;
          code = code;
          message = message;
          err = err;
          grown = sent_on-same fields setup.topics.ack s;
        } in
        subst
          (λ x. Answering setup.topics.ack type id s (
            continue x.0
              (λ _.
                if not (is_empty setup.topics.ack_legacy)
                  && not (text_eq setup.topics.ack_legacy setup.topics.ack)
                then publish_topic c fields setup.topics.ack_legacy
                else skip)
              x.1))
          (sym (publish_topic-sent fields setup.topics.ack s h apart.ack))
          (Answered-then type id s once _ h answered
            (legacy-Still fields _ once h λ both. (ground arith, ground arith)))

    pub publish_ack-Replies :
        (type id : Text) (ok : Bool) (code : ℕ) (message err : Text)
        → Proper ok message err
        → Replies setup.topics.ack type id (publish_ack c type id ok code message err)
    unfolding publish_ack
    publish_ack-Replies type id ok code message err proper =
        Replies-bind (unix_ts-Quiet c) λ ts. record {
          at = λ s h. publish_ack-Answering type id ok ts code message err s proper h;
        }
