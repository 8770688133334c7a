-- ===== src/Wire/Status.antt =====
-- A status from the service (services/ekinox/src/ekinox_service.cpp) to the window of the desktop client
-- (gui/src/mqtt_paho_client.cpp).
use ironsoft.Prelude.{◌≡◌, refl, ◌∙◌, sym, ap, subst, ◌++◌, true, false, ℕ}
use ironsoft.Text.{Text, lit, text_eq, text_eq_refl}
use ironsoft.Json.{parsed}
use ironsoft.Types.{state_to_string}
use ironsoft.Topics.{make_topics}
use ironsoft.Config.{Result, ok, err}
use ironsoft.Service.State.{StatusPayload}
use ironsoft.Service.Publish.{build_status_json}
use ironsoft.Gui.Json.{QJson}
use ironsoft.Gui.Status.{EkinoxStatus}
use ironsoft.Gui.Client.State.{
  Client, emit, ekinox_status_changed, topic_prefix, t_ekinox_prefix, t_ekinox_status,
  t_ekinox_presence,
}
use ironsoft.Gui.Client.Parse.{
  read_ekinox_status, session_field, ts_field, parse_ekinox_status_json,
}
use ironsoft.Gui.Client.Messages.{Incoming, handle_message, handle_ekinox_status}
use ironsoft.Wire.Reads.{parse_object-parsed, Reads}
use ironsoft.Wire.Names.{ekinox_topic-differs, text_eq-append_left}

suffixes_differ :
    (text_eq (lit "/ekinox" ++ lit "/status") (lit "/presence") ≡ false)
    × (text_eq (lit "/ekinox" ++ lit "/status") (lit "/status") ≡ false)
    × (text_eq (lit "/ekinox" ++ lit "/status") (lit "/heartbeat") ≡ false)
    × (text_eq (lit "/ekinox" ++ lit "/status") (lit "/ack") ≡ false)
unfolding lit text_eq
suffixes_differ = (refl, refl, refl, refl)

module _ {V : Type 0} (json : QJson V) where
  open json use {from_json, is_object}

  -- The status that the service sent, at the time of its receipt.
  abbrev pub shown_status : StatusPayload → V → ℕ → EkinoxStatus
  shown_status p obj now_s = record {
    state = state_to_string p.state;
    mode = state_to_string p.state;
    link_alive = p.link_alive;
    recording_active = p.recording_active;
    session_name = p.session_name;
    last_error = p.last_error;
    ts = ts_field json obj now_s;
  }

  read_ekinox_status-build_status_json :
      (p : StatusPayload) (obj : V) (now_s : ℕ)
      → Reads json obj (build_status_json p)
      → read_ekinox_status json obj now_s ≡ shown_status p obj now_s
  unfolding read_ekinox_status session_field build_status_json
  read_ekinox_status-build_status_json p obj now_s reads =
      let (
        _,
        link,
        (
          _,
          api,
          (
            has_recording,
            recording,
            (_, again, (_, state, (_, mode, (_, error, (_, at, (has_session, session, _)))))),
          ),
        ),
      ) =
        reads in
      rw (link, has_recording, recording, state, mode, error, has_session, session) refl

  handle_ekinox_status-shown :
      (c : Client) (m : Incoming) (p : StatusPayload) (obj : V)
      → from_json m.payload ≡ parsed obj
      → is_object obj ≡ true
      → Reads json obj (build_status_json p)
      → handle_ekinox_status json m.payload m.now_s c
        ≡ emit (ekinox_status_changed (shown_status p obj m.now_s)) c
  unfolding handle_ekinox_status parse_ekinox_status_json
  handle_ekinox_status-shown c m p obj parses object reads =
      ap
        (λ r.
          elim (elim r as (λ x. Result EkinoxStatus) [
            | err e ↦ err e
            | ok v ↦ ok (read_ekinox_status json v m.now_s)
          ])
            as (λ x. Client) [ err e ↦ c | ok st ↦ emit (ekinox_status_changed st) c ])
        (parse_object-parsed json m.payload obj parses object)
      ∙ ap (λ st. emit (ekinox_status_changed st) c)
          (read_ekinox_status-build_status_json p obj m.now_s reads)

  -- The other topics that are tested first.
  module _ (c : Client) (m : Incoming) (at : m.topic ≡ (make_topics c.cfg.drone_id).status) where
    is_status : m.topic ≡ t_ekinox_status c
    unfolding make_topics topic_prefix t_ekinox_prefix
    is_status = at

    is_no_topic_below :
        (t : Text)
        → text_eq (lit "/ekinox" ++ lit "/status") t ≡ false
        → text_eq m.topic (topic_prefix c ++ t) ≡ false
    is_no_topic_below t differs =
        subst (λ u. text_eq u (topic_prefix c ++ t) ≡ false) (sym is_status)
          (ekinox_topic-differs c (lit "/status") t differs)

    is_no_presence : text_eq m.topic (t_ekinox_presence c) ≡ false
    unfolding text_eq lit
    is_no_presence =
        subst (λ u. text_eq u (t_ekinox_presence c) ≡ false) (sym is_status)
          (text_eq-append_left (t_ekinox_prefix c) (lit "/status") (lit "/presence"))

    handle_message-status : handle_message json m c ≡ handle_ekinox_status json m.payload m.now_s c
    unfolding handle_message
    handle_message-status =
        let (presence, status, heartbeat, ack) = suffixes_differ in
        let same =
          subst (λ u. text_eq u (t_ekinox_status c) ≡ true) (sym is_status)
            (text_eq_refl (t_ekinox_status c)) in
        rw
          (
            is_no_topic_below (lit "/presence") presence,
            is_no_topic_below (lit "/status") status,
            is_no_topic_below (lit "/heartbeat") heartbeat,
            is_no_topic_below (lit "/ack") ack,
            is_no_presence,
            same,
          )
          refl

    -- A message on the topic on which the service publishes its status, with a payload that reads as
    -- such a status: the desktop client shows the window just this status, with the time at which it
    -- was shown where the payload has none.
    pub status-shown :
        (p : StatusPayload) (obj : V)
        → from_json m.payload ≡ parsed obj
        → is_object obj ≡ true
        → Reads json obj (build_status_json p)
        → handle_message json m c ≡ emit (ekinox_status_changed (shown_status p obj m.now_s)) c
    status-shown p obj parses object reads =
        handle_message-status ∙ handle_ekinox_status-shown c m p obj parses object reads
