-- ===== src/Wire/Pong.antt =====
-- A ping from the desktop client (gui/src/mqtt_paho_client.cpp) to the backend (backend/src), and its
-- acknowledgement back.
use ironsoft.Prelude.{◌≡◌, refl, ◌∙◌, sym, ap, subst, [], ◌++◌, ◌-◌, true, false, none, some, ℕ}
use ironsoft.Prelude.Int.{pos}
use ironsoft.Text.{Text, lit, text_eq, text_eq_refl, is_empty}
use ironsoft.Json.{parsed}
use ironsoft.Config.{ok, err}
use ironsoft.Gui.Json.{QJson}
use ironsoft.Gui.Client.State.{
  Client, ping_updated, ack_received, emit, find_ping, erase_ping, topic_prefix, t_ack,
}
use ironsoft.Gui.Client.Pings.{settle_ack, handle_ack_object, handle_ack_message}
use ironsoft.Gui.Client.Messages.{Incoming, handle_message}
use ironsoft.Backend.Json.{CheckedJson}
use ironsoft.Backend.State.{Topics, backend_topics, Backend}
use ironsoft.Backend.Commands.{pong, ack_fields_of, handle_cmd_ping_only, best_effort_id}
use ironsoft.Backend.Session.{send, answer_command}
use ironsoft.Wire.Reads.{Reads, IsCall, parse_object-parsed}
use ironsoft.Wire.Names.{text_eq-append_left}

abbrev pub IsPing : {W : Type 0} → CheckedJson W → Text → Text → Type 0
IsPing json payload id = IsCall json payload (lit "ping") id

pub best_effort_id-named :
    {W : Type 0} (json : CheckedJson W) (payload type id : Text)
    → IsCall json payload type id
    → best_effort_id json payload ≡ id
unfolding best_effort_id
best_effort_id-named json payload type id call = rw (call.parses, call.has_id, call.id_is) refl

module _ {W : Type 0} (json : CheckedJson W) (payload id : Text)
    (ping : IsPing json payload id) where
  handle_cmd_ping_only-pong : handle_cmd_ping_only json payload ≡ some pong
  unfolding handle_cmd_ping_only
  handle_cmd_ping_only-pong =
      rw (ping.parses, ping.has_type, ping.type_is, text_eq_refl (lit "ping")) refl

  answer_command-pong :
      (topics : Topics) (b : Backend)
      → answer_command json topics payload true b
        ≡ some (send topics.ack (ack_fields_of id pong) 1 false b)
  unfolding answer_command
  answer_command-pong topics b =
      rw (handle_cmd_ping_only-pong, best_effort_id-named json payload (lit "ping") id ping) refl

suffixes_differ :
    (text_eq (lit "/ack") (lit "/presence") ≡ false)
    × (text_eq (lit "/ack") (lit "/status") ≡ false)
    × (text_eq (lit "/ack") (lit "/heartbeat") ≡ false)
unfolding lit text_eq
suffixes_differ = (refl, refl, refl)

module _ {V : Type 0} (json : QJson V) (c : Client) (m : Incoming) where
  open json use {from_json, is_object, value, string_of}

  module _ (at : m.topic ≡ t_ack c) where
    is_no_topic :
        (s : Text) → text_eq (lit "/ack") s ≡ false → text_eq m.topic (topic_prefix c ++ s) ≡ false
    is_no_topic s differs =
        subst (λ u. text_eq u (topic_prefix c ++ s) ≡ false) (sym at)
          (text_eq-append_left (topic_prefix c) (lit "/ack") s ∙ differs)

    pub handle_message-ack : handle_message json m c ≡ handle_ack_message json m.payload m.now_ms c
    unfolding handle_message
    handle_message-ack =
        let (presence, status, heartbeat) = suffixes_differ in
        let same = subst (λ u. text_eq u (t_ack c) ≡ true) (sym at) (text_eq_refl (t_ack c)) in
        rw
          (
            is_no_topic (lit "/presence") presence,
            is_no_topic (lit "/status") status,
            is_no_topic (lit "/heartbeat") heartbeat,
            same,
          )
          refl

  module _ (id : Text) (sent_ms : ℕ) (obj : V) (named : is_empty id ≡ false)
      (pending : find_ping id c.pending_pings ≡ some sent_ms)
      (reads : Reads json obj (ack_fields_of id pong))
      (untyped : string_of (value obj "type") ≡ none) where
    handle_ack_object-settles :
        handle_ack_object json obj m.now_ms c ≡ settle_ack [] id true (some sent_ms) m.now_ms c
    unfolding handle_ack_object ack_fields_of
    handle_ack_object-settles =
        let (_, has_id, (_, is_ok, _)) = reads in rw (has_id, is_ok, untyped, named, pending) refl

    handle_ack_message-settles :
        from_json m.payload ≡ parsed obj
        → is_object obj ≡ true
        → handle_ack_message json m.payload m.now_ms c
          ≡ settle_ack [] id true (some sent_ms) m.now_ms c
    unfolding handle_ack_message
    handle_ack_message-settles parses object =
        ap (λ r. elim r as (λ x. Client) [ err e ↦ c | ok v ↦ handle_ack_object json v m.now_ms c ])
          (parse_object-parsed json m.payload obj parses object)
        ∙ handle_ack_object-settles

-- The acknowledgement of a ping that waits: the client shows it, with the round-trip time.
abbrev pub ponged : Text → ℕ → ℕ → Client → Client
ponged id sent_ms now_ms c = emit (ack_received (lit "ping") id true) (
    emit (ping_updated id (pos (now_ms - sent_ms)) false)
      (record c { pending_pings = erase_ping id c.pending_pings }))

-- A ping that waits, and that the backend of the drone reads as a ping with its id: the backend
-- answers, on the topic of acknowledgements of the desktop client; and when the client reads this
-- answer, it shows the ping with the time since it was registered, and the ping waits no more.
pub ping-ponged :
    {W : Type 0} (checked : CheckedJson W) {V : Type 0} (json : QJson V) (payload id : Text)
    (b : Backend) (c : Client) (m : Incoming) (sent_ms : ℕ) (obj : V)
    → IsPing checked payload id
    → is_empty id ≡ false
    → find_ping id c.pending_pings ≡ some sent_ms
    → m.topic ≡ (backend_topics c.cfg.drone_id).ack
    → json.from_json m.payload ≡ parsed obj
    → json.is_object obj ≡ true
    → Reads json obj (ack_fields_of id pong)
    → json.string_of (json.value obj "type") ≡ none
    → (answer_command checked (backend_topics c.cfg.drone_id) payload true b
        ≡ some (send (backend_topics c.cfg.drone_id).ack (ack_fields_of id pong) 1 false b))
      × (handle_message json m c ≡ ponged id sent_ms m.now_ms c)
unfolding backend_topics topic_prefix settle_ack is_empty
ping-ponged checked json payload id b c m sent_ms obj ping named pending at parses object reads
      untyped =
    (
      answer_command-pong checked payload id ping _ b,
      handle_message-ack json c m at
          ∙ handle_ack_message-settles json c m id sent_ms obj named pending reads untyped parses
              object,
    )
