-- ===== src/Service/Publish.antt =====
-- What the service publishes: presence, status, heartbeats and acknowledgements
-- (services/ekinox/src/ekinox_service.cpp), with the payloads of ekinox_state.cpp.
use ironsoft.Prelude.{
  ℕ, ◌+◌, ◌-◌, Bool, true, false, ◌&&◌, ◌||◌, not, [], ◌∷◌, ◌++◌, ltb, if◌then◌else◌,
}
use ironsoft.Text.{Text, lit, is_empty, text_eq}
use ironsoft.Types.{state_to_string}
use ironsoft.Json.{Fields, str, bool, int}
use ironsoft.Service.State.{Service, Message, PresencePayload, StatusPayload}
use ironsoft.Service.Exec.{
  Context, Action, skip, gets, modify, ◌>>=◌, ◌>>◌, catch_mqtt, mono_ms, unix_ts, publish, expect,
}
use ironsoft.Service.Health.{clip}

unfoldable pub build_presence_json : PresencePayload → Fields
build_presence_json payload =
    ("state", str (if payload.online then lit "online" else lit "offline"))
    ∷ ("ts", int payload.timestamp)
    ∷ ("reason", str payload.reason)
    ∷ []

unfoldable pub build_status_json : StatusPayload → Fields
build_status_json payload =
    ("link_alive", bool payload.link_alive)
    ∷ ("api_ok", bool payload.api_ok)
    ∷ ("recording_active", bool payload.recording_active)
    ∷ ("recording", bool payload.recording_active)
    ∷ ("state", str (state_to_string payload.state))
    ∷ ("mode", str (state_to_string payload.state))
    ∷ ("last_error", str payload.last_error)
    ∷ ("last_error_ts", int payload.last_error_ts)
    ∷ ("session_name", str payload.session_name)
    ∷ ("sessionName", str payload.session_name)
    ∷ []

unfoldable pub build_heartbeat_json : ℕ → ℕ → Fields
build_heartbeat_json seq uptime_s = ("seq", int seq) ∷ ("uptime_s", int uptime_s) ∷ []

-- The members of an acknowledgement; the last three are left out where they are empty or 0.
unfoldable pub ack_fields : Text → Text → Bool → ℕ → ℕ → Text → Text → Fields
ack_fields type id ok ts http_code message err =
    ("type", str type)
    ∷ ("id", str id)
    ∷ ("ok", bool ok)
    ∷ ("ts", int ts)
    ∷ ((if is_empty message then [] else ("message", str message) ∷ [])
        ++ ((if is_empty err then [] else ("error", str err) ∷ [])
            ++ (if ltb 0 http_code then ("http_code", int http_code) ∷ [] else [])))

abbrev pub presence_min_publish_interval : ℕ
presence_min_publish_interval = 2000

-- The same state was published less than the minimal interval ago.
unfoldable pub rate_limited : Bool → ℕ → Service → Bool
rate_limited online now_ms s =
    (if online then s.link.presence_online else not s.link.presence_online)
    && (ltb 0 s.link.last_presence_emit_ts_ms
        && ltb (now_ms - s.link.last_presence_emit_ts_ms) presence_min_publish_interval)

-- `presence_` and `last_presence_ts_`, as both branches write them.
abbrev pub with_presence : Bool → Text → ℕ → Service → Service
with_presence online reason ts s = record s {
  presence = record { online = online; reason = reason; timestamp = ts };
  link = record (s.link) { last_presence_ts = ts };
}

module _ {V : Type 0} (c : Context V) where
  open c use {setup, env}

  abbrev pub presence_message : PresencePayload → Message
  presence_message payload = record {
    topic = setup.topics.presence;
    fields = build_presence_json payload;
    qos = 1;
    retained = true;
  }

  -- Offline: the state is kept for later, and nothing is sent.
  unfoldable pub defer_presence : Bool → Text → Action
  defer_presence online reason = do
    ts ← unix_ts c
    modify λ s.
        let t = with_presence online reason ts s in
        record t { link = record (t.link) { presence_online = online } }

  unfoldable pub emit_presence : Bool → Text → ℕ → Action
  emit_presence online reason now_ms = do
    ts ← unix_ts c
    modify (with_presence online reason ts)
    payload ← gets λ s. s.presence
    publish c (presence_message payload)
    modify λ s. record s {
      link = record (s.link) { presence_online = online; last_presence_emit_ts_ms = now_ms };
    }

  unfoldable pub publish_presence : Bool → Text → Action
  publish_presence online reason = do
    now_ms ← mono_ms c
    limited ← gets (rate_limited online now_ms)
    connected ← gets λ s. s.link.connected
    if not connected
        then defer_presence online (clip reason)
        else if limited
        then skip
        else emit_presence online (clip reason) now_ms

  abbrev pub status_message : StatusPayload → Message
  status_message payload = record {
    topic = setup.topics.status;
    fields = build_status_json payload;
    qos = 1;
    retained = true;
  }

  unfoldable pub publish_status : Action
  publish_status = do
    connected ← gets λ s. s.link.connected
    payload ← gets λ s. s.status
    if not connected then skip else publish c (status_message payload)

  abbrev pub heartbeat_message : ℕ → ℕ → Message
  heartbeat_message seq uptime_s = record {
    topic = setup.topics.heartbeat;
    fields = build_heartbeat_json seq uptime_s;
    qos = 0;
    retained = false;
  }

  abbrev send_heartbeat : ℕ → Action
  send_heartbeat uptime_s = do
    modify λ s. record s { link = record (s.link) { heartbeat_seq = s.link.heartbeat_seq + 1 } }
    seq ← gets λ s. s.link.heartbeat_seq
    publish c (heartbeat_message seq uptime_s)

  unfoldable pub publish_heartbeat : ℕ → Action
  publish_heartbeat uptime_s = do
    connected ← gets λ s. s.link.connected
    if not connected then skip else send_heartbeat uptime_s

  -- The lambda `publish_topic`: the message is handed over, and the token waited for. A failure of
  -- either is only logged; what was handed over is sent.
  unfoldable pub publish_topic : Fields → Text → Action
  publish_topic fields topic = do
    connected ← gets λ s. s.link.connected
    if is_empty topic || not connected
        then skip
        else catch_mqtt
            (do
              publish c (record { topic = topic; fields = fields; qos = 1; retained = false })
              expect env.waits)
            skip

  unfoldable pub publish_ack : Text → Text → Bool → ℕ → Text → Text → Action
  publish_ack type id ok http_code message err = do
    ts ← unix_ts c
    let fields = ack_fields type id ok ts http_code message err
    publish_topic fields setup.topics.ack
    if not (is_empty setup.topics.ack_legacy)
          && not (text_eq setup.topics.ack_legacy setup.topics.ack)
        then publish_topic fields setup.topics.ack_legacy
        else skip

  unfoldable pub send_ack : Text → Text → Bool → Text → Text → ℕ → Action
  send_ack id type ok message err http_code =
      let ack_message = if ok && is_empty message then lit "ok" else message in
      let ack_err = if not ok && is_empty err then lit "error" else err in
      publish_ack type id ok http_code (clip ack_message) (clip ack_err)
