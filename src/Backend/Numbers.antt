-- ===== src/Backend/Numbers.antt =====
-- The numbers of the heartbeats (backend/src/mqtt_client.cpp).
use mathlib.Core.List.{append_cancel_left}
use ironsoft.Prelude.{
  ◌≡◌, refl, subst, List, [], ◌∷◌, ◌++◌, true, false, Bool, if◌then◌else◌, Option, none, some, ℕ,
  ◌+◌, ◌%◌, ◌^◌, ◌∙◌, arith, ◌/◌, not, ◌&&◌,
}
use ironsoft.Text.{Text, lit, text_eq, text_eq_refl, tests_apart}
use ironsoft.Json.{Fields, int}
use ironsoft.Backend.Session.{int32}
use ironsoft.Backend.Json.{CheckedJson}
use ironsoft.Backend.State.{Topics, Backend, Sent, backend_topics, start_backend}
use ironsoft.Backend.Commands.{CmdHandlerResult}
use ironsoft.Backend.Session.{
  Attempt, Occurrence, message, beats, stop_called, request_stop, publish_presence_online,
  publish_status_retained, heartbeat_round, answer_command, on_message, after_message,
  consume_messages, session, run_connect_loop, send, acknowledge,
}

-- The payloads sent on a topic, newest first.
unfoldable pub payloads_on : Text → List Sent → List Fields
payloads_on topic [] = []
payloads_on topic (m ∷ rest) =
    if text_eq m.topic topic then m.fields ∷ payloads_on topic rest else payloads_on topic rest

-- Heartbeats, newest first, whose numbers come down to 0 one by one, each modulo 2 ^ 32 and read as an
-- int.
pub data Counted : ℕ → List Fields → Type 0 where
  start : Counted 0 []
  next :
      (n uptime_s : ℕ) {earlier : List Fields}
      → Counted n earlier
      → Counted (n + 1) ((("seq", int32 (n % 2 ^ 32)) ∷ ("uptime_s", int uptime_s) ∷ []) ∷ earlier)

-- The other topics on which the backend reports.
record Apart (topics : Topics) : Type 0 where
  presence : text_eq topics.presence topics.heartbeat ≡ false
  status : text_eq topics.status topics.heartbeat ≡ false
  ack : text_eq topics.ack topics.heartbeat ≡ false

suffix_apart :
    (prefix a b : Text) → text_eq a b ≡ false → text_eq (prefix ++ a) (prefix ++ b) ≡ false
suffix_apart prefix a b h = tests_apart _ _ λ e.
    let same : text_eq a b ≡ true =
      subst (λ t. text_eq a t ≡ true) (append_cancel_left prefix a b e) (text_eq_refl a) in
    cc

backend_topics-Apart : (drone_id : Text) → Apart (backend_topics drone_id)
unfolding backend_topics text_eq lit
backend_topics-Apart drone_id = record {
  presence =
      suffix_apart (lit "ironsoft/uav/" ++ drone_id) (lit "/presence") (lit "/heartbeat") refl;
  status = suffix_apart (lit "ironsoft/uav/" ++ drone_id) (lit "/status") (lit "/heartbeat") refl;
  ack = suffix_apart (lit "ironsoft/uav/" ++ drone_id) (lit "/ack") (lit "/heartbeat") refl;
}

wrapped : (n : ℕ) → (n % 2 ^ 32 + 1) % 2 ^ 32 ≡ (n + 1) % 2 ^ 32
wrapped n = omega arith

module _ {V : Type 0} (json : CheckedJson V) (topics : Topics) (apart : Apart topics) where
  -- The backend's heartbeats have the numbers below a count, which its counter is modulo 2 ^ 32.
  record Numbered (b : Backend) : Type 0 where
    count : ℕ
    counter : b.heartbeat_seq ≡ count % 2 ^ 32
    counted : Counted count (payloads_on topics.heartbeat b.sent)

  send-other :
      (topic : Text) (fields : Fields) (qos : ℕ) (retained : Bool) (b : Backend)
      → text_eq topic topics.heartbeat ≡ false
      → Numbered b
      → Numbered (send topic fields qos retained b)
  unfolding send payloads_on
  send-other topic fields qos retained b e h = record {
    count = h.count;
    counter = h.counter;
    counted = rw e h.counted;
  }

  if-Numbered :
      (test : Bool) (a b : Backend) → Numbered a → Numbered b → Numbered (if test then a else b)
  if-Numbered true a b ha hb = ha
  if-Numbered false a b ha hb = hb

  heartbeat_round-Numbered :
      (steady_ms : ℕ) (b : Backend) → Numbered b → Numbered (heartbeat_round topics steady_ms b)
  unfolding heartbeat_round send payloads_on
  heartbeat_round-Numbered steady_ms b h =
      let beaten : Numbered (
          send topics.heartbeat
            (("seq", int32 b.heartbeat_seq) ∷ ("uptime_s", int (steady_ms / 1000)) ∷ []) 0 false
            (record b { heartbeat_seq = (b.heartbeat_seq + 1) % 2 ^ 32 })) =
        record {
          count = h.count + 1;
          counter = rw h.counter (wrapped h.count);
          counted =
              rw (text_eq_refl topics.heartbeat, h.counter)
                (next h.count (steady_ms / 1000) h.counted);
        } in
      if-Numbered (not b.stop_requested && b.connected) _ b beaten h

  kept :
      (b a : Backend)
      → a.heartbeat_seq ≡ b.heartbeat_seq
      → a.sent ≡ b.sent
      → Numbered b
      → Numbered a
  kept b a seq sent h = record {
    count = h.count;
    counter = seq ∙ h.counter;
    counted = rw sent h.counted;
  }

  request_stop-Numbered : (b : Backend) → Numbered b → Numbered (request_stop b)
  unfolding request_stop
  request_stop-Numbered b h = kept b (request_stop b) refl refl h

  -- What follows a command, where it was answered and where it threw.
  abbrev AnswerNumbered : Option Backend → Type 0
  AnswerNumbered none = Unit
  AnswerNumbered (some b) = Numbered b

  acknowledge-Numbered :
      (payload : Text) (accepted : Bool) (b : Backend) (res : Option CmdHandlerResult)
      → Numbered b
      → AnswerNumbered (acknowledge json topics payload accepted b res)
  acknowledge-Numbered payload accepted b none h = tt
  acknowledge-Numbered payload true b (some res) h = send-other _ _ _ _ b apart.ack h
  acknowledge-Numbered payload false b (some res) h = tt

  on_message-Numbered :
      (topic payload : Text) (accepted : Bool) (b : Backend)
      → Numbered b
      → (test : Bool)
      → AnswerNumbered (if test then answer_command json topics payload accepted b else some b)
  unfolding answer_command
  on_message-Numbered topic payload accepted b h true = acknowledge-Numbered payload accepted b _ h
  on_message-Numbered topic payload accepted b h false = h

  after_message-Numbered :
      (go_on : Backend → Backend) (b : Backend) (answered : Option Backend)
      → ((c : Backend) → Numbered c → Numbered (go_on c))
      → Numbered b
      → AnswerNumbered answered
      → Numbered (after_message json topics go_on b answered)
  after_message-Numbered go_on b none goes h answered = h
  after_message-Numbered go_on b (some c) goes h answered =
      if-Numbered c.stop_requested c (go_on c) answered (goes c answered)

  consume_messages-Numbered :
      (occurrences : List Occurrence) (b : Backend)
      → Numbered b
      → Numbered (consume_messages json topics occurrences b)
  unfolding consume_messages
  consume_messages-Numbered [] b h = h
  consume_messages-Numbered (message topic payload accepted ∷ rest) b h =
      after_message-Numbered (consume_messages json topics rest) b
        (on_message json topics topic payload accepted b) (consume_messages-Numbered rest) h
        (on_message-Numbered topic payload accepted b h (text_eq topic topics.cmd))
  consume_messages-Numbered (beats steady_ms ∷ rest) b h =
      consume_messages-Numbered rest (heartbeat_round topics steady_ms b)
        (heartbeat_round-Numbered steady_ms b h)
  consume_messages-Numbered (stop_called ∷ rest) b h =
      consume_messages-Numbered rest (request_stop b) (request_stop-Numbered b h)

  session-Numbered : (a : Attempt) (b : Backend) → Numbered b → Numbered (session json topics a b)
  unfolding session publish_presence_online publish_status_retained
  session-Numbered a b h =
      let up = record b { connected = true } in
      let announced : Numbered (publish_presence_online topics a.now_s up) =
        send-other _ _ _ _ up apart.presence (kept b up refl refl h) in
      let reported : Numbered
          (publish_status_retained topics (publish_presence_online topics a.now_s up)) =
        send-other _ _ _ _ _ apart.status announced in
      if-Numbered (not a.can_connect) _ _ h (
        if-Numbered (not a.can_announce) up _ (kept b up refl refl h) (
          if-Numbered (not a.can_report) _ _ announced (
            if-Numbered (not a.can_subscribe) _ _ reported (
              if-Numbered
                (publish_status_retained topics
                  (publish_presence_online topics a.now_s up)).stop_requested
                _ _ reported (consume_messages-Numbered a.occurrences _ reported)))))

  run_connect_loop-Numbered :
      (attempts : List (Attempt × Bool)) (b : Backend)
      → Numbered b
      → Numbered (run_connect_loop json topics attempts b)
  unfolding run_connect_loop
  run_connect_loop-Numbered [] b h = h
  run_connect_loop-Numbered ((a, stop_in_sleep) ∷ rest) b h =
      let ended : Numbered (record (session json topics a b) { connected = false }) =
        kept (session json topics a b) _ refl refl (session-Numbered a b h) in
      if-Numbered b.stop_requested _ _ h (
        run_connect_loop-Numbered rest _
          (if-Numbered stop_in_sleep _ _ (request_stop-Numbered _ ended) ended))

module _ {V : Type 0} (json : CheckedJson V) where
  -- A backend that has just been built numbers its heartbeats: whatever its connect loop goes through,
  -- with as many connections, commands and heartbeats in between as there are, the numbers of the
  -- heartbeats that were sent are 0, 1, 2 and so on, none left out, and the counter is the next one, all
  -- of them modulo 2 ^ 32 and read as an int: after 2 ^ 31 - 1 comes the least int.
  pub run_connect_loop-Counted :
      (drone_id : Text) (attempts : List (Attempt × Bool))
      → let topics = backend_topics drone_id in
        let ended = run_connect_loop json topics attempts start_backend in
        (n : ℕ) × (ended.heartbeat_seq ≡ n % 2 ^ 32)
        × Counted n (payloads_on topics.heartbeat ended.sent)
  unfolding start_backend payloads_on
  run_connect_loop-Counted drone_id attempts =
      let numbered =
        run_connect_loop-Numbered json (backend_topics drone_id) (backend_topics-Apart drone_id)
          attempts start_backend (record { count = 0; counter = refl; counted = start }) in
      (numbered.count, numbered.counter, numbered.counted)
