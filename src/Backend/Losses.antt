-- ===== src/Backend/Losses.antt =====
-- How the backend loses its connection, and what `stop` finds after that (backend/src/mqtt_client.cpp).
use ironsoft.Prelude.{
  ◌≡◌, refl, ap, ◌∙◌, List, [], ◌∷◌, true, false, Bool, if◌then◌else◌, none, arith, ℕ,
}
use ironsoft.Text.{Text, text_eq_refl}
use ironsoft.Json.{parsed}
use ironsoft.Backend.Json.{CheckedJson}
use ironsoft.Backend.State.{Topics, Backend}
use ironsoft.Backend.Commands.{handle_cmd_ping_only}
use ironsoft.Backend.Session.{
  Attempt, Occurrence, message, request_stop, publish_presence_online, publish_status_retained,
  answer_command, consume_messages, session, run_connect_loop,
}

request_stop-connected : (b : Backend) → (request_stop b).connected ≡ b.connected
unfolding request_stop
request_stop-connected b = refl

if_same : {A : Type 0} (b : Bool) (x : A) → (if b then x else x) ≡ x
if_same true x = refl
if_same false x = refl

module _ {V : Type 0} (json : CheckedJson V) (topics : Topics) where
  -- A backend that is not connected as the connect loop starts is not connected either when the loop
  -- has returned, whatever its attempts did: `stop`, which joins the loop and only then asks whether
  -- there is a connection, never disconnects.
  pub run_connect_loop-disconnected :
      (attempts : List (Attempt × Bool)) (b : Backend)
      → b.connected ≡ false
      → (run_connect_loop json topics attempts b).connected ≡ false
  unfolding run_connect_loop request_stop
  run_connect_loop-disconnected [] b down = down
  run_connect_loop-disconnected ((a, true) ∷ rest) b down =
      let later =
        run_connect_loop-disconnected rest
          (request_stop (record (session json topics a b) { connected = false })) refl in
      ground arith
  run_connect_loop-disconnected ((a, false) ∷ rest) b down =
      let later =
        run_connect_loop-disconnected rest (record (session json topics a b) { connected = false })
          refl in
      ground arith

  handle_cmd_ping_only-throws :
      (payload : Text) (root : V)
      → json.parse payload ≡ parsed root
      → json.find root "type" ≡ none
      → handle_cmd_ping_only json payload ≡ none
  unfolding handle_cmd_ping_only
  handle_cmd_ping_only-throws payload root parses no_object = rw (parses, no_object) refl

  consume_messages-throws :
      (payload : Text) (accepted : Bool) (rest : List Occurrence) (b : Backend)
      → handle_cmd_ping_only json payload ≡ none
      → consume_messages json topics (message topics.cmd payload accepted ∷ rest) b ≡ b
  unfolding consume_messages answer_command
  consume_messages-throws payload accepted rest b throws = rw (text_eq_refl topics.cmd, throws) refl

  -- In a session in which the calls before the message loop all return, and the first message is a
  -- command whose payload is well-formed JSON, but neither an object nor null, this command is answered
  -- by nothing and ends the session: all that the session sends is its presence and its status, and whatever
  -- comes after the command is not consumed.
  pub session-throws :
      (payload : Text) (root : V) (accepted : Bool) (rest : List Occurrence) (now_s : ℕ)
      (b : Backend)
      → json.parse payload ≡ parsed root
      → json.find root "type" ≡ none
      → let attempt : Attempt = record {
        can_connect = true;
        can_announce = true;
        can_report = true;
        can_subscribe = true;
        now_s = now_s;
        occurrences = message topics.cmd payload accepted ∷ rest;
      } in
        session json topics attempt b
        ≡ publish_status_retained topics
            (publish_presence_online topics now_s (record b { connected = true }))
  unfolding session
  session-throws payload root accepted rest now_s b parses no_object =
      let announced = publish_presence_online topics now_s (record b { connected = true }) in
      let reported = publish_status_retained topics announced in
      let throws = handle_cmd_ping_only-throws payload root parses no_object in
      ap (λ x. if reported.stop_requested then reported else x)
        (consume_messages-throws payload accepted rest reported throws)
      ∙ if_same reported.stop_requested reported
