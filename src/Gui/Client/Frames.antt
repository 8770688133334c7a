-- ===== src/Gui/Client/Frames.antt =====
-- What the setters and the handlers of messages of the MQTT client leave as it was.
use ironsoft.Prelude.{ℕ, ◌≡◌, refl, ◌∙◌, Bool, true, false, Option, none, some, if◌then◌else◌}
use ironsoft.Text.{Text, text_eq}
use ironsoft.Config.{Result, ok, err}
use ironsoft.Gui.Json.{QJson}
use ironsoft.Gui.Client.State.{
  Client, t_presence, t_status, t_heartbeat, t_ack, t_ekinox_presence, t_ekinox_status,
  t_ekinox_heartbeat, same_bool, presence_changed, emit, Signal, heartbeat_received,
  ekinox_heartbeat_received, status_changed, ekinox_presence_changed, ekinox_status_changed,
  set_presence, find_ping,
}
use ironsoft.Gui.Client.Parse.{parse_object, parse_status_json, parse_ekinox_status_json}
use ironsoft.Gui.Client.Pings.{settle_ack, handle_ack_object, handle_ack_message}
use ironsoft.Gui.Client.Messages.{
  Incoming, handle_presence, handle_status, handle_ekinox_presence, handle_ekinox_status,
  handle_message,
}

-- The members that no message changes.
pub record SameSession (s t : Client) : Type 0 where
  pub same_stop : t.stop ≡ s.stop
  pub same_worker : t.worker ≡ s.worker
  pub same_caller : t.caller ≡ s.caller
  pub same_connected : t.connected ≡ s.connected
  pub same_client_state : t.state ≡ s.state

unchanged : (s : Client) → SameSession s s
unchanged s = record {
  same_stop = refl;
  same_worker = refl;
  same_caller = refl;
  same_connected = refl;
  same_client_state = refl;
}

-- A property of both branches of a test.
pub either_way :
    {A : Type 0} (P : A → Type 0) (b : Bool) {x y : A} → P x → P y → P (if b then x else y)
either_way P true p q = p
either_way P false p q = q

emit-SameSession : (signal : Signal) (s : Client) → SameSession s (emit signal s)
emit-SameSession signal s = record {
  same_stop = refl;
  same_worker = refl;
  same_caller = refl;
  same_connected = refl;
  same_client_state = refl;
}

-- A property of what follows a result that failed, and one that did not.
after_result :
    {R : Type 0} {A : Type 0} (P : A → Type 0) (r : Result R) {x : A} {f : R → A}
    → P x
    → ((value : R) → P (f value))
    → P (elim r [ err e ↦ x | ok value ↦ f value ])
after_result P (err e) p q = p
after_result P (ok value) p q = q value

set_presence-SameSession : (v : Bool) (s : Client) → SameSession s (set_presence v s)
unfolding set_presence
set_presence-SameSession v s =
    elim (same_bool s.presence v)
      as (λ b.
        SameSession s (if b then s else emit (presence_changed v) (record s { presence = v }))) [
          | true ↦ unchanged s
          | false ↦ record {
            same_stop = refl;
            same_worker = refl;
            same_caller = refl;
            same_connected = refl;
            same_client_state = refl;
          }
        ]

settle_ack-SameSession :
    (type id : Text) (is_ok : Bool) (found : Option ℕ) (now_ms : ℕ) (s : Client)
    → SameSession s (settle_ack type id is_ok found now_ms s)
unfolding settle_ack
settle_ack-SameSession type id is_ok none now_ms s = emit-SameSession _ s
settle_ack-SameSession type id is_ok (some sent_ms) now_ms s = record {
  same_stop = refl;
  same_worker = refl;
  same_caller = refl;
  same_connected = refl;
  same_client_state = refl;
}

-- The signals that pass on what a message says, and show no member.
abbrev pub is_report : Signal → Bool
is_report heartbeat_received = true
is_report ekinox_heartbeat_received = true
is_report (status_changed st) = true
is_report (ekinox_presence_changed v) = true
is_report (ekinox_status_changed st) = true
is_report _ = false

-- What the three kinds of changes that a message can make keep, the handler of messages keeps.
module _ {V : Type 0} (json : QJson V) (P : Client → Type 0)
    (on_presence : (v : Bool) (s : Client) → P s → P (set_presence v s))
    (on_report : (signal : Signal)
      → is_report signal ≡ true
      → (s : Client) → P s
      → P (emit signal s))
    (on_ack : (type id : Text) (is_ok : Bool) (now_ms : ℕ) (s : Client)
      → P s
      → P (settle_ack type id is_ok (find_ping id s.pending_pings) now_ms s)) where
  handle_presence-keeps : (payload : Text) (s : Client) → P s → P (handle_presence json payload s)
  unfolding handle_presence
  handle_presence-keeps payload s p =
      after_result P (parse_object json payload) p
        (λ obj. either_way P _ (on_presence true s p) (either_way P _ (on_presence false s p) p))

  handle_status-keeps :
      (payload : Text) (now_s : ℕ) (s : Client) → P s → P (handle_status json payload now_s s)
  unfolding handle_status
  handle_status-keeps payload now_s s p =
      after_result P (parse_status_json json payload now_s) p (λ st. on_report _ refl s p)

  handle_ekinox_presence-keeps :
      (payload : Text) (s : Client) → P s → P (handle_ekinox_presence json payload s)
  unfolding handle_ekinox_presence
  handle_ekinox_presence-keeps payload s p =
      after_result P (parse_object json payload) p (λ obj. on_report _ refl s p)

  handle_ekinox_status-keeps :
      (payload : Text) (now_s : ℕ) (s : Client)
      → P s
      → P (handle_ekinox_status json payload now_s s)
  unfolding handle_ekinox_status
  handle_ekinox_status-keeps payload now_s s p =
      after_result P (parse_ekinox_status_json json payload now_s) p (λ st. on_report _ refl s p)

  handle_ack_message-keeps :
      (payload : Text) (now_ms : ℕ) (s : Client)
      → P s
      → P (handle_ack_message json payload now_ms s)
  unfolding handle_ack_message handle_ack_object
  handle_ack_message-keeps payload now_ms s p =
      after_result P (parse_object json payload) p
        (λ obj. either_way P _ p (on_ack _ _ _ now_ms s p))

  pub handle_message-keeps : (m : Incoming) (s : Client) → P s → P (handle_message json m s)
  unfolding handle_message
  handle_message-keeps m s p =
      either_way P (text_eq m.topic (t_presence s)) (handle_presence-keeps m.payload s p) (
        either_way P (text_eq m.topic (t_status s)) (handle_status-keeps m.payload m.now_s s p) (
          either_way P (text_eq m.topic (t_heartbeat s)) (on_report heartbeat_received refl s p) (
            either_way P (text_eq m.topic (t_ack s))
              (handle_ack_message-keeps m.payload m.now_ms s p)
              (either_way P (text_eq m.topic (t_ekinox_presence s))
                (handle_ekinox_presence-keeps m.payload s p)
                (either_way P (text_eq m.topic (t_ekinox_status s))
                  (handle_ekinox_status-keeps m.payload m.now_s s p)
                  (either_way P (text_eq m.topic (t_ekinox_heartbeat s))
                    (on_report ekinox_heartbeat_received refl s p) p))))))

then_same : {s t u : Client} → SameSession s t → SameSession t u → SameSession s u
then_same f g = record {
  same_stop = g.same_stop ∙ f.same_stop;
  same_worker = g.same_worker ∙ f.same_worker;
  same_caller = g.same_caller ∙ f.same_caller;
  same_connected = g.same_connected ∙ f.same_connected;
  same_client_state = g.same_client_state ∙ f.same_client_state;
}

pub handle_message-SameSession :
    {V : Type 0} (json : QJson V) (m : Incoming) (s : Client)
    → SameSession s (handle_message json m s)
handle_message-SameSession json m s =
    handle_message-keeps json (SameSession s) (λ v t f. then_same f (set_presence-SameSession v t))
      (λ signal r t f. then_same f (emit-SameSession signal t))
      (λ type id is_ok now_ms t f. then_same f (settle_ack-SameSession type id is_ok _ now_ms t)) m
      s (unchanged s)
