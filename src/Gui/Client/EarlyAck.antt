-- ===== src/Gui/Client/EarlyAck.antt =====
-- The order of publishCmdPing: the command is published first, and the ping registered after that.
use ironsoft.Prelude.{ℕ, ◌≡◌, refl, ap, ◌∙◌, true, false, none, some, List, [], ◌∷◌}
use ironsoft.Prelude.Int.{negsuc}
use ironsoft.Text.{Text, text_eq_refl, is_empty}
use ironsoft.Json.{parsed}
use ironsoft.Config.{ok, err}
use ironsoft.Gui.Json.{QJson, get_or}
use ironsoft.Gui.Client.State.{
  Client, Published, free, in_ping, consuming, ping_updated, ack_received, find_ping, emit, t_ack,
  t_cmd, topic_prefix,
}
use ironsoft.Gui.Client.Pings.{
  can_publish, ping_fields, ping_publish, ping_register, ping_show, handle_ping_timeout, settle_ack,
  handle_ack_object, handle_ack_message,
}
use ironsoft.Gui.Client.Messages.{Incoming, handle_message}
use ironsoft.Gui.Client.Worker.{delivers, work, work_from, consume, next_message}
use ironsoft.Gui.Client.Events.{
  Event, when_free, when_pinging, works, pings, registers, shows, times_out, step, run_events,
  fire_timer,
}
use ironsoft.Wire.Reads.{parse_object-parsed}
use ironsoft.Wire.Pong.{handle_message-ack}

-- publishCmdPing, with a message that the worker handles before the ping is registered; then the timer
-- of the ping is over.
abbrev pub early_ack : Text → Incoming → ℕ → List Event
early_ack id m now_ms =
    pings id true ∷ works (delivers m) ∷ registers now_ms ∷ shows ∷ times_out id ∷ []

module _ (id : Text) (s : Client) where
  -- What the ping publishes.
  abbrev pub command : Published
  command = record { topic = t_cmd s; fields = ping_fields id }

  abbrev sent : Client
  sent = record s { published = command ∷ s.published; caller = in_ping id }

  ping_publish-sent : can_publish s ≡ true → ping_publish id true s ≡ sent
  unfolding ping_publish
  ping_publish-sent ready = rw ready refl

  -- A ping that is registered and shown, and whose timer is over before any other event.
  register-fire_timer :
      (now_ms : ℕ)
      → s.stop ≡ false
      → (fire_timer id (ping_show id (ping_register id now_ms s))).signals
        ≡ ping_updated id (negsuc 0) true ∷ ping_updated id (negsuc 0) false ∷ s.signals
  unfolding fire_timer ping_show ping_register handle_ping_timeout find_ping
  register-fire_timer now_ms running = rw (text_eq_refl id, running) refl

module _ {V : Type 0} (json : QJson V) (id : Text) (m : Incoming) (obj : V) where
  open json use {from_json, is_object, value, string_of, bool_of}

  -- The acknowledgement as it is shown where no ping waits for it.
  abbrev pub other_command : Client → Client
  other_command = emit (
      ack_received (get_or [] (string_of (value obj "type"))) id
        (get_or false (bool_of (value obj "ok"))))

  module _ (c : Client) (at : m.topic ≡ t_ack c) (parses : from_json m.payload ≡ parsed obj)
      (object : is_object obj ≡ true) (has_id : string_of (value obj "id") ≡ some id)
      (named : is_empty id ≡ false) (fresh : find_ping id c.pending_pings ≡ none) where
    handle_ack_object-other : handle_ack_object json obj m.now_ms c ≡ other_command c
    unfolding handle_ack_object settle_ack
    handle_ack_object-other = rw (has_id, named, fresh) refl

    handle_message-other : handle_message json m c ≡ other_command c
    unfolding handle_ack_message
    handle_message-other =
        handle_message-ack json c m at
        ∙ ap
            (λ r. elim r as (λ x. Client) [
              | err e ↦ c
              | ok v ↦ handle_ack_object json v m.now_ms c
            ])
            (parse_object-parsed json m.payload obj parses object)
        ∙ handle_ack_object-other

    goes_on :
        c.stop ≡ false
        → next_message (other_command c) ≡ record (other_command c) { worker = consuming }
    unfolding next_message
    goes_on running = rw running refl

    consumes :
        c.worker ≡ consuming
        → c.stop ≡ false
        → work json (delivers m) c ≡ record (other_command c) { worker = consuming }
    unfolding work work_from consume
    consumes place running =
        ap (λ w. work_from json w (delivers m) c) place
        ∙ ap next_message handle_message-other
        ∙ goes_on running

  -- The events after the acknowledgement.
  registered :
      (now_ms : ℕ) (c : Client)
      → c.caller ≡ in_ping id
      → run_events json (registers now_ms ∷ shows ∷ times_out id ∷ []) c
        ≡ fire_timer id (ping_show id (ping_register id now_ms c))
  unfolding run_events step ping_show ping_register
  registered now_ms c at =
      ap
        (λ k.
          run_events json (shows ∷ times_out id ∷ [])
            (when_pinging k (λ id. ping_register id now_ms) c))
        at

  -- A window that is free, a client in a session whose worker consumes, and a ping with an id of which
  -- none waits: where an acknowledgement with this id comes in after the ping is published and before
  -- it is registered, it is shown as that of another command, and the ping, although it was published
  -- and answered, is then shown as sent and as timed out.
  pub early_ack-signals :
      (now_ms : ℕ) (s : Client)
      → s.caller ≡ free
      → can_publish s ≡ true
      → s.worker ≡ consuming
      → s.stop ≡ false
      → is_empty id ≡ false
      → find_ping id s.pending_pings ≡ none
      → m.topic ≡ t_ack s
      → from_json m.payload ≡ parsed obj
      → is_object obj ≡ true
      → string_of (value obj "id") ≡ some id
      → let t = run_events json (early_ack id m now_ms) s in
        (t.signals
          ≡ ping_updated id (negsuc 0) true
            ∷ ping_updated id (negsuc 0) false
            ∷ (other_command s).signals)
        × ((run_events json (pings id true ∷ []) s).published ≡ command id s ∷ s.published)
  unfolding run_events step topic_prefix
  early_ack-signals now_ms s is_free ready place running named fresh at parses object has_id =
      let published =
        ap (λ k. when_free k (ping_publish id true) s) is_free ∙ ping_publish-sent id s ready in
      let acked = consumes (sent id s) at parses object has_id named fresh place running in
      let after = record (other_command (sent id s)) { worker = consuming } in
      let rest = registers now_ms ∷ shows ∷ times_out id ∷ [] in
      (
        ap (λ t. (run_events json (works (delivers m) ∷ rest) t).signals) published
            ∙ ap (λ t. (run_events json rest t).signals) acked
            ∙ ap (λ t. t.signals) (registered now_ms after refl)
            ∙ register-fire_timer id after now_ms running,
        ap (λ t. t.published) published,
      )
