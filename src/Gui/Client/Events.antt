-- ===== src/Gui/Client/Events.antt =====
-- The two threads as a sequence of events: the calls of the window, the ping timers and the steps of
-- the worker. An event that its thread is not ready for leaves the members as they are.
use ironsoft.Prelude.{ℕ, Bool, true, false, List, [], ◌∷◌, if◌then◌else◌}
use ironsoft.Text.{Text, text_eq}
use ironsoft.Json.{Fields}
use ironsoft.Gui.Json.{QJson}
use ironsoft.Gui.Config.{MqttGuiConfig}
use ironsoft.Gui.Client.State.{Client, Caller, free, in_stop, in_ping, in_show, set_config}
use ironsoft.Gui.Client.Pings.{
  publish_command_payload, ping_publish, ping_register, ping_show, handle_ping_timeout,
  remove_timer,
}
use ironsoft.Gui.Client.Worker.{Answer, work, connect_to_broker, begin_stop, end_stop, is_joined}

pub data Event : Type 0 where
  -- The worker's next step, with what the MQTT client answers.
  works : Answer → Event
  -- Calls of the window; a Boolean says whether the MQTT client accepts a message.
  configures : MqttGuiConfig → Event
  connects stops joins : Event
  commands : Fields → Bool → Event
  pings : Text → Bool → Event
  -- The ping that is published is registered, at a time; then it is shown.
  registers : ℕ → Event
  shows : Event
  -- The timer of a ping is over.
  times_out : Text → Event

abbrev pub has_timer : Text → List Text → Bool
has_timer id [] = false
has_timer id (key ∷ rest) = if text_eq key id then true else has_timer id rest

-- The thread of the window is in none of the calls that the other events can interrupt.
abbrev pub when_free : Caller → (Client → Client) → Client → Client
when_free free f s = f s
when_free _ f s = s

abbrev pub when_pinging : Caller → (Text → Client → Client) → Client → Client
when_pinging (in_ping id) f s = f id s
when_pinging _ f s = s

abbrev pub when_showing : Caller → (Text → Client → Client) → Client → Client
when_showing (in_show id) f s = f id s
when_showing _ f s = s

abbrev pub when_stopping : Caller → (Client → Client) → Client → Client
when_stopping in_stop f s = f s
when_stopping _ f s = s

unfoldable pub fire_timer : Text → Client → Client
fire_timer id s =
    if has_timer id s.timers
    then handle_ping_timeout id (record s { timers = remove_timer id s.timers })
    else s

unfoldable pub join : Client → Client
join s = if is_joined s.worker then end_stop s else s

module _ {V : Type 0} (json : QJson V) where
  unfoldable pub step : Event → Client → Client
  step (works a) s = work json a s
  step (configures cfg) s = when_free s.caller (set_config cfg) s
  step connects s = when_free s.caller connect_to_broker s
  step stops s = when_free s.caller begin_stop s
  step joins s = when_stopping s.caller join s
  step (commands fields accepted) s =
      when_free s.caller (λ t. (publish_command_payload fields accepted t).1) s
  step (pings id accepted) s = when_free s.caller (ping_publish id accepted) s
  step (registers now_ms) s = when_pinging s.caller (λ id. ping_register id now_ms) s
  step shows s = when_showing s.caller ping_show s
  step (times_out id) s = when_free s.caller (fire_timer id) s

  unfoldable pub run_events : List Event → Client → Client
  run_events [] s = s
  run_events (e ∷ rest) s = run_events rest (step e s)
