-- ===== src/Gui/Client/Runs.antt =====
-- What each call and each step of the worker keeps, every sequence of events keeps.
use ironsoft.Prelude.{ℕ, Bool, List, [], ◌∷◌, ◌≡◌, refl}
use ironsoft.Text.{Text}
use ironsoft.Json.{Fields}
use ironsoft.Gui.Json.{QJson}
use ironsoft.Gui.Config.{MqttGuiConfig}
use ironsoft.Gui.Client.State.{Client, Caller, free, in_stop, in_ping, in_show, set_config}
use ironsoft.Gui.Client.Pings.{publish_command_payload, ping_publish, ping_register, ping_show}
use ironsoft.Gui.Client.Worker.{Answer, work, connect_to_broker, begin_stop}
use ironsoft.Gui.Client.Events.{
  Event, works, configures, connects, stops, joins, commands, pings, registers, shows, times_out,
  step, run_events, when_free, when_pinging, when_showing, when_stopping, join, fire_timer,
}

-- What a call keeps, it keeps where its thread is not ready for it.
module _ (P : Client → Type 0) where
  when_free-keeps :
      (c : Caller) (f : Client → Client) (s : Client)
      → P s
      → (c ≡ free → P (f s))
      → P (when_free c f s)
  when_free-keeps free f s p q = q refl
  when_free-keeps in_stop f s p q = p
  when_free-keeps (in_ping id) f s p q = p
  when_free-keeps (in_show id) f s p q = p

  when_stopping-keeps :
      (c : Caller) (f : Client → Client) (s : Client)
      → P s
      → (c ≡ in_stop → P (f s))
      → P (when_stopping c f s)
  when_stopping-keeps free f s p q = p
  when_stopping-keeps in_stop f s p q = q refl
  when_stopping-keeps (in_ping id) f s p q = p
  when_stopping-keeps (in_show id) f s p q = p

  when_pinging-keeps :
      (c : Caller) (f : Text → Client → Client) (s : Client)
      → P s
      → ((id : Text) → c ≡ in_ping id → P (f id s))
      → P (when_pinging c f s)
  when_pinging-keeps free f s p q = p
  when_pinging-keeps in_stop f s p q = p
  when_pinging-keeps (in_ping id) f s p q = q id refl
  when_pinging-keeps (in_show id) f s p q = p

  when_showing-keeps :
      (c : Caller) (f : Text → Client → Client) (s : Client)
      → P s
      → ((id : Text) → c ≡ in_show id → P (f id s))
      → P (when_showing c f s)
  when_showing-keeps free f s p q = p
  when_showing-keeps in_stop f s p q = p
  when_showing-keeps (in_ping id) f s p q = p
  when_showing-keeps (in_show id) f s p q = q id refl

module _ {V : Type 0} (json : QJson V) (P : Client → Type 0)
    (on_work : (a : Answer) (s : Client) → P s → P (work json a s))
    (on_config : (cfg : MqttGuiConfig) (s : Client) → P s → P (set_config cfg s))
    (on_connect : (s : Client) → P s → P (connect_to_broker s))
    (on_stop : (s : Client) → s.caller ≡ free → P s → P (begin_stop s))
    (on_join : (s : Client) → s.caller ≡ in_stop → P s → P (join s))
    (on_command : (fields : Fields) (accepted : Bool) (s : Client)
      → P s
      → P (publish_command_payload fields accepted s).1)
    (on_ping : (id : Text) (accepted : Bool) (s : Client)
      → s.caller ≡ free
      → P s
      → P (ping_publish id accepted s))
    (on_register : (id : Text) (now_ms : ℕ) (s : Client)
      → s.caller ≡ in_ping id
      → P s
      → P (ping_register id now_ms s))
    (on_show : (id : Text) (s : Client) → s.caller ≡ in_show id → P s → P (ping_show id s))
    (on_timer : (id : Text) (s : Client) → P s → P (fire_timer id s)) where
  step-keeps : (e : Event) (s : Client) → P s → P (step json e s)
  unfolding step
  step-keeps (works a) s p = on_work a s p
  step-keeps (configures cfg) s p =
      when_free-keeps P s.caller (set_config cfg) s p (λ at. on_config cfg s p)
  step-keeps connects s p = when_free-keeps P s.caller connect_to_broker s p (λ at. on_connect s p)
  step-keeps stops s p = when_free-keeps P s.caller begin_stop s p (λ at. on_stop s at p)
  step-keeps joins s p = when_stopping-keeps P s.caller join s p (λ at. on_join s at p)
  step-keeps (commands fields accepted) s p =
      when_free-keeps P s.caller (λ t. (publish_command_payload fields accepted t).1) s p
        (λ at. on_command fields accepted s p)
  step-keeps (pings id accepted) s p =
      when_free-keeps P s.caller (ping_publish id accepted) s p (λ at. on_ping id accepted s at p)
  step-keeps (registers now_ms) s p =
      when_pinging-keeps P s.caller (λ id. ping_register id now_ms) s p
        (λ id at. on_register id now_ms s at p)
  step-keeps shows s p = when_showing-keeps P s.caller ping_show s p (λ id at. on_show id s at p)
  step-keeps (times_out id) s p =
      when_free-keeps P s.caller (fire_timer id) s p (λ at. on_timer id s p)

  pub run_events-keeps : (es : List Event) (s : Client) → P s → P (run_events json es s)
  unfolding run_events
  run_events-keeps [] s p = p
  run_events-keeps (e ∷ rest) s p = run_events-keeps rest (step json e s) (step-keeps e s p)
