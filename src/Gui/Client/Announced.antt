-- ===== src/Gui/Client/Announced.antt =====
-- The signals of the MQTT client tell the window all that it needs: the last one of each kind shows the
-- member.
use ironsoft.Prelude.{ℕ, ◌≡◌, Bool, true, false, Option, none, some, List, [], ◌∷◌, arith}
use ironsoft.Text.{Text}
use ironsoft.Json.{Fields}
use ironsoft.Gui.Json.{QJson}
use ironsoft.Gui.Status.{ConnectionState}
use ironsoft.Gui.Config.{MqttGuiConfig}
use ironsoft.Gui.Client.State.{
  Client, Signal, connected_changed, presence_changed, state_changed, set_connected, set_presence,
  set_client_state, emit, start_client, set_config,
}
use ironsoft.Gui.Client.Frames.{either_way, is_report, handle_message-keeps}
use ironsoft.Gui.Client.Keeps.{work-keeps, connect_to_broker-keeps}
use ironsoft.Gui.Client.Pings.{
  publish_command_payload, ping_publish, ping_register, ping_show, handle_ping_timeout, settle_ack,
}
use ironsoft.Gui.Client.Worker.{Answer, is_joined, work, connect_to_broker, begin_stop, end_stop}
use ironsoft.Gui.Client.Runs.{run_events-keeps}
use ironsoft.Gui.Client.Events.{Event, run_events, join, fire_timer, has_timer}

-- The value in the last signal of a kind; before the first one, the initial value.
unfoldable pub last_connected : List Signal → Bool
last_connected [] = false
last_connected (connected_changed v ∷ rest) = v
last_connected (_ ∷ rest) = last_connected rest

unfoldable pub last_presence : List Signal → Bool
last_presence [] = false
last_presence (presence_changed v ∷ rest) = v
last_presence (_ ∷ rest) = last_presence rest

unfoldable pub last_state : List Signal → ConnectionState
last_state [] = ConnectionState.disconnected
last_state (state_changed v ∷ rest) = v
last_state (_ ∷ rest) = last_state rest

abbrev pub IsAnnounced : Client → Type 0
IsAnnounced s =
    (last_connected s.signals ≡ s.connected)
    × (last_presence s.signals ≡ s.presence)
    × (last_state s.signals ≡ s.state)

set_connected-IsAnnounced :
    (v : Bool) (s : Client) → IsAnnounced s → IsAnnounced (set_connected v s)
unfolding set_connected last_connected last_presence last_state
set_connected-IsAnnounced v s p = ground arith

set_presence-IsAnnounced : (v : Bool) (s : Client) → IsAnnounced s → IsAnnounced (set_presence v s)
unfolding set_presence last_connected last_presence last_state
set_presence-IsAnnounced v s p = ground arith

set_client_state-IsAnnounced :
    (v : ConnectionState) (s : Client) → IsAnnounced s → IsAnnounced (set_client_state v s)
unfolding set_client_state last_connected last_presence last_state
set_client_state-IsAnnounced v s p = ground arith

emit-IsAnnounced :
    (signal : Signal)
    → is_report signal ≡ true
    → (s : Client) → IsAnnounced s
    → IsAnnounced (emit signal s)
unfolding last_connected last_presence last_state
emit-IsAnnounced signal r s p = ground arith

settle_ack-IsAnnounced :
    (type id : Text) (is_ok : Bool) (found : Option ℕ) (now_ms : ℕ) (s : Client)
    → IsAnnounced s
    → IsAnnounced (settle_ack type id is_ok found now_ms s)
unfolding settle_ack last_connected last_presence last_state
settle_ack-IsAnnounced type id is_ok none now_ms s p = p
settle_ack-IsAnnounced type id is_ok (some sent_ms) now_ms s p = p

handle_ping_timeout-IsAnnounced :
    (id : Text) (s : Client) → IsAnnounced s → IsAnnounced (handle_ping_timeout id s)
unfolding handle_ping_timeout last_connected last_presence last_state
handle_ping_timeout-IsAnnounced id s p = ground arith

end_stop-IsAnnounced : (s : Client) → IsAnnounced s → IsAnnounced (end_stop s)
unfolding end_stop
end_stop-IsAnnounced s p =
    set_client_state-IsAnnounced _ _
      (set_presence-IsAnnounced _ _ (set_connected-IsAnnounced _ _ p))

join-IsAnnounced : (s : Client) → IsAnnounced s → IsAnnounced (join s)
unfolding join
join-IsAnnounced s p = either_way IsAnnounced (is_joined s.worker) (end_stop-IsAnnounced s p) p

begin_stop-IsAnnounced : (s : Client) → IsAnnounced s → IsAnnounced (begin_stop s)
unfolding begin_stop
begin_stop-IsAnnounced s p =
    set_client_state-IsAnnounced ConnectionState.stopping (record s { stop = true }) p

publish_command_payload-IsAnnounced :
    (fields : Fields) (accepted : Bool) (s : Client)
    → IsAnnounced s
    → IsAnnounced (publish_command_payload fields accepted s).1
unfolding publish_command_payload
publish_command_payload-IsAnnounced fields accepted s p = ground arith

ping_publish-IsAnnounced :
    (id : Text) (accepted : Bool) (s : Client)
    → IsAnnounced s
    → IsAnnounced (ping_publish id accepted s)
unfolding ping_publish
ping_publish-IsAnnounced id accepted s p = ground arith

ping_register-IsAnnounced :
    (id : Text) (now_ms : ℕ) (s : Client) → IsAnnounced s → IsAnnounced (ping_register id now_ms s)
unfolding ping_register
ping_register-IsAnnounced id now_ms s p = p

ping_show-IsAnnounced : (id : Text) (s : Client) → IsAnnounced s → IsAnnounced (ping_show id s)
unfolding ping_show last_connected last_presence last_state
ping_show-IsAnnounced id s p = p

fire_timer-IsAnnounced : (id : Text) (s : Client) → IsAnnounced s → IsAnnounced (fire_timer id s)
unfolding fire_timer
fire_timer-IsAnnounced id s p =
    either_way IsAnnounced (has_timer id s.timers) (handle_ping_timeout-IsAnnounced id _ p) p

set_config-IsAnnounced :
    (cfg : MqttGuiConfig) (s : Client) → IsAnnounced s → IsAnnounced (set_config cfg s)
unfolding set_config
set_config-IsAnnounced cfg s p = p

start-IsAnnounced : IsAnnounced start_client
unfolding start_client last_connected last_presence last_state
start-IsAnnounced = ground arith

module _ {V : Type 0} (json : QJson V) where
  work-IsAnnounced : (a : Answer) (s : Client) → IsAnnounced s → IsAnnounced (work json a s)
  work-IsAnnounced =
      work-keeps json IsAnnounced set_connected-IsAnnounced set_presence-IsAnnounced
        set_client_state-IsAnnounced (λ w s p. p) (λ v s p. p)
        (handle_message-keeps json IsAnnounced set_presence-IsAnnounced emit-IsAnnounced
          (λ type id is_ok now_ms s p. settle_ack-IsAnnounced type id is_ok _ now_ms s p))

  connect_to_broker-IsAnnounced : (s : Client) → IsAnnounced s → IsAnnounced (connect_to_broker s)
  connect_to_broker-IsAnnounced =
      connect_to_broker-keeps IsAnnounced set_connected-IsAnnounced set_presence-IsAnnounced
        set_client_state-IsAnnounced (λ w s p. p) (λ v s p. p)

  -- At all times, the values in the last connected, presence and state signals, or `false`, `false` and
  -- `disconnected` before the first one, are the members' values.
  pub run_events-IsAnnounced : (es : List Event) → IsAnnounced (run_events json es start_client)
  run_events-IsAnnounced es =
      run_events-keeps json IsAnnounced work-IsAnnounced set_config-IsAnnounced
        connect_to_broker-IsAnnounced (λ s at p. begin_stop-IsAnnounced s p)
        (λ s at p. join-IsAnnounced s p) publish_command_payload-IsAnnounced
        (λ id accepted s at p. ping_publish-IsAnnounced id accepted s p)
        (λ id now_ms s at p. ping_register-IsAnnounced id now_ms s p)
        (λ id s at p. ping_show-IsAnnounced id s p) fire_timer-IsAnnounced es start_client
        start-IsAnnounced
