-- ===== src/Gui/Client/PingCounts.antt =====
-- No ping has two ends: what was shown of each ping, counted.
use ironsoft.Prelude.{
  ℕ, ◌+◌, ◌≤◌, ◌&&◌, ◌≡◌, refl, Bool, true, false, if◌then◌else◌, Option, none, some, List, [], ◌∷◌,
  arith, subst, sym, Bool-cases, Option-cases, inl, inr,
}
use ironsoft.Prelude.Int.{pos, negsuc}
use ironsoft.Text.{Text, text_eq, text_eq_sound}
use ironsoft.Json.{Fields}
use ironsoft.Gui.Json.{QJson}
use ironsoft.Gui.Config.{MqttGuiConfig}
use ironsoft.Gui.Status.{ConnectionState}
use ironsoft.Gui.Client.State.{
  Caller, free, in_stop, in_ping, in_show, Client, Signal, ping_updated, set_connected,
  set_presence, set_client_state, set_config, emit, start_client, find_ping, erase_ping,
}
use ironsoft.Gui.Client.Frames.{either_way, is_report, handle_message-keeps}
use ironsoft.Gui.Client.Pings.{
  can_publish, publish_command_payload, ping_publish, ping_register, ping_show, handle_ping_timeout,
  settle_ack, remove_timer,
}
use ironsoft.Gui.Client.PingTimers.{is_pending, erase_ping-shrinks, erase_ping-erases}
use ironsoft.Gui.Client.Keeps.{work-keeps, connect_to_broker-keeps}
use ironsoft.Gui.Client.Worker.{is_joined, begin_stop, end_stop}
use ironsoft.Gui.Client.Runs.{run_events-keeps}
use ironsoft.Gui.Client.Events.{Event, run_events, join, fire_timer, has_timer}

module _ (id : Text) where
  -- The signal shows the ping as waiting for its answer; as answered, or as timed out.
  abbrev pub begins : Signal → ℕ
  begins (ping_updated key (negsuc n) false) = if text_eq key id then 1 else 0
  begins _ = 0

  abbrev pub ends : Signal → ℕ
  ends (ping_updated key (pos n) timed_out) = if text_eq key id then 1 else 0
  ends (ping_updated key (negsuc n) true) = if text_eq key id then 1 else 0
  ends _ = 0

  unfoldable pub begun : List Signal → ℕ
  begun [] = 0
  begun (signal ∷ rest) = begins signal + begun rest

  unfoldable pub ended : List Signal → ℕ
  ended [] = 0
  ended (signal ∷ rest) = ends signal + ended rest

  abbrev waits : List (Text × ℕ) → ℕ
  waits pings = if is_pending id pings then 1 else 0

  -- The window has registered the ping, and has yet to show it.
  abbrev pub owed : Caller → ℕ
  owed (in_show key) = if text_eq key id then 1 else 0
  owed _ = 0

  abbrev pub IsCounted : Client → Type 0
  IsCounted s = ended s.signals + waits s.pending_pings ≤ begun s.signals + owed s.caller

  emit-IsCounted :
      (signal : Signal)
      → is_report signal ≡ true
      → (s : Client) → IsCounted s
      → IsCounted (emit signal s)
  unfolding begun ended
  emit-IsCounted signal r s p = ground arith

  found-waits :
      (key : Text) (sent_ms : ℕ) (pings : List (Text × ℕ))
      → find_ping key pings ≡ some sent_ms
      → (if text_eq key id then 1 else 0) + waits (erase_ping key pings) ≤ waits pings
  found-waits key sent_ms pings found = elim (Bool-cases (text_eq key id)) [
    | inl same ↦
        let gone =
          subst (λ k. is_pending id (erase_ping k pings) ≡ false) (sym (text_eq_sound key id same))
            (erase_ping-erases id pings) in
        let here =
          subst (λ k. find_ping k pings ≡ some sent_ms) (text_eq_sound key id same) found in
        ground arith
    | inr other ↦ ground (arith, erase_ping-shrinks id key pings)
  ]

  settle_ack-IsCounted :
      (type key : Text) (is_ok : Bool) (found : Option ℕ) (now_ms : ℕ) (s : Client)
      → find_ping key s.pending_pings ≡ found
      → IsCounted s
      → IsCounted (settle_ack type key is_ok found now_ms s)
  unfolding settle_ack begun ended
  settle_ack-IsCounted type key is_ok none now_ms s e p = ground arith
  settle_ack-IsCounted type key is_ok (some sent_ms) now_ms s e p =
      let f = found-waits key sent_ms s.pending_pings e in ground arith

  handle_ping_timeout-IsCounted :
      (key : Text) (s : Client) → IsCounted s → IsCounted (handle_ping_timeout key s)
  unfolding handle_ping_timeout begun ended
  handle_ping_timeout-IsCounted key s p = elim (Option-cases (find_ping key s.pending_pings)) [
    | inl gone ↦ ground (arith, erase_ping-shrinks id key s.pending_pings)
    | inr (sent_ms, found) ↦
        let f = found-waits key sent_ms s.pending_pings found in
        ground (arith, erase_ping-shrinks id key s.pending_pings)
  ]

  ping_register-IsCounted :
      (key : Text) (now_ms : ℕ) (s : Client)
      → s.caller ≡ in_ping key
      → IsCounted s
      → IsCounted (ping_register key now_ms s)
  unfolding ping_register find_ping
  ping_register-IsCounted key now_ms s at p =
      ground (arith, erase_ping-shrinks id key s.pending_pings)

  ping_show-IsCounted :
      (key : Text) (s : Client) → s.caller ≡ in_show key → IsCounted s → IsCounted (ping_show key s)
  unfolding ping_show begun ended
  ping_show-IsCounted key s at p = ground arith

  set_connected-IsCounted : (v : Bool) (s : Client) → IsCounted s → IsCounted (set_connected v s)
  unfolding set_connected begun ended
  set_connected-IsCounted v s p = ground arith

  set_presence-IsCounted : (v : Bool) (s : Client) → IsCounted s → IsCounted (set_presence v s)
  unfolding set_presence begun ended
  set_presence-IsCounted v s p = ground arith

  set_client_state-IsCounted :
      (v : ConnectionState) (s : Client) → IsCounted s → IsCounted (set_client_state v s)
  unfolding set_client_state begun ended
  set_client_state-IsCounted v s p = ground arith

  cleared-IsCounted :
      (s : Client) → s.caller ≡ in_stop → IsCounted s → ended s.signals + 0 ≤ begun s.signals + 0
  cleared-IsCounted s at p = ground arith

  join-IsCounted : (s : Client) → s.caller ≡ in_stop → IsCounted s → IsCounted (join s)
  unfolding join end_stop find_ping
  join-IsCounted s at p =
      either_way IsCounted (is_joined s.worker)
        (set_client_state-IsCounted _ _
          (set_presence-IsCounted _ _ (set_connected-IsCounted _ _ (cleared-IsCounted s at p))))
        p

  begin_stop-IsCounted : (s : Client) → s.caller ≡ free → IsCounted s → IsCounted (begin_stop s)
  unfolding begin_stop set_client_state begun ended
  begin_stop-IsCounted s at p = ground arith

  publish_command_payload-IsCounted :
      (fields : Fields) (accepted : Bool) (s : Client)
      → IsCounted s
      → IsCounted (publish_command_payload fields accepted s).1
  unfolding publish_command_payload
  publish_command_payload-IsCounted fields accepted s p =
      either_way {A = Bool × Client} (λ r. IsCounted r.1) (can_publish s && accepted) p p

  ping_publish-IsCounted :
      (key : Text) (accepted : Bool) (s : Client)
      → s.caller ≡ free
      → IsCounted s
      → IsCounted (ping_publish key accepted s)
  unfolding ping_publish
  ping_publish-IsCounted key accepted s at p = ground arith

  fire_timer-IsCounted : (key : Text) (s : Client) → IsCounted s → IsCounted (fire_timer key s)
  unfolding fire_timer
  fire_timer-IsCounted key s p =
      either_way IsCounted (has_timer key s.timers)
        (handle_ping_timeout-IsCounted key (record s { timers = remove_timer key s.timers }) p) p

  set_config-IsCounted :
      (cfg : MqttGuiConfig) (s : Client) → IsCounted s → IsCounted (set_config cfg s)
  unfolding set_config
  set_config-IsCounted cfg s p = p

  start-IsCounted : IsCounted start_client
  unfolding start_client find_ping begun ended
  start-IsCounted = ground arith

  -- At all times, and for every id, the signals that show a ping of this id as answered or timed out,
  -- and the pending ping of this id, if there is one, are together at most as many as the signals that
  -- show such a ping as sent, with one more while the window has registered one and has yet to show it.
  pub run_events-IsCounted :
      {V : Type 0} (json : QJson V) (es : List Event) → IsCounted (run_events json es start_client)
  run_events-IsCounted json es =
      run_events-keeps json IsCounted
        (work-keeps json IsCounted set_connected-IsCounted set_presence-IsCounted
          set_client_state-IsCounted (λ w s p. p) (λ v s p. p)
          (handle_message-keeps json IsCounted set_presence-IsCounted emit-IsCounted
            (λ type other is_ok now_ms s p.
              settle_ack-IsCounted type other is_ok _ now_ms s refl p)))
        set_config-IsCounted
        (connect_to_broker-keeps IsCounted set_connected-IsCounted set_presence-IsCounted
          set_client_state-IsCounted (λ w s p. p) (λ v s p. p))
        begin_stop-IsCounted join-IsCounted publish_command_payload-IsCounted ping_publish-IsCounted
        ping_register-IsCounted ping_show-IsCounted fire_timer-IsCounted es start_client
        start-IsCounted
