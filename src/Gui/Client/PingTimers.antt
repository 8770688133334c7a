-- ===== src/Gui/Client/PingTimers.antt =====
-- Every ping comes to one end: a pong, a timeout, or the end of the connection.
use ironsoft.Prelude.{
  if◌then◌else◌, ℕ, ◌&&◌, ◌||◌, not, ◌≡◌, refl, Bool, true, false, Option, none, some, List, [],
  ◌∷◌, arith, ap, subst, sym, Bool-cases, inl, inr,
}
use ironsoft.Text.{Text, text_eq, text_eq_sound}
use ironsoft.Json.{Fields}
use ironsoft.Gui.Json.{QJson, is_some}
use ironsoft.Gui.Config.{MqttGuiConfig}
use ironsoft.Gui.Status.{ConnectionState}
use ironsoft.Gui.Client.State.{
  free, in_ping, in_show, Caller, Client, same_bool, same_state, set_connected, set_presence,
  set_client_state, set_config, start_client, find_ping, erase_ping,
}
use ironsoft.Gui.Client.Frames.{either_way, handle_message-keeps}
use ironsoft.Gui.Client.Pings.{
  can_publish, publish_command_payload, ping_publish, ping_register, ping_show, handle_ping_timeout,
  settle_ack, remove_timer,
}
use ironsoft.Gui.Client.Keeps.{work-keeps, connect_to_broker-keeps}
use ironsoft.Gui.Client.Worker.{is_joined, begin_stop, end_stop}
use ironsoft.Gui.Client.Runs.{run_events-keeps}
use ironsoft.Gui.Client.Events.{
  when_free, times_out, step, Event, run_events, join, fire_timer, has_timer,
}

module _ (id : Text) where
  abbrev pub is_pending : List (Text × ℕ) → Bool
  is_pending pings = is_some (find_ping id pings)

  pub text_eq_left :
      (key other : Text) → text_eq key other ≡ true → text_eq key id ≡ text_eq other id
  text_eq_left key other same = ap (λ k. text_eq k id) (text_eq_sound key other same)

  pub erase_ping-shrinks :
      (other : Text) (pings : List (Text × ℕ))
      → is_pending (erase_ping other pings) ≡ true
      → is_pending pings ≡ true
  unfolding find_ping erase_ping
  erase_ping-shrinks other [] h = h
  erase_ping-shrinks other ((key, sent_ms) ∷ rest) h = ground (arith, erase_ping-shrinks other rest)

  pub erase_ping-erases : (pings : List (Text × ℕ)) → is_pending (erase_ping id pings) ≡ false
  unfolding find_ping erase_ping
  erase_ping-erases [] = refl
  erase_ping-erases ((key, sent_ms) ∷ rest) = let h = erase_ping-erases rest in ground arith

  remove_timer-other :
      (other : Text) (timers : List Text)
      → text_eq other id ≡ false
      → has_timer id timers ≡ true
      → has_timer id (remove_timer other timers) ≡ true
  unfolding remove_timer
  remove_timer-other other [] ne h = h
  remove_timer-other other (key ∷ rest) ne h =
      ground (arith, text_eq_left key other, remove_timer-other other rest ne)

  -- The window has registered the ping, and has yet to start its timer.
  abbrev showing : Caller → Bool
  showing (in_show key) = text_eq key id
  showing _ = false

  -- Every ping that waits for its answer has a timer that runs, or that is about to start.
  abbrev pub IsTimed : Client → Type 0
  IsTimed s = is_pending s.pending_pings ≡ true → has_timer id s.timers || showing s.caller ≡ true

  settle_ack-IsTimed :
      (type other : Text) (is_ok : Bool) (found : Option ℕ) (now_ms : ℕ) (s : Client)
      → IsTimed s
      → IsTimed (settle_ack type other is_ok found now_ms s)
  unfolding settle_ack
  settle_ack-IsTimed type other is_ok none now_ms s p = p
  settle_ack-IsTimed type other is_ok (some sent_ms) now_ms s p =
      λ h. p (erase_ping-shrinks other _ h)

  set_connected-IsTimed : (v : Bool) (s : Client) → IsTimed s → IsTimed (set_connected v s)
  unfolding set_connected
  set_connected-IsTimed v s p = either_way IsTimed (same_bool s.connected v) p p

  set_presence-IsTimed : (v : Bool) (s : Client) → IsTimed s → IsTimed (set_presence v s)
  unfolding set_presence
  set_presence-IsTimed v s p = either_way IsTimed (same_bool s.presence v) p p

  set_client_state-IsTimed :
      (v : ConnectionState) (s : Client) → IsTimed s → IsTimed (set_client_state v s)
  unfolding set_client_state
  set_client_state-IsTimed v s p = either_way IsTimed (same_state s.state v) p p

  end_stop-IsTimed : (s : Client) → IsTimed (end_stop s)
  unfolding end_stop find_ping
  end_stop-IsTimed s =
      set_client_state-IsTimed _ _
        (set_presence-IsTimed _ _ (set_connected-IsTimed _ _ (λ h. ground arith)))

  join-IsTimed : (s : Client) → IsTimed s → IsTimed (join s)
  unfolding join
  join-IsTimed s p = either_way IsTimed (is_joined s.worker) (end_stop-IsTimed s) p

  begin_stop-IsTimed : (s : Client) → s.caller ≡ free → IsTimed s → IsTimed (begin_stop s)
  unfolding begin_stop set_client_state
  begin_stop-IsTimed s at p = λ h. let timed = p (ground arith) in ground arith

  publish_command_payload-IsTimed :
      (fields : Fields) (accepted : Bool) (s : Client)
      → IsTimed s
      → IsTimed (publish_command_payload fields accepted s).1
  unfolding publish_command_payload
  publish_command_payload-IsTimed fields accepted s p =
      either_way {A = Bool × Client} (λ r. IsTimed r.1) (can_publish s && accepted) p p

  -- A window that is free owes no timer.
  timed_when_free :
      (s : Client)
      → s.caller ≡ free
      → IsTimed s
      → is_pending s.pending_pings ≡ true
      → has_timer id s.timers || false ≡ true
  timed_when_free s at p = λ h. let timed = p h in ground arith

  ping_publish-IsTimed :
      (other : Text) (accepted : Bool) (s : Client)
      → s.caller ≡ free
      → IsTimed s
      → IsTimed (ping_publish other accepted s)
  unfolding ping_publish
  ping_publish-IsTimed other accepted s at p =
      either_way IsTimed (can_publish s && accepted) (timed_when_free s at p) p

  ping_register-IsTimed :
      (other : Text) (now_ms : ℕ) (s : Client)
      → s.caller ≡ in_ping other
      → IsTimed s
      → IsTimed (ping_register other now_ms s)
  unfolding ping_register find_ping
  ping_register-IsTimed other now_ms s at p =
      λ h. ground (arith, p, erase_ping-shrinks other s.pending_pings)

  ping_show-IsTimed :
      (other : Text) (s : Client)
      → s.caller ≡ in_show other
      → IsTimed s
      → IsTimed (ping_show other s)
  unfolding ping_show
  ping_show-IsTimed other s at p = λ h. let timed = p h in ground arith

  after_timeout :
      (other : Text) (s : Client)
      → IsTimed s
      → is_pending (erase_ping other s.pending_pings) ≡ true
      → has_timer id (remove_timer other s.timers) || showing s.caller ≡ true
  after_timeout other s p h = elim (Bool-cases (text_eq other id)) [
    | inl same ↦
        let gone =
          subst (λ k. is_pending (erase_ping k s.pending_pings) ≡ false)
            (sym (text_eq_sound other id same)) (erase_ping-erases s.pending_pings) in
        cc
    | inr other_id ↦
        let timed = p (erase_ping-shrinks other s.pending_pings h) in
        ground (arith, remove_timer-other other s.timers other_id)
  ]

  fire_timer-IsTimed : (other : Text) (s : Client) → IsTimed s → IsTimed (fire_timer other s)
  unfolding fire_timer handle_ping_timeout
  fire_timer-IsTimed other s p =
      either_way IsTimed (has_timer other s.timers)
        (either_way IsTimed (not (is_some (find_ping other s.pending_pings)) || s.stop)
          (after_timeout other s p) (after_timeout other s p))
        p

  set_config-IsTimed : (cfg : MqttGuiConfig) (s : Client) → IsTimed s → IsTimed (set_config cfg s)
  unfolding set_config
  set_config-IsTimed cfg s p = p

  start-IsTimed : IsTimed start_client
  unfolding start_client find_ping
  start-IsTimed h = ground arith

  run_events-IsTimed :
      {V : Type 0} (json : QJson V) (es : List Event) → IsTimed (run_events json es start_client)
  run_events-IsTimed json es =
      run_events-keeps json IsTimed
        (work-keeps json IsTimed set_connected-IsTimed set_presence-IsTimed set_client_state-IsTimed
          (λ w s p. p) (λ v s p. p)
          (handle_message-keeps json IsTimed set_presence-IsTimed (λ signal r s p. p)
            (λ type other is_ok now_ms s p. settle_ack-IsTimed type other is_ok _ now_ms s p)))
        set_config-IsTimed
        (connect_to_broker-keeps IsTimed set_connected-IsTimed set_presence-IsTimed
          set_client_state-IsTimed (λ w s p. p) (λ v s p. p))
        begin_stop-IsTimed (λ s at p. join-IsTimed s p) publish_command_payload-IsTimed
        ping_publish-IsTimed ping_register-IsTimed ping_show-IsTimed fire_timer-IsTimed es
        start_client start-IsTimed

  handle_ping_timeout-not_pending :
      (s : Client) → is_pending (handle_ping_timeout id s).pending_pings ≡ false
  unfolding handle_ping_timeout
  handle_ping_timeout-not_pending s =
      either_way (λ (t : Client). is_pending t.pending_pings ≡ false)
        (not (is_some (find_ping id s.pending_pings)) || s.stop) (erase_ping-erases s.pending_pings)
        (erase_ping-erases s.pending_pings)

  untimed-not_pending :
      (s : Client)
      → s.caller ≡ free
      → IsTimed s
      → has_timer id s.timers ≡ false
      → is_pending s.pending_pings ≡ false
  untimed-not_pending s at p untimed = elim (Bool-cases (is_pending s.pending_pings)) [
    | inl pending ↦ let timed = p pending in ground arith
    | inr not_pending ↦ not_pending
  ]

  -- The timer ends a ping that is timed, whether it was still pending or not.
  fire_timer-not_pending :
      (s : Client)
      → s.caller ≡ free
      → IsTimed s
      → is_pending (fire_timer id s).pending_pings ≡ false
  unfolding fire_timer
  fire_timer-not_pending s at p = go (has_timer id s.timers) refl
    where
      go :
          (b : Bool)
          → has_timer id s.timers ≡ b
          → is_pending
              (if b
                then handle_ping_timeout id (record s { timers = remove_timer id s.timers })
                else s).pending_pings
            ≡ false
      go true timed = handle_ping_timeout-not_pending _
      go false untimed = untimed-not_pending s at p untimed

  -- Whatever the two threads did: when the window is free as the time of a ping is over, the ping is
  -- pending no more after that, be it that its timer ends it, or that it was not pending.
  pub times_out-not_pending :
      {V : Type 0} (json : QJson V) (es : List Event)
      → (run_events json es start_client).caller ≡ free
      → is_pending (step json (times_out id) (run_events json es start_client)).pending_pings
        ≡ false
  unfolding step
  times_out-not_pending json es is_free =
      let s = run_events json es start_client in
      subst (λ c. is_pending (when_free c (fire_timer id) s).pending_pings ≡ false) (sym is_free)
        (fire_timer-not_pending s is_free (run_events-IsTimed json es))
