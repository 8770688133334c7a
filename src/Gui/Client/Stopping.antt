-- ===== src/Gui/Client/Stopping.antt =====
-- `stop` comes to its end, whatever the two threads do meanwhile.
use ironsoft.Prelude.{
  ℕ, ◌+◌, ◌-◌, ◌≤◌, ◌≡◌, ap, ◌∙◌, Bool, true, false, List, [], ◌∷◌, ◌++◌, arith, if◌then◌else◌,
  subst, sym,
}
use ironsoft.Gui.Json.{QJson}
use ironsoft.Gui.Status.{ConnectionState}
use ironsoft.Gui.Client.State.{
  Client, Worker, free, in_stop, set_config, no_worker, set_connected, set_presence,
  set_client_state,
}
use ironsoft.Gui.Client.Frames.{handle_message-SameSession}
use ironsoft.Gui.Client.Keeps.{work-keeps}
use ironsoft.Gui.Client.Pings.{publish_command_payload, ping_publish, ping_register, ping_show}
use ironsoft.Gui.Client.Stops.{steps_left, is_alive, work-steps_left}
use ironsoft.Gui.Client.Worker.{Answer, work, end_stop, connect_to_broker, begin_stop}
use ironsoft.Gui.Client.Events.{
  Event, works, configures, connects, stops, joins, commands, pings, registers, shows, times_out,
  step, run_events, when_free, when_pinging, when_showing, join, fire_timer,
}

-- The window is in `stop`, and the flag is set.
abbrev IsStopping : Client → Type 0
IsStopping s = (s.stop ≡ true) × (s.caller ≡ in_stop)

-- What `stop` leaves.
abbrev pub IsStopped : Client → Type 0
IsStopped s =
    (s.worker ≡ no_worker)
    × (s.caller ≡ free)
    × (s.connected ≡ false)
    × (s.presence ≡ false)
    × (s.state ≡ ConnectionState.disconnected)
    × (s.has_client ≡ false)
    × (s.pending_pings ≡ [])

set_connected-IsStopping : (v : Bool) (s : Client) → IsStopping s → IsStopping (set_connected v s)
unfolding set_connected
set_connected-IsStopping v s p = ground arith

set_presence-IsStopping : (v : Bool) (s : Client) → IsStopping s → IsStopping (set_presence v s)
unfolding set_presence
set_presence-IsStopping v s p = ground arith

set_client_state-IsStopping :
    (v : ConnectionState) (s : Client) → IsStopping s → IsStopping (set_client_state v s)
unfolding set_client_state
set_client_state-IsStopping v s p = ground arith

end_stop-IsStopped : (s : Client) → IsStopped (end_stop s)
unfolding end_stop set_client_state set_presence set_connected
end_stop-IsStopped s = ground arith

-- The steps of the worker in a sequence of events.
abbrev weight : Event → ℕ
weight (works a) = 1
weight _ = 0

abbrev pub steps_of_worker : List Event → ℕ
steps_of_worker [] = 0
steps_of_worker (e ∷ rest) = weight e + steps_of_worker rest

abbrev pub is_step_or_call : Event → Bool
is_step_or_call joins = false
is_step_or_call _ = true

abbrev pub all_before_join : List Event → Bool
all_before_join [] = true
all_before_join (e ∷ rest) = if is_step_or_call e then all_before_join rest else false

module _ {V : Type 0} (json : QJson V) where
  work-IsStopping : (a : Answer) (s : Client) → IsStopping s → IsStopping (work json a s)
  work-IsStopping =
      work-keeps json IsStopping set_connected-IsStopping set_presence-IsStopping
        set_client_state-IsStopping (λ w s p. p) (λ v s p. p)
        (λ m s p.
          let f = handle_message-SameSession json m s in (f.same_stop ∙ p.0, f.same_caller ∙ p.1))

  joins-IsStopped :
      (s : Client) → IsStopping s → steps_left s.worker ≤ 0 → IsStopped (step json joins s)
  unfolding step join
  joins-IsStopped s p none_left = let f = end_stop-IsStopped s in ground arith

  -- In `stop` the window makes no other call.
  refused :
      (s t : Client)
      → IsStopping s
      → t ≡ s
      → is_alive s.worker ≡ true
      → IsStopping t × (steps_left t.worker ≤ steps_left s.worker - 0) × (is_alive t.worker ≡ true)
  refused s t p same alive =
      subst
        (λ u.
          IsStopping u
          × (steps_left u.worker ≤ steps_left s.worker - 0)
          × (is_alive u.worker ≡ true))
        (sym same) (p, ground arith, alive)

  step-IsStopping :
      (e : Event) (s : Client)
      → IsStopping s
      → is_step_or_call e ≡ true
      → is_alive s.worker ≡ true
      → IsStopping (step json e s)
        × (steps_left (step json e s).worker ≤ steps_left s.worker - weight e)
        × (is_alive (step json e s).worker ≡ true)
  unfolding step
  step-IsStopping (works a) s p r alive =
      let (falls, living) = work-steps_left json a s p.0 alive in
      (work-IsStopping a s p, falls, living)
  step-IsStopping joins s p r alive = ground arith
  step-IsStopping (configures cfg) s p r alive =
      refused s _ p (ap (λ c. when_free c (set_config cfg) s) p.1) alive
  step-IsStopping connects s p r alive =
      refused s _ p (ap (λ c. when_free c connect_to_broker s) p.1) alive
  step-IsStopping stops s p r alive = refused s _ p (ap (λ c. when_free c begin_stop s) p.1) alive
  step-IsStopping (commands fields accepted) s p r alive =
      refused s _ p
        (ap (λ c. when_free c (λ t. (publish_command_payload fields accepted t).1) s) p.1) alive
  step-IsStopping (pings id accepted) s p r alive =
      refused s _ p (ap (λ c. when_free c (ping_publish id accepted) s) p.1) alive
  step-IsStopping (registers now_ms) s p r alive =
      refused s _ p (ap (λ c. when_pinging c (λ id. ping_register id now_ms) s) p.1) alive
  step-IsStopping shows s p r alive = refused s _ p (ap (λ c. when_showing c ping_show s) p.1) alive
  step-IsStopping (times_out id) s p r alive =
      refused s _ p (ap (λ c. when_free c (fire_timer id) s) p.1) alive

  run-IsStopped :
      (es : List Event) (s : Client)
      → IsStopping s
      → all_before_join es ≡ true
      → steps_left s.worker ≤ steps_of_worker es
      → is_alive s.worker ≡ true
      → IsStopped (run_events json (es ++ (joins ∷ [])) s)
  unfolding run_events
  run-IsStopped [] s p before enough alive = joins-IsStopped s p enough
  run-IsStopped (e ∷ rest) s p before enough alive =
      let now = step-IsStopping e s p (ground arith) alive in
      run-IsStopped rest (step json e s) now.0 (ground arith) (let closer = now.1 in ground arith)
        now.2

begin_stop-IsStopping : (s : Client) → IsStopping (begin_stop s)
unfolding begin_stop set_client_state
begin_stop-IsStopping s = ground arith

begin_stop-alive : (s : Client) → is_alive s.worker ≡ true → is_alive (begin_stop s).worker ≡ true
unfolding begin_stop set_client_state
begin_stop-alive s alive = ground arith

steps_left-le : (w : Worker) → steps_left w ≤ 9
steps_left-le w = ground arith

-- From any state in which the window is free and no exception has left the worker, a call of stop,
-- followed by nine steps of the worker or more (from the connection on: its end, seven subscriptions
-- and start_consuming), whatever the MQTT client answers to them and whatever other events are tried among them, and
-- then by the join, leaves no worker, the window free, both flags false, the state `disconnected`, no
-- MQTT client and no pending ping.
pub stops-IsStopped :
    {V : Type 0} (json : QJson V) (es : List Event) (s : Client)
    → s.caller ≡ free
    → all_before_join es ≡ true
    → 9 ≤ steps_of_worker es
    → is_alive s.worker ≡ true
    → IsStopped (run_events json (stops ∷ (es ++ (joins ∷ []))) s)
unfolding run_events step
stops-IsStopped json es s is_free before enough alive =
    subst (λ c. IsStopped (run_events json (es ++ (joins ∷ [])) (when_free c begin_stop s)))
      (sym is_free)
      (run-IsStopped json es (begin_stop s) (begin_stop-IsStopping s) before
        (let bound = steps_left-le (begin_stop s).worker in ground arith)
        (begin_stop-alive s alive))
