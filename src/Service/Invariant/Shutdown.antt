-- ===== src/Service/Invariant/Shutdown.antt =====
-- The invariant and what follows the loop of `run`.
use ironsoft.Prelude.{
  ◌+◌, ◌≡◌, refl, sym, subst, inl, inr, Bool, true, false, if◌then◌else◌, arith, Bool-cases,
}
use ironsoft.Text.{lit}
use ironsoft.Service.State.{Service, Setup, mono_ms_of}
use ironsoft.Service.Steps.{
  Order, Steps, Steps-pure, Steps-throw, Steps-gets, Steps-ask, Steps-bind, Steps-catch,
  Steps-modify, Steps-if,
}
use ironsoft.Service.Yields.{Yields-pure, Yields-if, Yields-Steps}
use ironsoft.Service.Exec.{
  expect, Context, Outcome, done, thrown, Failure, continue, pure, skip, gets, ◌>>=◌, ◌>>◌, publish,
}
use ironsoft.Service.Health.{set_state}
use ironsoft.Service.Publish.{rate_limited, publish_presence, publish_status}
use ironsoft.Service.Invariant.{Inv, Keep, keep}
use ironsoft.Service.Invariant.Sensor.{handle_sensor_disconnect-I}
use ironsoft.Service.Invariant.Rest.{publish_offline-Inv}
use ironsoft.Service.Loop.{with_disconnection, disconnect, shutdown}
use ironsoft.Service.Loop.Leaving.{presence-again, presence-now, presence-fails}

-- The invariant of a service that is not online.
abbrev Silent : Setup → Service → Type 0
Silent setup s = Inv setup s × (s.link.presence_online ≡ false)

abbrev Hush : Setup → Service → Service → Type 0
Hush setup s t = Silent setup s → Silent setup t

Hush-Order : (setup : Setup) → Order (Hush setup)
Hush-Order setup = record {
  refl_of = λ s h. h;
  trans_of = λ s t u f g h. g (f h);
  tick_of = λ s h. ground arith;
}

-- The service is not online where the action returned.
abbrev Silenced : Outcome (Unit {0}) × Service → Type 0
Silenced (done a, t) = t.link.presence_online ≡ false
Silenced (thrown f, t) = Unit

module _ {V : Type 0} (c : Context V) where
  open c use {setup, env}

  abbrev h : Order (Hush setup)
  h = Hush-Order setup

  thrown-Silenced : (r : Outcome (Unit {0}) × Service) (f : Failure) → r.0 ≡ thrown f → Silenced r
  thrown-Silenced (done a, t) f e = cc
  thrown-Silenced (thrown g, t) f e = tt

  publish_presence-Silenced :
      (s : Service)
      → s.link.connected ≡ true
      → Silenced (publish_presence c false (lit "shutdown") s)
  unfolding rate_limited
  publish_presence-Silenced s connected =
      let t = record s { tick = s.tick + 1 } in
      elim (Bool-cases (rate_limited false (mono_ms_of (env.steady_ns s.tick)) t)) [
        | inl e ↦ subst Silenced (sym (presence-again c s connected e)) (ground arith)
        | inr e ↦ elim (Bool-cases (env.publishes (s.tick + 1 + 1))) [
          | inl accepted ↦ subst Silenced (sym (presence-now c s connected e accepted)) refl
          | inr refused ↦ thrown-Silenced _ _ (presence-fails c s connected e refused)
        ]
      ]

  publish_status-Hush : Steps (Hush setup) (publish_status c)
  unfolding publish_status publish
  publish_status-Hush = Steps-bind h (Steps-gets h _) λ connected.
      Steps-bind h (Steps-gets h _) λ payload. Steps-if _ (Steps-pure h _) (
        Steps-bind h (Steps-ask h _)
          λ accepted. Steps-if accepted (Steps-modify _ λ s k. ground arith) (Steps-throw h _))

  disconnect-Hush : Steps (Hush setup) (disconnect c)
  unfolding disconnect expect with_disconnection set_state
  disconnect-Hush = Steps-bind h (Steps-gets h _) λ connected. Steps-if _ (Steps-pure h _) (
      Steps-catch h
        (Steps-bind h
          (Steps-bind h (Steps-ask h _)
            λ succeeded. Steps-if succeeded (Steps-pure h _) (Steps-throw h _))
          λ _.
            Steps-bind h (Steps-modify _ λ s k. ground arith)
              λ _. Steps-modify _ λ s k. ground arith)
        (Steps-pure h _))

  after_presence :
      (r : Outcome (Unit {0}) × Service)
      → Inv setup r.1
      → Silenced r
      → Inv setup (continue r.0 (λ _. publish_status c >> disconnect c) r.1).1
  after_presence (done a, t) inv silent =
      ((Steps-bind h publish_status-Hush λ _. disconnect-Hush).at t (inv, silent)).0
  after_presence (thrown f, t) inv silent = inv

  goodbye-Inv :
      (b : Bool) (s : Service)
      → s.link.connected ≡ b
      → Inv setup s
      → Inv setup
          ((if b
              then (do publish_presence c false (lit "shutdown"); publish_status c; disconnect c)
              else skip)
            s).1
  unfolding ◌>>=◌ pure
  goodbye-Inv true s connected inv =
      after_presence (publish_presence c false (lit "shutdown") s)
        ((publish_offline-Inv c (lit "shutdown")).at s inv) (publish_presence-Silenced s connected)
  goodbye-Inv false s connected inv = inv

  pub shutdown-Inv : Steps (Keep setup) (shutdown c)
  unfolding shutdown ◌>>=◌ gets
  shutdown-Inv =
      let k = keep c in
      Steps-bind k (Steps-gets k _) λ sensor.
        Steps-bind k
          (Yields-Steps (Yields-if sensor (handle_sensor_disconnect-I c) (Yields-pure _)))
          λ _. record { at = λ s inv. goodbye-Inv s.link.connected s refl inv }
