-- ===== src/Service/Invariant/Session.antt =====
-- Opening and polling the sensor session never throw, and keep the invariant.
use ironsoft.Prelude.{
  ℕ, ◌≡◌, refl, Bool, true, false, not, Option, none, some, arith, if◌then◌else◌, ◌&&◌,
}
use ironsoft.Text.{Text, lit}
use ironsoft.Udp.{
  UdpConfig, UdpSession, SbgOpening, SbgPoll, SbgErrorCode, no_error, not_ready, invalid_parameter,
  null_pointer, time_out, general_error, other_code, opened, open_session, close, poll,
}
use ironsoft.Service.State.{Service}
use ironsoft.Service.Yields.{
  Returned, Yields, Yields-pure, Yields-gets, Yields-ask, Yields-bind, Yields-modify, Yields-if,
  Yields-weaken, Yields-known,
}
use ironsoft.Service.Exec.{Context, modify, skip, ◌>>◌, mono_ms, steady_now}
use ironsoft.Service.Sensor.{
  next_backoff, handle_sensor_disconnect, after_open, attempt_session, no_sensor, after_poll,
  poll_session, open_udp, ensure_sensor_session, poll_sensor, set_sensor,
}
use ironsoft.Service.Invariant.{Inv}
use ironsoft.Service.Invariant.Sensor.{
  I, M, C, forget, update_link_health-I, set_error-I, clear_rx_timeout_error-I,
  set_udp_link_alive-I, handle_sensor_disconnect-I, handle_sensor_error-I,
  handle_sensor_rx_timeout-I, handle_sensor_rx_recovered-I,
}

module _ {V : Type 0} (c : Context V) where
  open c use {setup}

  inner : (s : Service) → I c s → M c s
  inner s h = ground arith

  opened_live :
      (create init : SbgErrorCode) (now_ms : ℕ) (u : UdpSession)
      → (opened create init now_ms u).1 ≡ none
      → (opened create init now_ms u).0.connected ≡ true
  opened_live no_error no_error now_ms u h = refl
  opened_live no_error not_ready now_ms u h = cc
  opened_live no_error invalid_parameter now_ms u h = cc
  opened_live no_error null_pointer now_ms u h = cc
  opened_live no_error time_out now_ms u h = cc
  opened_live no_error general_error now_ms u h = cc
  opened_live no_error (other_code n) now_ms u h = cc
  opened_live not_ready init now_ms u h = cc
  opened_live invalid_parameter init now_ms u h = cc
  opened_live null_pointer init now_ms u h = cc
  opened_live time_out init now_ms u h = cc
  opened_live general_error init now_ms u h = cc
  opened_live (other_code n) init now_ms u h = cc

  fresh_live :
      (valid : Bool) (create init : SbgErrorCode) (now_ms : ℕ) (u : UdpSession)
      → (if not valid then (u, some (lit "invalid ip")) else opened create init now_ms u).1 ≡ none
      → (if not valid
          then (u, some (lit "invalid ip"))
          else opened create init now_ms u).0.connected
        ≡ true
  fresh_live false create init now_ms u h = cc
  fresh_live true create init now_ms u h = opened_live create init now_ms u h

  opened_session :
      (sbg : SbgOpening) (now_ms : ℕ) (cfg : UdpConfig) (u : UdpSession)
      → (open_session sbg now_ms cfg u).1 ≡ none
      → (open_session sbg now_ms cfg u).0.connected ≡ true
  unfolding open_session
  opened_session sbg now_ms cfg u h =
      fresh_live sbg.ip_valid sbg.create sbg.init now_ms
        (record (close u) { config = cfg; last_rx_ms = 0 }) h

  -- An attempt is made without a session, and what it opened is connected.
  abbrev D : Service → Type 0
  D s = I c s × ((s.sensor.sensor_connected ≡ false) × (setup.has_sbg ≡ true))

  abbrev Opened : Option Text → Service → Type 0
  Opened err s = D s × (err ≡ none → s.sensor.udp_session.connected ≡ true)

  after_open-I : (now : ℕ) (err : Option Text) → Yields (Opened err) (I c) (after_open c now err)
  unfolding next_backoff
  after_open-I now (some err) = Yields-bind (Yields-weaken (λ s h. h.0.0) (set_error-I c _)) λ _.
      Yields-bind (Yields-weaken inner (set_udp_link_alive-I c false))
        λ _. Yields-modify _ λ s h. ground arith
  after_open-I now none =
      Yields-bind {Q = I c} (Yields-modify _ λ s h. let live = h.1 refl in ground arith)
        λ _. Yields-bind (clear_rx_timeout_error-I c) λ _. Yields-modify _ λ s h. ground arith

  open_udp-I : (now : ℕ) → Yields D (I c) (open_udp c now)
  unfolding open_udp mono_ms steady_now
  open_udp-I now = Yields-bind {Q = D} (Yields-ask _ λ s h. ground arith) λ sbg.
      Yields-bind {Q = D}
        (Yields-bind {Q = D} (Yields-ask _ λ s h. ground arith) λ now. Yields-pure _)
        λ opened_ms. Yields-bind (Yields-gets _) λ u.
          Yields-bind {Q = Opened (open_session sbg opened_ms setup.udp_config u).1}
            (Yields-modify _ λ s h. (ground arith, opened_session sbg opened_ms _ u))
            λ _. after_open-I now _

  attempt_session-I : (now : ℕ) → Yields D (I c) (attempt_session c now)
  attempt_session-I now = Yields-bind {Q = D} (Yields-modify _ λ s h. ground arith) λ _.
      Yields-bind (Yields-gets _)
        λ due. Yields-if _ (Yields-weaken (λ s h. h.0) (Yields-pure _)) (open_udp-I now)

  no_sensor-I : setup.has_sbg ≡ false → (now : ℕ) → Yields (I c) (I c) (no_sensor c now)
  no_sensor-I off now = Yields-bind {Q = M c} (Yields-modify _ λ s h. ground arith) λ _.
      Yields-bind (update_link_health-I c _) λ _. Yields-bind (Yields-gets _) λ reported.
        Yields-if _ (Yields-pure _)
          (Yields-bind {Q = I c} (Yields-modify _ λ s h. ground arith) λ _. set_error-I c _)

  abbrev E : Bool → Service → Type 0
  E b s = I c s × (s.sensor.sensor_connected ≡ b)

  ensure_known-I :
      (has_sbg connected : Bool) (now : ℕ)
      → setup.has_sbg ≡ has_sbg
      → Yields (E connected) (I c) (
          if not has_sbg
          then no_sensor c now
          else if connected
          then skip
          else attempt_session c now)
  ensure_known-I false connected now e = Yields-weaken (λ s h. h.0) (no_sensor-I e now)
  ensure_known-I true true now e = Yields-weaken (λ s h. h.0) (Yields-pure _)
  ensure_known-I true false now e = Yields-weaken (λ s h. (h.0, (h.1, e))) (attempt_session-I now)

  -- Opening the sensor session never throws, and keeps the invariant.
  pub ensure_sensor_session-I : (now : ℕ) → Yields (I c) (I c) (ensure_sensor_session c now)
  unfolding ensure_sensor_session
  ensure_sensor_session-I now = Yields-known _ λ connected. ensure_known-I _ connected now refl

  polled_session :
      (sbg : SbgPoll) (u : UdpSession) → u.connected ≡ true → (poll sbg u).0.connected ≡ true
  unfolding poll
  polled_session sbg u h = ground arith

  after_poll-I :
      (now_ms : ℕ) (flag : Bool) (u : UdpSession) (err : Option Text)
      → Yields (C c) (I c) (after_poll c now_ms flag u err)
  after_poll-I now_ms flag u (some err) =
      Yields-bind
        (forget c (
          Yields-bind {Q = I c} (Yields-modify _ λ s h. ground arith)
            λ _. clear_rx_timeout_error-I c))
        λ _. handle_sensor_error-I c err
  after_poll-I now_ms flag u none =
      Yields-if _ (handle_sensor_rx_recovered-I c now_ms) (handle_sensor_rx_timeout-I c flag now_ms)

  poll_session-I : (now_ms : ℕ) (flag : Bool) → Yields (C c) (I c) (poll_session c now_ms flag)
  poll_session-I now_ms flag = Yields-bind {Q = C c} (Yields-ask _ λ s h. ground arith) λ sbg.
      Yields-known _ λ u.
        Yields-bind {Q = C c}
          (Yields-modify _ λ s h.
            let opened_now = h.0.0.session_open h.0.1 in
            let live = polled_session sbg u cc in ground arith)
          λ _. after_poll-I now_ms flag _ _

  poll_known-I :
      (connected needed : Bool) (now : ℕ) (flag : Bool)
      → Yields (E connected) (I c) (
          if not connected
          then skip
          else if needed && not flag
          then (modify (set_sensor λ x. record x { sensor_reconnect_needed = false })
              >> handle_sensor_disconnect c)
          else poll_session c now flag)
  poll_known-I false needed now flag = Yields-weaken (λ s h. h.0) (Yields-pure _)
  poll_known-I true needed now flag =
      Yields-if _
        (Yields-bind {Q = I c} (Yields-modify _ λ s h. ground arith)
          λ _. handle_sensor_disconnect-I c)
        (poll_session-I now flag)

  -- Polling the sensor session never throws, and keeps the invariant.
  pub poll_sensor-I : (now : ℕ) → Yields (I c) (I c) (poll_sensor c now)
  unfolding poll_sensor
  poll_sensor-I now = Yields-known _ λ connected.
      Yields-bind (Yields-gets _)
        λ flag. Yields-bind (Yields-gets _) λ needed. poll_known-I connected _ _ _

  -- In a state where the invariant holds, opening the sensor session and polling it return without an
  -- exception, whatever sbgECom answers, and leave the invariant in place.
  sensor-Returned :
      (now : ℕ) (s : Service)
      → Inv setup s
      → Returned ((ensure_sensor_session c now >> poll_sensor c now) s).0
        × Inv setup ((ensure_sensor_session c now >> poll_sensor c now) s).1
  sensor-Returned now s h =
      (Yields-bind (ensure_sensor_session-I now) λ _. poll_sensor-I now).at s h
