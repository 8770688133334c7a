-- ===== src/Service/Sensor/Deferral.antt =====
-- The sensor session while the device records.
use ironsoft.Prelude.{
  ℕ, ◌≡◌, sym, ◌∙◌, Bool, true, false, not, ◌&&◌, Option, none, some, if◌then◌else◌, arith,
}
use ironsoft.Text.{Text}
use ironsoft.Udp.{UdpSession, SbgPoll, poll, poll_error, received_at}
use ironsoft.Service.State.{Service}
use ironsoft.Service.Yields.{
  Yields, Yields-pure, Yields-gets, Yields-ask, Yields-bind, Yields-modify, Yields-if,
  Yields-weaken, Yields-known,
}
use ironsoft.Service.Exec.{Context, gets, modify, skip, ask, ◌>>=◌, ◌>>◌, unix_ts}
use ironsoft.Service.Health.{update_link_health, with_link_health, set_error}
use ironsoft.Service.Sensor.{
  clear_rx_timeout_error, handle_sensor_rx_timeout, handle_sensor_rx_recovered, poll_sensor,
  after_poll, poll_session, recording_now, set_sensor, handle_sensor_disconnect,
}

-- A connected sensor, over an open session.
abbrev Kept : Service → Type 0
Kept s = (s.sensor.sensor_connected ≡ true) × (s.sensor.udp_session.connected ≡ true)

module _ {V : Type 0} (c : Context V) where
  open c use {setup, env}

  clear_rx_timeout_error-Kept : Yields Kept Kept (clear_rx_timeout_error c)
  unfolding clear_rx_timeout_error unix_ts
  clear_rx_timeout_error-Kept = Yields-bind (Yields-gets _) λ active. Yields-if _ (Yields-pure _) (
      Yields-bind {Q = Kept} (Yields-modify _ λ s h. h) λ _. Yields-bind (Yields-gets _) λ shown.
        Yields-if shown
          (Yields-bind {Q = Kept} (Yields-ask _ λ s h. h) λ ts. Yields-modify _ λ s h. ground arith)
          (Yields-pure _))

  set_error-Kept : (t : Text) → Yields Kept Kept (set_error c t)
  unfolding set_error unix_ts
  set_error-Kept t =
      Yields-bind {Q = Kept} (Yields-modify _ λ s h. h)
        λ _. Yields-bind {Q = Kept} (Yields-ask _ λ s h. h) λ ts. Yields-modify _ λ s h. h

  update_link_health-Kept : (now_ms : ℕ) → Yields Kept Kept (update_link_health c now_ms)
  unfolding update_link_health with_link_health
  update_link_health-Kept now_ms = Yields-modify _ λ s h. h

  rx_timeout-Kept : (now_ms : ℕ) → Yields Kept Kept (handle_sensor_rx_timeout c true now_ms)
  unfolding handle_sensor_rx_timeout
  rx_timeout-Kept now_ms = Yields-bind {Q = Kept} (Yields-modify _ λ s h. h) λ _.
      Yields-bind (update_link_health-Kept _) λ _. Yields-bind (Yields-gets _) λ streak.
        Yields-bind (Yields-gets _) λ active.
          Yields-bind (Yields-if _ (set_error-Kept _) (Yields-pure _))
            λ _. Yields-if _ (Yields-pure _) (Yields-modify {Q = Kept} _ λ s h. h)

  rx_recovered-Kept : (now_ms : ℕ) → Yields Kept Kept (handle_sensor_rx_recovered c now_ms)
  unfolding handle_sensor_rx_recovered
  rx_recovered-Kept now_ms = Yields-bind {Q = Kept} (Yields-modify _ λ s h. h) λ _.
      Yields-bind (Yields-gets _) λ ok_streak. Yields-bind (Yields-gets _) λ fail_streak.
        Yields-bind
          (Yields-if _
            (Yields-bind {Q = Kept} (Yields-modify _ λ s h. h) λ _. clear_rx_timeout_error-Kept)
            (Yields-pure _))
          λ _. Yields-bind {Q = Kept} (Yields-modify _ λ s h. h) λ _. update_link_health-Kept _

  polled_well :
      (sbg : SbgPoll) (u : UdpSession)
      → poll_error sbg.status ≡ none
      → u.connected ≡ true
      → (poll sbg u).1 ≡ none
  unfolding poll
  polled_well sbg u e h = ground (arith, e)

  received_at-open :
      (r : Option ℕ) (u : UdpSession) → u.connected ≡ true → (received_at r u).connected ≡ true
  received_at-open none u h = h
  received_at-open (some t) u h = h

  polled_open :
      (sbg : SbgPoll) (u : UdpSession) → u.connected ≡ true → (poll sbg u).0.connected ≡ true
  unfolding poll
  polled_open sbg u h = let kept = received_at-open sbg.received u h in ground arith

  after_poll-Kept :
      (now_ms : ℕ) (u : UdpSession) (err : Option Text)
      → err ≡ none
      → Yields Kept Kept (after_poll c now_ms true u err)
  after_poll-Kept now_ms u (some err) e = absurd cc
  after_poll-Kept now_ms u none e = Yields-if _ (rx_recovered-Kept now_ms) (rx_timeout-Kept now_ms)

  module _ (works : (n : ℕ) → poll_error (env.sbg_poll n).status ≡ none) where
    poll_session-Kept : (now_ms : ℕ) → Yields Kept Kept (poll_session c now_ms true)
    unfolding ask gets modify ◌>>=◌
    poll_session-Kept now_ms = record {
      at = λ s h.
          (after_poll-Kept now_ms _ _
              (polled_well (env.sbg_poll s.tick) s.sensor.udp_session (works s.tick) h.1)).at
            _ (h.0, polled_open (env.sbg_poll s.tick) s.sensor.udp_session h.1);
    }

    poll_known-Kept :
        (connected recording_flag needed : Bool) (now_ms : ℕ)
        → Yields
            (λ s. Kept s × ((s.sensor.sensor_connected ≡ connected) × (recording_flag ≡ true)))
            Kept
            (if not connected
              then skip
              else if needed && not recording_flag
              then (modify (set_sensor λ x. record x { sensor_reconnect_needed = false })
                  >> handle_sensor_disconnect c)
              else poll_session c now_ms recording_flag)
    poll_known-Kept false flag needed now_ms = Yields-weaken (λ s h. h.0) (Yields-pure _)
    poll_known-Kept true true true now_ms = Yields-weaken (λ s h. h.0) (poll_session-Kept now_ms)
    poll_known-Kept true true false now_ms = Yields-weaken (λ s h. h.0) (poll_session-Kept now_ms)
    poll_known-Kept true false needed now_ms = record { at = λ s h. absurd (cc (h.1.1)) }

    poll_sensor-Yields :
        (now : ℕ) → Yields (λ s. Kept s × (recording_now s ≡ true)) Kept (poll_sensor c now)
    unfolding poll_sensor
    poll_sensor-Yields now = Yields-known _ λ connected. Yields-known _ λ flag.
        Yields-bind (Yields-gets _) λ needed.
          Yields-weaken (λ s h. (h.0.0.0, (h.0.1, sym h.1 ∙ h.0.0.1)))
            (poll_known-Kept connected flag needed _)

    -- While the device records and sbgECom reports no error, polling leaves a sensor connected that was
    -- connected over an open session, and the session open, however long nothing is received.
    pub poll_sensor-keeps_session :
        (now : ℕ) (s : Service)
        → s.sensor.sensor_connected ≡ true
        → s.sensor.udp_session.connected ≡ true
        → recording_now s ≡ true
        → ((poll_sensor c now s).1.sensor.sensor_connected ≡ true)
          × ((poll_sensor c now s).1.sensor.udp_session.connected ≡ true)
    poll_sensor-keeps_session now s h u flag = ((poll_sensor-Yields now).at s ((h, u), flag)).1
