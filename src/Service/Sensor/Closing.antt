-- ===== src/Service/Sensor/Closing.antt =====
-- The session of a sensor is closed, and the error of a receive timeout is cleared.
use ironsoft.Prelude.{◌≡◌, refl, Bool, true, false, not, arith, ◌∙◌}
use ironsoft.Text.{lit, text_eq}
use ironsoft.Udp.{UdpSession, close}
use ironsoft.Service.State.{Service}
use ironsoft.Service.Yields.{
  Yields, Yields-pure, Yields-ask, Yields-bind, Yields-modify, Yields-weaken, Yields-known,
  Yields-branch,
}
use ironsoft.Service.Exec.{Context, unix_ts, mono_ms, steady_now}
use ironsoft.Service.Health.{update_link_health, with_link_health}
use ironsoft.Service.Sensor.{clear_rx_timeout_error, handle_sensor_disconnect, set_udp_link_alive}

module _ {V : Type 0} (c : Context V) where
  open c use {setup, env}

  -- The error of a receive timeout is shown only while it is active.
  abbrev pub IsMarked : Service → Type 0
  IsMarked s =
      text_eq s.status.last_error (lit "rx timeout") ≡ true
      → s.sensor.rx_timeout_error_active ≡ true

  abbrev Unshown : Service → Type 0
  Unshown s = text_eq s.status.last_error (lit "rx timeout") ≡ false

  -- The session is closed for a new attempt, and no error tells why.
  pub record GivenUp (s : Service) : Type 0 where
    sensor_connected : s.sensor.sensor_connected ≡ false
    session_closed : s.sensor.udp_session.connected ≡ false
    link_alive : s.status.link_alive ≡ false
    unshown : text_eq s.status.last_error (lit "rx timeout") ≡ false

  quiet_error : (b active : Bool) → (b ≡ true → active ≡ true) → active ≡ false → b ≡ false
  quiet_error true active h e = let on = h refl in cc
  quiet_error false active h e = refl

  off : (b : Bool) → not b ≡ true → b ≡ false
  off b h = ground arith

  clear_rx_timeout_error-Unshown : Yields IsMarked Unshown (clear_rx_timeout_error c)
  unfolding clear_rx_timeout_error unix_ts text_eq lit
  clear_rx_timeout_error-Unshown = Yields-known _ λ active.
      Yields-branch (not active)
        (λ e.
          Yields-weaken
            (λ s h.
              quiet_error (text_eq s.status.last_error (lit "rx timeout"))
                s.sensor.rx_timeout_error_active h.0 (h.1 ∙ off active e))
            (Yields-pure _))
        λ e. Yields-bind {Q = λ s. Unit} (Yields-modify _ λ s h. tt) λ _. Yields-known _ λ shown.
          Yields-branch shown
            (λ e.
              Yields-bind {Q = λ s. Unit} (Yields-ask _ λ s h. tt)
                λ ts. Yields-modify _ λ s h. refl)
            λ e. Yields-weaken (λ s h. h.1 ∙ e) (Yields-pure _)

  abbrev Shut : Service → Type 0
  Shut s =
      Unshown s × ((s.sensor.sensor_connected ≡ false) × (s.sensor.udp_session.connected ≡ false))

  closed : (v : UdpSession) → (close v).connected ≡ false
  unfolding close
  closed v = ground arith

  pub handle_sensor_disconnect-GivenUp : Yields IsMarked GivenUp (handle_sensor_disconnect c)
  unfolding handle_sensor_disconnect set_udp_link_alive update_link_health with_link_health mono_ms
      steady_now
  handle_sensor_disconnect-GivenUp =
      Yields-bind
        (Yields-bind {Q = IsMarked} (Yields-modify _ λ s h. h) λ _. clear_rx_timeout_error-Unshown)
        λ _.
          Yields-bind {Q = Shut} (Yields-modify _ λ s h. (h, (refl, closed s.sensor.udp_session)))
            λ _.
              Yields-bind {Q = GivenUp}
                (Yields-bind {Q = Shut} (Yields-modify _ λ s h. h) λ _.
                  Yields-bind {Q = Shut}
                    (Yields-bind {Q = Shut} (Yields-ask _ λ s h. h) λ now. Yields-pure _)
                    λ now_ms. Yields-modify _ λ s h. record {
                      sensor_connected = h.1.0;
                      session_closed = h.1.1;
                      link_alive = ground arith;
                      unshown = h.0;
                    })
                λ _.
                  Yields-bind {Q = GivenUp}
                    (Yields-ask _ λ s h. record {
                      sensor_connected = h.sensor_connected;
                      session_closed = h.session_closed;
                      link_alive = h.link_alive;
                      unshown = h.unshown;
                    })
                    λ now. Yields-modify _ λ s h. record {
                      sensor_connected = h.sensor_connected;
                      session_closed = h.session_closed;
                      link_alive = h.link_alive;
                      unshown = h.unshown;
                    }
