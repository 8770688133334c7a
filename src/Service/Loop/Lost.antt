-- ===== src/Service/Loop/Lost.antt =====
-- What is left after the MQTT client reported a lost connection.
use ironsoft.Prelude.{◌≡◌, refl, false, arith}
use ironsoft.Types.{disconnected}
use ironsoft.Udp.{UdpSession, close}
use ironsoft.Service.State.{Service}
use ironsoft.Service.Exec.{
  Context, done, gets, ask, modify, pure, ◌>>=◌, mono_ms, steady_now, unix_ts,
}
use ironsoft.Service.Health.{set_state, update_link_health, with_link_health}
use ironsoft.Service.Publish.{publish_presence, defer_presence}
use ironsoft.Service.Presence.{should_online, presence_reason, update_presence_state}
use ironsoft.Service.Loop.{connection_lost, with_connection_lost}

closed : (u : UdpSession) → (close u).connected ≡ false
unfolding close
closed u = ground arith

module _ {V : Type 0} (c : Context V) where
  pub record Down (s t : Service) : Type 0 where
    connected : t.link.connected ≡ false
    presence_online : t.link.presence_online ≡ false
    announced : t.presence.online ≡ false
    link_alive : t.status.link_alive ≡ false
    state : t.status.state ≡ disconnected
    sensor_connected : t.sensor.sensor_connected ≡ false
    session_closed : t.sensor.udp_session.connected ≡ false
    successes : t.rest.rest_success_streak ≡ 0
    unsent : t.sent ≡ s.sent
    commands : t.pending_commands ≡ s.pending_commands

  -- A lost connection is handled without an exception and without a message. It leaves the service
  -- disconnected and offline, the link not alive, the sensor session closed, no success counted, and
  -- the queued commands as they were.
  pub connection_lost-Down :
      (s : Service) → ((connection_lost c s).0 ≡ done tt) × Down s (connection_lost c s).1
  unfolding connection_lost with_connection_lost update_link_health with_link_health set_state
      update_presence_state should_online presence_reason publish_presence defer_presence mono_ms
      steady_now unix_ts gets ask modify pure ◌>>=◌
  connection_lost-Down s = (
    refl,
    record {
      connected = refl;
      presence_online = refl;
      announced = refl;
      link_alive = refl;
      state = refl;
      sensor_connected = refl;
      session_closed = closed s.sensor.udp_session;
      successes = refl;
      unsent = refl;
      commands = refl;
    },
  )
