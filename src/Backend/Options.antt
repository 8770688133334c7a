-- ===== src/Backend/Options.antt =====
-- How the constructor of backend/src/mqtt_client.cpp sets the MQTT client up. The last will is
-- Session.last_will.
use ironsoft.Prelude.{true, none, ◌++◌}
use ironsoft.Text.{lit}
use ironsoft.Mqtt.{ConnectOptions, tcp_uri, filled, filled_with}
use ironsoft.Backend.State.{MqttConfig}

unfoldable pub backend_options : MqttConfig → ConnectOptions
backend_options cfg = record {
  server_uri = tcp_uri cfg.host cfg.port;
  client_id = lit "ironsoft-backend-" ++ cfg.drone_id;
  clean_session = true;
  keep_alive_s = cfg.keepalive_s;
  user_name = filled cfg.username;
  password = filled_with cfg.username cfg.password;
  ssl = none;
}
