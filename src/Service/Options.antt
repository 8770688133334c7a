-- ===== src/Service/Options.antt =====
-- How the constructor of services/ekinox/src/ekinox_service.cpp sets the MQTT client up.
use ironsoft.Prelude.{ℕ, true, none, some, ◌++◌, if◌then◌else◌}
use ironsoft.Prelude.Int.{pos}
use ironsoft.Text.{Text, lit, decimal}
use ironsoft.Config.{EkinoxConfig}
use ironsoft.Mqtt.{ConnectOptions, tcp_uri, filled}

-- `now` is the steady clock.
unfoldable pub make_client_id : ℕ → Text
make_client_id now = lit "ekinox_service_" ++ decimal now

unfoldable pub service_options : EkinoxConfig → ℕ → ConnectOptions
service_options config now = record {
  server_uri = tcp_uri config.mqtt.host (pos config.mqtt.port);
  client_id = make_client_id now;
  clean_session = true;
  keep_alive_s = pos 20;
  user_name = filled config.mqtt.username;
  password = filled config.mqtt.password;
  ssl = if config.mqtt.tls_enabled then some (filled config.mqtt.ca_file) else none;
}
