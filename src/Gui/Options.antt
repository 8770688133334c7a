-- ===== src/Gui/Options.antt =====
-- How `workerLoop` of gui/src/mqtt_paho_client.cpp sets the MQTT client up.
use ironsoft.Prelude.{true, none, ◌++◌, max}
use ironsoft.Prelude.Int.{pos}
use ironsoft.Text.{lit}
use ironsoft.Mqtt.{ConnectOptions, tcp_uri, filled, filled_with}
use ironsoft.Gui.Config.{MqttGuiConfig}

unfoldable pub client_options : MqttGuiConfig → ConnectOptions
client_options cfg = record {
  server_uri = tcp_uri cfg.host (pos cfg.port);
  client_id = lit "ironsoft-gui-" ++ cfg.drone_id;
  clean_session = true;
  keep_alive_s = pos (max 1 cfg.keepalive_s);
  user_name = filled cfg.user;
  password = filled_with cfg.user cfg.pass;
  ssl = none;
}
