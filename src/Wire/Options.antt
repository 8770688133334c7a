-- ===== src/Wire/Options.antt =====
-- The connections of the three programs to their broker.
use ironsoft.Prelude.{ℕ, ◌≡◌, ◌≢◌, refl, false}
use ironsoft.Prelude.Int.{pos}
use ironsoft.Text.{lit, is_empty, text_eq, eq_of_tests}
use ironsoft.Mqtt.{ConnectOptions}
use ironsoft.Config.{EkinoxConfig}
use ironsoft.Service.Options.{make_client_id, service_options}
use ironsoft.Backend.State.{MqttConfig}
use ironsoft.Backend.Options.{backend_options}
use ironsoft.Gui.Config.{MqttGuiConfig}
use ironsoft.Gui.Options.{client_options}

-- Configurations for the same broker, with the same user.
pub record SameBroker (service : EkinoxConfig) (backend : MqttConfig) (gui : MqttGuiConfig)
    : Type 0 where
  pub backend_host : backend.host ≡ service.mqtt.host
  pub gui_host : gui.host ≡ service.mqtt.host
  pub backend_port : backend.port ≡ pos service.mqtt.port
  pub gui_port : gui.port ≡ service.mqtt.port
  pub backend_user : backend.username ≡ service.mqtt.username
  pub gui_user : gui.user ≡ service.mqtt.username
  pub backend_password : backend.password ≡ service.mqtt.password
  pub gui_password : gui.pass ≡ service.mqtt.password
  pub has_user : is_empty service.mqtt.username ≡ false
  pub has_password : is_empty service.mqtt.password ≡ false

-- Two connections that reach the same broker as the same user, and are no two sessions of one client.
pub record Beside (a b : ConnectOptions) : Type 0 where
  server_uri : a.server_uri ≡ b.server_uri
  user_name : a.user_name ≡ b.user_name
  password : a.password ≡ b.password
  client_id : a.client_id ≢ b.client_id

-- With configurations for the same broker and the same user, whose name and password are not empty, the
-- service, the backend and the desktop client connect to the same address with the same user and
-- password, and with client ids that differ from one another, so that the broker closes no connection
-- of one because of another one.
pub options-Beside :
    (service : EkinoxConfig) (backend : MqttConfig) (gui : MqttGuiConfig) (now : ℕ)
    → SameBroker service backend gui
    → Beside (service_options service now) (backend_options backend)
      × Beside (service_options service now) (client_options gui)
      × Beside (backend_options backend) (client_options gui)
unfolding service_options backend_options client_options make_client_id lit text_eq
options-Beside service backend gui now same = (
  record {
    server_uri = rw (same.backend_host, same.backend_port) refl;
    user_name = rw same.backend_user refl;
    password = rw (same.backend_user, same.backend_password, same.has_user, same.has_password) refl;
    client_id = eq_of_tests _ _ refl;
  },
  record {
    server_uri = rw (same.gui_host, same.gui_port) refl;
    user_name = rw same.gui_user refl;
    password = rw (same.gui_user, same.gui_password, same.has_user, same.has_password) refl;
    client_id = eq_of_tests _ _ refl;
  },
  record {
    server_uri = rw (same.backend_host, same.backend_port, same.gui_host, same.gui_port) refl;
    user_name = rw (same.backend_user, same.gui_user) refl;
    password = rw (same.backend_user, same.gui_user, same.backend_password, same.gui_password) refl;
    client_id = eq_of_tests _ _ refl;
  },
)
