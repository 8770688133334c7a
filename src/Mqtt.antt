-- ===== src/Mqtt.antt =====
-- What a program tells the Paho client about its connection: mqtt::async_client, connect_options and
-- ssl_options.
use ironsoft.Prelude.{Bool, Option, none, some, ◌++◌, if◌then◌else◌}
use ironsoft.Prelude.Int.{ℤ}
use ironsoft.Text.{Text, lit, is_empty, signed_decimal}

pub record ConnectOptions : Type 0 where
  pub server_uri : Text
  pub client_id : Text
  pub clean_session : Bool
  pub keep_alive_s : ℤ
  pub user_name : Option Text
  pub password : Option Text
  -- set_ssl, with its trust store.
  pub ssl : Option (Option Text)

-- `"tcp://" + host + ":" + std::to_string(port)`
abbrev pub tcp_uri : Text → ℤ → Text
tcp_uri host port = lit "tcp://" ++ (host ++ (lit ":" ++ signed_decimal port))

abbrev pub filled : Text → Option Text
filled text = if is_empty text then none else some text

-- The password goes with the user.
abbrev pub filled_with : Text → Text → Option Text
filled_with user password = if is_empty user then none else some password
