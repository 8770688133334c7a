-- ===== src/Config/Valid.antt =====
-- What holds of every configuration that the loader accepts.
use ironsoft.Prelude.{
  ℕ, ◌≤◌, ◌<◌, ◌≡◌, refl, ◌≢◌, false, true, arith, Option, Bool, [], ◌∷◌, String, subst,
  if◌then◌else◌,
}
use ironsoft.Text.{Text, lit, is_empty}
use ironsoft.Json.{Json}
use ironsoft.Config.{
  EkinoxConfig, MqttCfg, EkinoxNetCfg, EkinoxTimeouts, RestApiConfig, Result, ok, err, ◌>>=◌,
  validate_port, validate_positive_timeout, load_mqtt, load_net, read_timeout, read_timeouts,
  load_timeouts, load_rest_api, required_text, optional_port, nonempty_or, load_ekinox_config,
}

pub record IsValidMqtt (c : MqttCfg) : Type 0 where
  pub host : c.host ≢ []
  pub port_pos : 0 < c.port
  pub port_le : c.port ≤ 65535
  pub drone_id : c.drone_id ≢ []

pub record IsValidNet (c : EkinoxNetCfg) : Type 0 where
  pub ip : c.ip ≢ []
  pub udp_port_le : c.udp_port ≤ 65535
  pub udp_local_port_le : c.udp_local_port ≤ 65535
  pub rest_port_pos : 0 < c.rest_port
  pub rest_port_le : c.rest_port ≤ 65535

pub record IsValidTimeouts (c : EkinoxTimeouts) : Type 0 where
  pub rx_dead_ms : 0 < c.rx_dead_ms
  pub udp_rx_timeout_ms : 0 < c.udp_rx_timeout_ms
  pub udp_rx_fail_threshold : 0 < c.udp_rx_fail_threshold
  pub udp_rx_ok_to_clear_threshold : 0 < c.udp_rx_ok_to_clear_threshold
  pub start_timeout_ms : 0 < c.start_timeout_ms
  pub stop_timeout_ms : 0 < c.stop_timeout_ms
  pub reconnect_backoff_ms : 0 < c.reconnect_backoff_ms
  pub reconnect_backoff_max_ms : 0 < c.reconnect_backoff_max_ms
  pub presence_timeout_ms : 0 < c.presence_timeout_ms

pub record IsValidRest (c : RestApiConfig) : Type 0 where
  pub base_path : c.base_path ≢ []
  pub datalogger_path : c.datalogger_path ≢ []

pub record IsValid (c : EkinoxConfig) : Type 0 where
  pub mqtt : IsValidMqtt c.mqtt
  pub ekinox : IsValidNet c.ekinox
  pub timeouts : IsValidTimeouts c.timeouts
  pub rest_api : IsValidRest c.rest_api

pub nonempty : (t : Text) → is_empty t ≡ false → t ≢ []
unfolding is_empty
nonempty [] h = cc
nonempty (_ ∷ _) h = λ e. cc

ok_injective : {A : Type 0} (a b : A) → ◌≡◌ {A = Result A} (ok a) (ok b) → a ≡ b
ok_injective a b e = cc

lit_nonempty : (lit "/api/v1" ≢ []) × (lit "/dataLogger" ≢ [])
unfolding lit
lit_nonempty = (λ e. cc, λ e. cc)

-- `m` returns, if it returns, a value of which `P` holds.
pub record Gives {A : Type 0} (P : A → Type 0) (m : Result A) : Type 0 where
  pub at : (a : A) → m ≡ ok a → P a

module _ {A : Type 0} {P : A → Type 0} where
  pub Gives-ok : {a : A} → P a → Gives P (ok a)
  Gives-ok {a} p = record { at = λ b e. subst P (ok_injective a b e) p }

  pub Gives-err : (t : Text) → Gives P (err t)
  Gives-err t = record { at = λ b e. cc }

  pub Gives-if : (b : Bool) (m n : Result A) → Gives P m → Gives P n → Gives P (if b then m else n)
  Gives-if true m n km kn = km
  Gives-if false m n km kn = kn

pub Gives-any : {A : Type 0} (m : Result A) → Gives (λ _. Unit {0}) m
Gives-any m = record { at = λ _ _. tt }

module _ {A B : Type 0} {P : A → Type 0} {Q : B → Type 0} where
  pub Gives-bind :
      (m : Result A) (f : A → Result B)
      → Gives P m
      → ((a : A) → P a → Gives Q (f a))
      → Gives Q (m >>= f)
  unfolding ◌>>=◌
  Gives-bind (ok a) f km kf = kf a (km.at a refl)
  Gives-bind (err e) f km kf = Gives-err e

module _ {V : Type 0} (json : Json V) where
  validate_port-le :
      (v : V) (field : Text) (allow_zero : Bool) (n : ℕ)
      → validate_port json v field allow_zero ≡ ok n
      → n ≤ 65535
  unfolding validate_port
  validate_port-le v field allow_zero n h = ground arith

  validate_port-pos :
      (v : V) (field : Text) (n : ℕ) → validate_port json v field false ≡ ok n → 0 < n
  unfolding validate_port
  validate_port-pos v field n h = ground arith

  read_timeout-pos :
      (v : V) (field : String) (target n : ℕ)
      → 0 < target
      → read_timeout json v field target ≡ ok n
      → 0 < n
  unfolding read_timeout validate_positive_timeout
  read_timeout-pos v field target n d h = ground arith

  required_text-nonempty :
      (v : V) (message : Text) → Gives (λ t. t ≢ []) (required_text json v message)
  required_text-nonempty v message = record { at = λ t e. ground (arith, nonempty t) }

  port-InRange :
      (v : V) (field : Text) → Gives (λ n. (0 < n) × (n ≤ 65535)) (validate_port json v field false)
  port-InRange v field = record {
    at = λ n e. (validate_port-pos v field n e, validate_port-le v field false n e);
  }

  optional_port-le :
      (v : V) (field : Text) (allow_zero : Bool)
      → Gives (λ n. n ≤ 65535) (optional_port json v field allow_zero 0)
  optional_port-le v field allow_zero = record {
    at = λ n e. ground (arith, validate_port-le v field allow_zero n);
  }

  optional_port-InRange :
      (v : V) (field : Text)
      → Gives (λ n. (0 < n) × (n ≤ 65535)) (optional_port json v field false 80)
  optional_port-InRange v field = record {
    at = λ n e. ground (arith, validate_port-le v field false n, validate_port-pos v field n);
  }

  read_timeout-Gives :
      (v : V) (field : String) (target : ℕ)
      → 0 < target
      → Gives (λ n. 0 < n) (read_timeout json v field target)
  read_timeout-Gives v field target d = record { at = λ n e. read_timeout-pos v field target n d e }

  load_mqtt-IsValid : (v : V) → Gives IsValidMqtt (load_mqtt json v)
  unfolding load_mqtt
  load_mqtt-IsValid v = Gives-bind _ _ (Gives-any _) λ _ _.
      Gives-bind _ _ (required_text-nonempty _ _) λ host host_ok.
        Gives-bind _ _ (port-InRange _ _) λ port port_ok.
          Gives-bind _ _ (required_text-nonempty _ _) λ drone_id drone_ok. Gives-ok (record {
            host = host_ok;
            port_pos = port_ok.0;
            port_le = port_ok.1;
            drone_id = drone_ok;
          })

  load_net-IsValid : (v : V) → Gives IsValidNet (load_net json v)
  unfolding load_net
  load_net-IsValid v = Gives-bind _ _ (Gives-any _) λ _ _.
      Gives-bind _ _ (required_text-nonempty _ _) λ ip ip_ok.
        Gives-bind _ _ (optional_port-le _ _ _) λ udp udp_ok.
          Gives-bind _ _ (optional_port-le _ _ _) λ local local_ok.
            Gives-bind _ _ (optional_port-InRange _ _) λ rest rest_ok. Gives-ok (record {
              ip = ip_ok;
              udp_port_le = udp_ok;
              udp_local_port_le = local_ok;
              rest_port_pos = rest_ok.0;
              rest_port_le = rest_ok.1;
            })

  read_timeouts-IsValid : (v : V) → Gives IsValidTimeouts (read_timeouts json v)
  unfolding read_timeouts
  read_timeouts-IsValid v = Gives-bind _ _ (read_timeout-Gives _ _ _ (omega arith)) λ rx_dead h1.
      Gives-bind _ _ (read_timeout-Gives _ _ _ (omega arith)) λ udp_rx h2.
        Gives-bind _ _ (read_timeout-Gives _ _ _ (omega arith)) λ fail h3.
          Gives-bind _ _ (read_timeout-Gives _ _ _ (omega arith)) λ clear h4.
            Gives-bind _ _ (read_timeout-Gives _ _ _ (omega arith)) λ start h5.
              Gives-bind _ _ (read_timeout-Gives _ _ _ (omega arith)) λ stop h6.
                Gives-bind _ _ (read_timeout-Gives _ _ _ (omega arith)) λ backoff h7.
                  Gives-bind _ _ (read_timeout-Gives _ _ _ (omega arith)) λ backoff_max h8.
                    Gives-bind _ _ (read_timeout-Gives _ _ _ (omega arith)) λ presence h9.
                      Gives-ok (record {
                        rx_dead_ms = h1;
                        udp_rx_timeout_ms = h2;
                        udp_rx_fail_threshold = h3;
                        udp_rx_ok_to_clear_threshold = h4;
                        start_timeout_ms = h5;
                        stop_timeout_ms = h6;
                        reconnect_backoff_ms = h7;
                        reconnect_backoff_max_ms = h8;
                        presence_timeout_ms = h9;
                      })

  load_timeouts-IsValid : (v : V) → Gives IsValidTimeouts (load_timeouts json v)
  unfolding load_timeouts
  load_timeouts-IsValid v = Gives-if _ _ _ (read_timeouts-IsValid v) (Gives-ok (omega arith))

  nonempty_or-nonempty : (v : V) (target : Text) → target ≢ [] → nonempty_or json v target ≢ []
  nonempty_or-nonempty v target h = ground (arith, nonempty (json.as_string v), h)

  load_rest_api-IsValid : (v : V) → Gives IsValidRest (load_rest_api json v)
  unfolding load_rest_api
  load_rest_api-IsValid v = Gives-if _ _ _ (Gives-err _) (
      Gives-if _ _ _
        (Gives-ok (record {
          base_path = nonempty_or-nonempty _ _ lit_nonempty.0;
          datalogger_path = nonempty_or-nonempty _ _ lit_nonempty.1;
        }))
        (Gives-ok (record { base_path = lit_nonempty.0; datalogger_path = lit_nonempty.1 })))

  -- A configuration that the loader accepts has a host, a drone and an address, ports in range (the
  -- MQTT and the REST port not 0), positive timeouts and thresholds, and paths that are not empty.
  pub load_ekinox_config-IsValid :
      (read_file : Text → Option Text) (path : Text) (c : EkinoxConfig)
      → load_ekinox_config json read_file path ≡ ok c
      → IsValid c
  unfolding load_ekinox_config
  load_ekinox_config-IsValid read_file path c h = loaded.at c h
    where
      loaded : Gives IsValid (load_ekinox_config json read_file path)
      loaded = Gives-bind _ _ (Gives-any _) λ root _. Gives-bind _ _ (Gives-any _) λ _ _.
          Gives-bind _ _ (load_mqtt-IsValid _) λ mqtt mqtt_ok.
            Gives-bind _ _ (load_net-IsValid _) λ net net_ok.
              Gives-bind _ _ (load_timeouts-IsValid _) λ timeouts timeouts_ok.
                Gives-bind _ _ (load_rest_api-IsValid _) λ rest_api rest_ok. Gives-ok (record {
                  mqtt = mqtt_ok;
                  ekinox = net_ok;
                  timeouts = timeouts_ok;
                  rest_api = rest_ok;
                })
