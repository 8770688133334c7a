-- ===== src/Gui/Config/Valid.antt =====
-- What holds of every configuration that the loader of the desktop client accepts.
use ironsoft.Prelude.{◌≤◌, ◌<◌, ◌≡◌, ◌≢◌, refl, Bool, true, false, ◌||◌, not, [], arith}
use ironsoft.Prelude.Int.{ℤ, pos, negsuc, pos_part, ltb_ℤ, leb_ℤ}
use ironsoft.Text.{Text, is_empty}
use ironsoft.Config.{ok, require}
use ironsoft.Config.Valid.{Gives, Gives-ok, Gives-any, Gives-bind, nonempty}
use ironsoft.Gui.Json.{QJson, get_or}
use ironsoft.Gui.Config.{
  MqttGuiConfig, FileRead, text_at, keepalive_or_default, load_from_json_file,
}

pub record IsUsable (c : MqttGuiConfig) : Type 0 where
  pub host : c.host ≢ []
  pub port_pos : 0 < c.port
  pub port_le : c.port ≤ 65535
  pub drone_id : c.drone_id ≢ []
  pub keepalive_pos : 0 < c.keepalive_s

-- A check that was passed.
Gives-require : (b : Bool) (reason : Text) → Gives (λ _. b ≡ true) (require b reason)
Gives-require true reason = record { at = λ a e. refl }
Gives-require false reason = record { at = λ a e. cc }

filled : (t : Text) → not (is_empty t) ≡ true → t ≢ []
filled t h = nonempty t (ground arith)

keepalive_pos_lem : (n : ℤ) → 0 < keepalive_or_default n
keepalive_pos_lem n = ground arith

in_range_pos : (n : ℤ) → not (leb_ℤ n (pos 0) || ltb_ℤ (pos 65535) n) ≡ true → 0 < pos_part n
in_range_pos n h = ground arith

in_range_le : (n : ℤ) → not (leb_ℤ n (pos 0) || ltb_ℤ (pos 65535) n) ≡ true → pos_part n ≤ 65535
in_range_le n h = ground arith

module _ {V : Type 0} (json : QJson V) where
  open json use {value, int_of}

  load_from_json_file-Gives :
      (file : FileRead) (path : Text) (out : MqttGuiConfig)
      → Gives IsUsable (load_from_json_file json file path out)
  unfolding load_from_json_file
  load_from_json_file-Gives file path out = Gives-bind _ _ (Gives-any _) λ text _.
      Gives-bind _ _ (Gives-any _) λ root _.
        let host = text_at json (value (value root "broker") "host") in
        let port = get_or (negsuc 0) (int_of (value (value root "broker") "port")) in
        let drone_id = text_at json (value (value root "client") "drone_id") in
        Gives-bind _ _ (Gives-any _) λ _ _.
          Gives-bind _ _ (Gives-require (not (is_empty host)) _) λ _ host_ok.
            Gives-bind _ _ (Gives-require (not (leb_ℤ port (pos 0) || ltb_ℤ (pos 65535) port)) _)
              λ _ port_ok. Gives-bind _ _ (Gives-require (not (is_empty drone_id)) _) λ _ drone_ok.
                Gives-ok (record {
                  host = filled host host_ok;
                  port_pos = in_range_pos port port_ok;
                  port_le = in_range_le port port_ok;
                  drone_id = filled drone_id drone_ok;
                  keepalive_pos = keepalive_pos_lem (
                      get_or (pos out.keepalive_s)
                        (int_of (value (value root "client") "keepalive_s")));
                })

  -- A configuration that the desktop client loads has a host and a drone, a port from 1 to 65535, and a
  -- positive keep-alive interval.
  pub load_from_json_file-IsUsable :
      (file : FileRead) (path : Text) (out c : MqttGuiConfig)
      → load_from_json_file json file path out ≡ ok c
      → IsUsable c
  load_from_json_file-IsUsable file path out c h = (load_from_json_file-Gives file path out).at c h
