-- ===== src/Service/Accepts.antt =====
-- The configurations that reach the command handlers.
use ironsoft.Prelude.{◌≡◌, ◌≢◌, Option, none, false, [], ◌∷◌, arith, refl}
use ironsoft.Text.{Text, is_empty}
use ironsoft.Json.{Json}
use ironsoft.Config.{EkinoxConfig, ok, load_ekinox_config}
use ironsoft.Config.Valid.{IsValid, load_ekinox_config-IsValid}
use ironsoft.Service.Commands.Start.{validate_rest_endpoint}

filled : (t : Text) → t ≢ [] → is_empty t ≡ false
unfolding is_empty
filled [] h = absurd (h refl)
filled (_ ∷ _) h = refl

valid_endpoint : (config : EkinoxConfig) → IsValid config → validate_rest_endpoint config ≡ none
unfolding validate_rest_endpoint
valid_endpoint config v =
    let ip = filled config.ekinox.ip v.ekinox.ip in
    let port = v.ekinox.rest_port_pos in ground arith

module _ {V : Type 0} (json : Json V) where
  -- A configuration that the loader accepts passes the check of the REST endpoint in front of the
  -- handlers of the logger commands.
  pub load_ekinox_config-endpoint :
      (read_file : Text → Option Text) (path : Text) (config : EkinoxConfig)
      → load_ekinox_config json read_file path ≡ ok config
      → validate_rest_endpoint config ≡ none
  load_ekinox_config-endpoint read_file path config e =
      valid_endpoint config (load_ekinox_config-IsValid json read_file path config e)
