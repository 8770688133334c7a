-- ===== src/Programs/Same.antt =====
-- The dump of the configuration and the service, called with the same arguments.
use ironsoft.Prelude.{
  ℕ, ◌≡◌, refl, Bool, true, false, Option, none, some, List, [], ◌∷◌, if◌then◌else◌, arith,
}
use ironsoft.Text.{Text, is_empty}
use ironsoft.Json.{Json}
use ironsoft.Config.{EkinoxConfig, Result, ok, err, load_ekinox_config}
use ironsoft.Config.Valid.{IsValid, load_ekinox_config-IsValid}
use ironsoft.Service.State.{TimePoint}
use ironsoft.Service.Exec.{Env}
use ironsoft.Programs.{
  config_path, dump_path, dump_main, service_main, refused, printed, print_loaded, dump_named,
  exit_of, run_of,
}

-- Where the dump takes a path, the service takes the same.
dump_path-config_path :
    (path chosen : Text) (args : List Text)
    → dump_path path args ≡ some chosen
    → config_path path args ≡ chosen
unfolding config_path dump_path
dump_path-config_path path chosen [] h = cc
dump_path-config_path path chosen (arg ∷ []) h = cc
dump_path-config_path path chosen (arg ∷ value ∷ rest) h =
    let named = dump_path-config_path value chosen rest in ground arith

module _ {V : Type 0} (json : Json V) (read_file : Text → Option Text) (has_sbg : Bool) (env : Env)
    (started_s : ℕ) (started : TimePoint) (n : ℕ) where
  print_loaded-ok :
      (config : EkinoxConfig) (r : Result EkinoxConfig)
      → print_loaded json read_file r ≡ printed config
      → r ≡ ok config
  print_loaded-ok config (err e) h = cc
  print_loaded-ok config (ok loaded) h = cc

  print_path-ok :
      (config : EkinoxConfig) (empty : Bool) (r : Result EkinoxConfig)
      → (if empty then refused else print_loaded json read_file r) ≡ printed config
      → (empty ≡ false) × (r ≡ ok config)
  print_path-ok config true r h = cc
  print_path-ok config false r h = (refl, print_loaded-ok config r h)

  dump_named-chosen :
      (config : EkinoxConfig) (named : Option Text)
      → dump_named json read_file named ≡ printed config
      → (path : Text) × (named ≡ some path)
        × (is_empty path ≡ false)
        × (load_ekinox_config json read_file path ≡ ok config)
  dump_named-chosen config none h = cc
  dump_named-chosen config (some path) h =
      let found = print_path-ok config (is_empty path) _ h in (path, refl, found.0, found.1)

  -- Where the dump prints a configuration, it is valid, and the service that gets the same arguments
  -- runs with it: its status is 0 where `run` and the destructor return, and it is terminated where they throw.
  pub dump_main-service_main :
      (args : List Text) (config : EkinoxConfig)
      → dump_main json read_file args ≡ printed config
      → IsValid config
        × (service_main json read_file has_sbg env started_s started n args
            ≡ exit_of json read_file has_sbg env started_s started n
                (run_of json read_file has_sbg env started_s started n config).0)
  unfolding dump_main service_main
  dump_main-service_main args config h =
      let (path, named, filled, loads) = dump_named-chosen config (dump_path [] args) h in
      let same = dump_path-config_path [] path args named in
      (load_ekinox_config-IsValid json read_file path config loads, rw (same, filled, loads) refl)
