-- ===== src/Programs.antt =====
-- The command-line programs: services/ekinox/src/main.cpp and config_dump_main.cpp, and what
-- backend/src/main.cpp does before it starts its client. What they print is left out.
pub mod Same
use ironsoft.Prelude.{ℕ, Bool, true, false, Option, none, some, List, [], ◌∷◌, if◌then◌else◌}
use ironsoft.Text.{Text, lit, is_empty, text_eq}
use ironsoft.Json.{Json, Parsed, parsed, parse_error}
use ironsoft.Config.{EkinoxConfig, Result, ok, err, load_ekinox_config}
use ironsoft.Service.State.{Service, Setup, TimePoint, make_setup, init}
use ironsoft.Service.Exec.{Context, Env, Failure, Outcome, done, thrown, pure, ◌>>=◌, ◌>>◌}
use ironsoft.Service.Loop.{run, destroy}
use ironsoft.Backend.Json.{CheckedJson}
use ironsoft.Backend.State.{MqttConfig, Topics, backend_topics, parse_mqtt_config}

-- A program returns its status, or an exception leaves `main`.
pub data Exit : Type 0 where
  status : ℕ → Exit
  terminated : Exit

-- The loop over the arguments; what does not name a configuration is passed over.
unfoldable pub config_path : Text → List Text → Text
config_path path [] = path
config_path path (arg ∷ []) = path
config_path path (arg ∷ value ∷ rest) =
    let named = config_path value rest in
    let passed = config_path path (value ∷ rest) in
    if text_eq arg (lit "--config") then named else passed

-- The loop of the dump; `none`: it prints its usage.
unfoldable pub dump_path : Text → List Text → Option Text
dump_path path [] = some path
dump_path path (arg ∷ []) = none
dump_path path (arg ∷ value ∷ rest) =
    let named = dump_path value rest in if text_eq arg (lit "--config") then named else none

-- What the dump prints: a configuration, or its usage or an error with status 1.
pub data Dump : Type 0 where
  refused : Dump
  printed : EkinoxConfig → Dump

abbrev pub dump_status : Dump → ℕ
dump_status refused = 1
dump_status (printed config) = 0

module _ {V : Type 0} (json : Json V) (read_file : Text → Option Text) where
  abbrev print_loaded : Result EkinoxConfig → Dump
  print_loaded (err e) = refused
  print_loaded (ok config) = printed config

  abbrev dump_named : Option Text → Dump
  dump_named none = refused
  dump_named (some path) =
      if is_empty path then refused else print_loaded (load_ekinox_config json read_file path)

  unfoldable pub dump_main : List Text → Dump
  dump_main args = dump_named (dump_path [] args)

  -- The service, built with sbgECom or without, in an environment in which the stop flag is seen after
  -- `n` rounds.
  module _ (has_sbg : Bool) (env : Env) (started_s : ℕ) (started : TimePoint) (n : ℕ) where
    abbrev pub context_of : EkinoxConfig → Context V
    context_of config = record { setup = make_setup has_sbg config; json = json; env = env }

    -- The life of the service, to the end of its destructor.
    abbrev pub run_of : EkinoxConfig → Outcome Bool × Service
    run_of config =
        (do stopped ← run (context_of config) n; destroy (context_of config); pure stopped)
          (init (make_setup has_sbg config) started_s started)

    abbrev pub exit_of : Outcome Bool → Exit
    exit_of (done stopped) = status 0
    exit_of (thrown f) = terminated

    abbrev serve_loaded : Result EkinoxConfig → Exit
    serve_loaded (err e) = status 2
    serve_loaded (ok config) = exit_of (run_of config).0

    unfoldable pub service_main : List Text → Exit
    service_main args =
        let path = config_path [] args in
        if is_empty path then status 1 else serve_loaded (load_ekinox_config json read_file path)

-- What the backend does before it starts its client.
pub data BackendStart : Type 0 where
  no_config : ℕ → BackendStart
  config_throws : BackendStart
  starts : MqttConfig → Topics → BackendStart

-- The loop over the arguments, as it stands in the backend.
unfoldable pub backend_config_path : Text → List Text → Text
backend_config_path path [] = path
backend_config_path path (a ∷ []) = path
backend_config_path path (a ∷ value ∷ rest) =
    let named = backend_config_path value rest in
    let passed = backend_config_path path (value ∷ rest) in
    if text_eq a (lit "--config") then named else passed

module _ {V : Type 0} (json : CheckedJson V) (read_file : Text → Option Text) where
  abbrev parsed_or_false : Parsed V → Option V
  parsed_or_false (parse_error e) = none
  parsed_or_false (parsed root) = some root

  abbrev parse_contents : Option Text → Option V
  parse_contents none = none
  parse_contents (some contents) = parsed_or_false (json.parse contents)

  unfoldable pub load_json : Text → Option V
  load_json path = parse_contents (read_file path)

  abbrev start_parsed : Option MqttConfig → BackendStart
  start_parsed none = config_throws
  start_parsed (some cfg) = starts cfg (backend_topics cfg.drone_id)

  abbrev start_loaded : Option V → BackendStart
  start_loaded none = no_config 3
  start_loaded (some root) = start_parsed (parse_mqtt_config json root)

  unfoldable pub backend_main : List Text → BackendStart
  backend_main args =
      let path = backend_config_path [] args in
      if is_empty path then no_config 2 else start_loaded (load_json path)
