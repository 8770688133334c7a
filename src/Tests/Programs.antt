-- ===== src/Tests/Programs.antt =====
-- The programs at concrete arguments.
use ironsoft.Prelude.{◌≡◌, refl, some, List, [], ◌∷◌, true}
use ironsoft.Text.{Text, lit, text_eq, is_empty}
use ironsoft.Config
use ironsoft.Config.{
  load_ekinox_config, load_json_file, load_mqtt, load_net, load_timeouts, load_rest_api,
  validate_port,
}
use ironsoft.Config.Valid.{IsValid}
use ironsoft.Programs.{dump_path, dump_main, service_main, printed, exit_of, run_of}
use ironsoft.Programs.Same.{dump_main-service_main}
use ironsoft.Tests.Data.{document_json, config_document, loaded_config, calm}

abbrev named_config : List Text
named_config = lit "--config" ∷ lit "ekinox.json" ∷ []

dump_prints :
    dump_main (document_json config_document) (λ path. some (lit "{}")) named_config
    ≡ printed loaded_config
unfolding dump_main dump_path load_ekinox_config load_json_file load_mqtt load_net load_timeouts
    load_rest_api validate_port lit text_eq is_empty Config.◌>>=◌
dump_prints = refl

dump_main-service_main_example :
    IsValid loaded_config
    × (service_main
          (document_json config_document)
          (λ path. some (lit "{}"))
          true
          calm
          1700000000
          5000000000
          3
          named_config
        ≡ exit_of
            (document_json config_document)
            (λ path. some (lit "{}"))
            true
            calm
            1700000000
            5000000000
            3
            (run_of
              (document_json config_document)
              (λ path. some (lit "{}"))
              true
              calm
              1700000000
              5000000000
              3
              loaded_config).0)
dump_main-service_main_example =
    dump_main-service_main (document_json config_document) (λ path. some (lit "{}")) true calm
      1700000000 5000000000 3 named_config loaded_config dump_prints
