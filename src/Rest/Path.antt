-- ===== src/Rest/Path.antt =====
-- The paths and the URLs of services/ekinox/src/ekinox_logger_api.cpp.
use mathlib.Core.List.{reverse}
use ironsoft.Prelude.{[], ◌∷◌, ◌++◌, ◌==◌, if◌then◌else◌}
use ironsoft.Text.{Text, lit, decimal, is_empty}
use ironsoft.Config.{EkinoxConfig, RestApiConfig}

pub record RestPaths : Type 0 where
  pub base : Text
  pub start : Text
  pub stop : Text

unfoldable pub ensure_leading_slash : Text → Text
ensure_leading_slash [] = b'/' ∷ []
ensure_leading_slash (c ∷ path) = if c == b'/' then c ∷ path else b'/' ∷ c ∷ path

-- `while (path.size() > 1 && path.back() == '/') path.pop_back();`, on the reversed path.
unfoldable pub trim_back : Text → Text
trim_back [] = []
trim_back (c ∷ []) = c ∷ []
trim_back (c ∷ d ∷ path) =
    let rest = trim_back (d ∷ path) in if c == b'/' then rest else c ∷ d ∷ path

unfoldable pub trim_trailing_slash : Text → Text
trim_trailing_slash path = reverse (trim_back (reverse path))

-- `while (!tail.empty() && tail.front() == '/') tail.erase(tail.begin());`
unfoldable pub drop_slashes : Text → Text
drop_slashes [] = []
drop_slashes (c ∷ tail) = let rest = drop_slashes tail in if c == b'/' then rest else c ∷ tail

unfoldable pub join_paths : Text → Text → Text
join_paths lhs rhs =
    let base = trim_trailing_slash (ensure_leading_slash lhs) in
    let tail = drop_slashes rhs in if is_empty tail then base else base ++ b'/' ∷ tail

unfoldable pub build_paths : RestApiConfig → RestPaths
build_paths api =
    let base = join_paths api.base_path api.datalogger_path in
    record {
      base = base;
      start = join_paths base (lit "start");
      stop = join_paths base (lit "stop");
    }

unfoldable pub build_url : EkinoxConfig → Text → Text
build_url config path =
    lit "http://"
    ++ (config.ekinox.ip ++ (b':' ∷ (decimal config.ekinox.rest_port ++ ensure_leading_slash path)))

unfoldable pub build_datalogger_base_url : EkinoxConfig → RestApiConfig → Text
build_datalogger_base_url config api = build_url config (build_paths api).base
