-- ===== src/Logging.antt =====
-- `newLogger` of apps/agent/cmd/agent/main.go; apps/operator/cmd/operator/main.go has the same
-- function.
use pontifex.Base.{String, ◌<>◌, Option, none, some, ◌==◌, comparable_string, if◌then◌else◌}
use pontifex.Effects.{Result, ok, err, wrap}

-- The logging library: `Level.UnmarshalText`, and `Config.Build` with the level, if one is set.
pub record Zap (Level Logger : Type 0) : Type 0 where
  pub unmarshal_level : String → Result Level
  pub build : Option Level → Result Logger

module _ {Level Logger : Type 0} (zap : Zap Level Logger) where
  abbrev at_level : String → Result Level → Result Logger
  at_level level (err x) = err (wrap ("parse log level \"" <> level <> "\"") x)
  at_level level (ok lvl) = zap.build (some lvl)

  unfoldable pub new_logger : String → Result Logger
  new_logger level =
      if level == "" then zap.build none else at_level level (zap.unmarshal_level level)
