-- ===== src/Main/Options.antt =====
-- The options of the command line (`defineOptions` in backend/src/main.cpp) and what they call.
use currency_converter_demo.Base.{
  Bool, true, false, Option, none, some, List, [], ◌∷◌, ◌++◌, Str, bytes,
}
use currency_converter_demo.External.Http.{Poco, value, failed}
use currency_converter_demo.Config.{LayeredConfiguration, handle_define}
use currency_converter_demo.Main.Process.{App, handle_help}

pub data Callback : Type 0 where
  calls_help calls_define : Callback

-- A `Poco::Util::Option`.
pub record CliOption : Type 0 where
  pub full_name : Str
  pub short_name : Str
  pub description : Str
  pub required : Bool
  pub repeatable : Bool
  pub argument : Option Str
  pub binding : Option Str
  pub callback : Option Callback

-- The options of `ServerApplication`, and after them the three of its own.
unfoldable pub define_options : List CliOption → List CliOption
define_options base =
    base
    ++ (record {
      full_name = bytes "help";
      short_name = bytes "h";
      description = bytes "display help information";
      required = false;
      repeatable = false;
      argument = none;
      binding = none;
      callback = some calls_help;
    }
        ∷ record {
          full_name = bytes "config";
          short_name = bytes "c";
          description =
              bytes "path to the JSON configuration file (default: config/server.default.json)";
          required = false;
          repeatable = false;
          argument = some (bytes "FILE");
          binding = some (bytes "app.configFile");
          callback = none;
        }
        ∷ record {
          full_name = bytes "define";
          short_name = bytes "D";
          description = bytes "override a config key, e.g. -Dcache.history.max_age_minutes=60";
          required = false;
          repeatable = true;
          argument = some (bytes "KEY=VALUE");
          binding = none;
          callback = some calls_define;
        }
        ∷ [])

module _ {C : Type 0} (layers : LayeredConfiguration C) where
  abbrev with_config : App C → Poco C → Poco (App C)
  with_config app (value c) = value (record app { config = c })
  with_config app (failed t) = failed t

  -- What an option calls, with its value, in a command of a name.
  unfoldable pub call : Str → Callback → Str → App C → Poco (App C)
  unfolding handle_help handle_define
  call command calls_help text app = value (handle_help command app)
  call command calls_define text app = with_config app (handle_define layers app.config text)
