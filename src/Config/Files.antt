-- ===== src/Config/Files.antt =====
-- `AppConfig::loadJsonFile` (backend/src/config/AppConfig.cpp). Poco's `JSONConfiguration` is a
-- parameter of the model.
use currency_converter_demo.Base.{ℤ, Str}
use currency_converter_demo.Exec.{Exec, return, ◌>>=◌}
use currency_converter_demo.External.Http.{Poco, value, failed}

-- A file read as a configuration, which fails with a `Poco::Exception`, and `add` of one configuration
-- to another at a priority.
pub record JsonFiles (W C : Type 0) : Type 0 where
  pub read : Str → Exec W (Poco C)
  pub add : C → C → ℤ → C
  pub prio_default : ℤ

module _ {W C : Type 0} (files : JsonFiles W C) where
  abbrev pub layered : C → Poco C → Poco C
  layered config (value json) = value (files.add config json files.prio_default)
  layered config (failed t) = failed t

  unfoldable pub load_json_file : C → Str → Exec W (Poco C)
  load_json_file config path = do json ← files.read path; return (layered config json)
