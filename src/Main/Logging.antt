-- ===== src/Main/Logging.antt =====
-- `setupLogging` (backend/src/main.cpp).
use currency_converter_demo.Base.{List, [], ◌∷◌, ◌++◌, Str, bytes}
use currency_converter_demo.Exec.{Exec, return, ◌>>=◌, ◌>>◌}
use currency_converter_demo.External.Http.{Poco, value, failed}
use currency_converter_demo.External.Frankfurter.{escape}
use currency_converter_demo.Config.{logging_level, logging_file, to_poco_level}
use currency_converter_demo.Main.Process.{
  Channel, console, file, RootChannel, warned, root_channel_set, root_level_set, Process, Platform,
  on_outside, emit,
}

abbrev pub file_channel : Str → Channel
file_channel path = file path (
    (bytes "rotation", bytes "10 M")
    ∷ (bytes "archive", bytes "timestamp")
    ∷ (bytes "compress", bytes "true")
    ∷ [])

abbrev pub not_opened : Str → Str → Str
not_opened path text =
    bytes "warning: could not open log file '"
    ++ path
    ++ bytes "': "
    ++ text
    ++ bytes " -- logging to console only"

abbrev pub root_channel : List Channel → RootChannel
root_channel channels = record {
  pattern = bytes "%Y-%m-%d %H:%M:%S.%i [%p] %s: %t";
  channels = channels;
}

module _ {W D C : Type 0} (platform : Platform W C) where
  -- The channels of the splitter: the `try` and its `catch`.
  unfoldable pub channels_for : Str → Poco (Unit {0}) → Exec (Process W D) (List Channel)
  channels_for path (value opened) = return (console ∷ file_channel path ∷ [])
  channels_for path (failed text) = emit (warned (not_opened path text)) >> return (console ∷ [])

  -- `setLevel`, the last statement.
  unfoldable pub set_root_level : C → Exec (Process W D) (Unit {0})
  set_root_level config = do
    level ← escape (logging_level platform.layers config)
    checked ← on_outside (platform.set_level (to_poco_level level))
    escape checked
    emit (root_level_set (to_poco_level level))

  unfoldable pub setup_logging : C → Exec (Process W D) (Unit {0})
  unfolding channels_for set_root_level
  setup_logging config = do
    path ← escape (logging_file platform.layers config)
    opened ← on_outside (platform.open_channel (file_channel path))
    channels ← channels_for path opened
    emit (root_channel_set (root_channel channels))
    set_root_level config
