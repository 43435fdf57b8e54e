-- ===== src/Tests/Overrides.antt =====
-- Overrides from the command line over a configuration file.
use currency_converter_demo.Base.{
  ite, Option, none, some, ◌++◌, true, List, [], ◌∷◌, Str, bytes, str_dec, pos,
}
use currency_converter_demo.Exec.{ok}
use currency_converter_demo.External.Http.{value, failed}
use currency_converter_demo.Config.{handle_define, split_define}
use currency_converter_demo.Main.Process.{Platform}
use currency_converter_demo.Main.Overrides.{define_all}
use currency_converter_demo.Tests.Sample.{World}

program : Unit {0}
unfolding define_all handle_define split_define
program = tt

-- A configuration of overrides over a file.
record Layered : Type 0 where
  pub overrides : List (Str × Str)
  pub file : List (Str × Str)

abbrev looked_up : Str → List (Str × Str) → Option Str
looked_up k [] = none
looked_up k ((j, v) ∷ rest) = ite (str_dec j k) (some v) (looked_up k rest)

abbrev or_else : Option Str → Str → Str
or_else none d = d
or_else (some v) d = v

abbrev two_layers : Platform World Layered
two_layers = record {
  layers = record {
    get_int = λ c k d. value d;
    get_string =
        λ c k d. value (or_else (looked_up k c.overrides) (or_else (looked_up k c.file) d));
    set_string = λ c k v. record c { overrides = (k, v) ∷ c.overrides };
  };
  files = record {
    read = λ path w. (ok (failed path), w);
    add = λ c json p. record c { file = json.file };
    prio_default = pos 0;
  };
  exists = λ path w. (ok (value true), w);
  open_channel = λ c w. (ok (value tt), w);
  set_level = λ l w. (ok (value tt), w);
  show = λ n. bytes "9090";
  build_and_start = λ address w. (ok true, w);
}

abbrev Anything : Str → Type 0
Anything v = Unit

abbrev key : Str
key = bytes "logging.level"

abbrev line : List Str
line = bytes "logging.level=off" ∷ (key ++ (b'=' ∷ bytes "debug")) ∷ bytes "x=1" ∷ []

abbrev defined : Layered
defined = record {
  overrides =
      (bytes "x", bytes "1")
      ∷ (bytes "logging.level", bytes "debug")
      ∷ (bytes "logging.level", bytes "off")
      ∷ [];
  file = [];
}

abbrev file : List (Str × Str)
file = (bytes "logging.level", bytes "error") ∷ []

abbrev loaded : Layered
loaded = record defined { file = file }
