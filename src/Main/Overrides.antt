-- ===== src/Main/Overrides.antt =====
-- Overrides from the command line against the configuration file: `handleDefine` runs for each `-D`
-- before `main` loads the file (backend/src/main.cpp, backend/src/config).
use currency_converter_demo.Base.{◌≡◌, ◌≢◌, ◌⊎◌, Option, some, List, [], ◌∷◌, ◌++◌, Str}
use currency_converter_demo.External.Http.{Poco, value}
use currency_converter_demo.Config.{LayeredConfiguration, and_then, handle_define}
use currency_converter_demo.Main.Process.{Platform}

-- The configuration as it was, or with any file layered under it.
abbrev IsLoaded : {W C : Type 0} → Platform W C → C → C → Type 0
IsLoaded platform config loaded =
    (loaded ≡ config)
    ⊎ ((json : _) × (loaded ≡ platform.files.add config json platform.files.prio_default))

-- The callbacks of a command line with these overrides, in their order.
unfoldable pub define_all : {C : Type 0} → LayeredConfiguration C → C → List Str → Poco C
define_all layers config [] = value config
define_all layers config (define ∷ defines) =
    and_then (handle_define layers config define) λ next. define_all layers next defines

-- What Poco documents of the layers, for values in which nothing is to be expanded: `setString` writes
-- to the layer of the application, a file that is added at the default priority does not change that
-- layer, and what the layer has is what is read.
pub record LayerLaws {W C : Type 0} (platform : Platform W C) (Plain : Str → Type 0) : Type 1 where
  pub overridden : C → Str → Option Str
  pub set_same : (c : C) (k v : Str) → overridden (platform.layers.set_string c k v) k ≡ some v
  pub set_other :
      (c : C) (k v j : Str)
      → k ≢ j
      → overridden (platform.layers.set_string c k v) j ≡ overridden c j
  pub add_keeps :
      (c json : C) (k : Str)
      → overridden (platform.files.add c json platform.files.prio_default) k ≡ overridden c k
  pub read :
      (c : C) (k v default : Str)
      → overridden c k ≡ some v
      → Plain v
      → platform.layers.get_string c k default ≡ value v

-- No override of the key.
abbrev pub Leaves : Str → Str → Type 0
Leaves k define = (v : Str) → define ≢ k ++ (b'=' ∷ v)

module _ {W C : Type 0} (platform : Platform W C) (Plain : Str → Type 0)
    (laws : LayerLaws platform Plain) (k v : Str) where
  abbrev Overrides : C → Type 0
  Overrides c = laws.overridden c k ≡ some v
