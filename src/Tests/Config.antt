-- ===== src/Tests/Config.antt =====
-- Settings, and the start with them.
use native.Mathlib.Decide.{ℕ_discrete}
use currency_converter_demo.Base.{
  arith, ℕ, ◌≡◌, refl, ◌≢◌, ◌↔◌, negsuc, List, [], ◌∷◌, Str, bytes, some, str_dec,
}
use currency_converter_demo.External.Http.{value}
use currency_converter_demo.Config.{
  LayeredConfiguration, handle_define, split_define, history_cache_max_elements, to_poco_level,
}
use currency_converter_demo.Config.Define.{IsDefined, NoEquals, handle_define-IsDefined}
use currency_converter_demo.Server.{Server, start}
use currency_converter_demo.Server.Startup.{start_iff}
use currency_converter_demo.Tests.Sample.{World, world, settings}

program : Unit {0}
unfolding handle_define split_define history_cache_max_elements to_poco_level str_dec ℕ_discrete
program = tt

-- A configuration of overrides only, in which every number is minus one.
abbrev overrides : LayeredConfiguration (List (Str × Str))
overrides = record {
  get_int = λ c k d. value (negsuc 0);
  get_string = λ c k d. value d;
  set_string = λ c k v. (k, v) ∷ c;
}

defined :
    handle_define overrides [] (bytes "logging.level=a=b")
    ≡ value ((bytes "logging.level", bytes "a=b") ∷ [])
unfolding program
defined = refl

-- A negative limit is no limit.
negative_limit : history_cache_max_elements overrides [] ≡ value 18446744073709551615
unfolding program
negative_limit = refl

levels :
    (to_poco_level (bytes "off") ≡ bytes "none") × (to_poco_level (bytes "debug") ≡ bytes "debug")
unfolding program
levels = (refl, refl)

handle_define-IsDefined_example :
    IsDefined overrides []
      (bytes "logging.level=off")
      (handle_define overrides [] (bytes "logging.level=off"))
handle_define-IsDefined_example = handle_define-IsDefined overrides [] (bytes "logging.level=off")

start_iff_example :
    ((s : Server World ℕ) × (start settings world ≡ some s))
    ↔ ((settings.latest_rate_cache_max_elements ≢ 0) × (settings.history_cache_max_elements ≢ 0))
start_iff_example = start_iff {D = ℕ} settings world

key_NoEquals : NoEquals (bytes "logging.level")
key_NoEquals = ground arith
