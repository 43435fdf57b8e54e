-- ===== src/External/Json.antt =====
-- What `FrankfurterClient` calls of Poco's JSON. It is a parameter of the model.
use currency_converter_demo.Base.{◌≢◌, Bool, Option, List, [], ◌∷◌, All, Str}
use currency_converter_demo.External.Http.{Poco}

-- `Var` and `Object::Ptr`. A pointer that is null is `none`.
pub record Json (D : Type 0) : Type 1 where
  pub Var : Type 0
  pub Object : Type 0
  pub parse : Str → Poco Var
  pub extract : Var → Poco (Option Object)
  pub entries : Object → List (Str × Var)
  pub to_string : Var → Poco Str
  pub get_string : Object → Str → Poco Str
  pub get_object : Object → Str → Option Object
  pub get_double : Object → Str → Poco D
  pub has : Object → Str → Bool

-- No key twice.
abbrev pub DistinctNames : {V : Type 0} → List (Str × V) → Type 0
DistinctNames [] = Unit
DistinctNames ((name, v) ∷ l) = All (λ e. e.0 ≢ name) l × DistinctNames l

-- `Poco::JSON::Object` is a map: its entries have distinct names.
pub record IsMap {D : Type 0} (json : Json D) : Type 0 where
  pub distinct : (o : json.Object) → DistinctNames (json.entries o)
