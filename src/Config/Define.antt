-- ===== src/Config/Define.antt =====
-- `handleDefine` (backend/src/main.cpp): what `-DKEY=VALUE` sets.
use currency_converter_demo.Base.{
  ◌≡◌, refl, ◌≢◌, ◌⊎◌, inl, inr, Bool-cases, none, some, [], ◌∷◌, ◌++◌, All, Str, ◌==◌, arith, ap,
}
use currency_converter_demo.External.Http.{Poco, value, failed}
use currency_converter_demo.Config.{LayeredConfiguration, split_define, handle_define}

abbrev pub NoEquals : Str → Type 0
NoEquals = All (λ c. c ≢ b'=')

-- The text has no `=`, or it is cut at the first.
split_define_lem :
    (s : Str)
    → ((split_define s ≡ none) × NoEquals s)
      ⊎ ((k : Str) × (v : Str) × (split_define s ≡ some (k, v))
          × (s ≡ k ++ (b'=' ∷ v))
          × NoEquals k)
unfolding split_define
split_define_lem [] = inl (refl, tt)
split_define_lem (c ∷ s) = elim (Bool-cases (c == b'=')) [
  | inl here ↦ inr ([], s, rw here refl, ground arith, tt)
  | inr not_here ↦
      let other : c ≢ b'=' = λ e. ground arith in
      elim (split_define_lem s) [
        | inl (absent, all) ↦ inl (rw (not_here, absent) refl, (other, all))
        | inr (k, v, found, same, all) ↦
            inr (c ∷ k, v, rw (not_here, found) refl, ap (◌∷◌ c) same, (other, all))
      ]
]

-- No change for a text with no `=`; any other sets the key before its first `=` to what follows it.
abbrev pub IsDefined : {C : Type 0} → LayeredConfiguration C → C → Str → Poco C → Type 0
IsDefined layers config define (failed t) = NoEquals define
IsDefined layers config define (value c) =
    (k : Str) × (v : Str) × (define ≡ k ++ (b'=' ∷ v))
    × NoEquals k
    × (c ≡ layers.set_string config k v)

-- An override is refused exactly if its text has no `=`; else it sets just one key, which is all that
-- stands before the first `=`, to all that follows it.
pub handle_define-IsDefined :
    {C : Type 0} (layers : LayeredConfiguration C) (config : C) (define : Str)
    → IsDefined layers config define (handle_define layers config define)
unfolding handle_define
handle_define-IsDefined layers config define = elim (split_define_lem define) [
  | inl (absent, all) ↦ rw (absent, IsDefined) all
  | inr (k, v, found, same, all) ↦ rw (found, IsDefined) (k, v, same, all, refl)
]

split_define-append : (k v : Str) → NoEquals k → split_define (k ++ (b'=' ∷ v)) ≡ some (k, v)
unfolding split_define
split_define-append [] v h = refl
split_define-append (c ∷ k) v h = elim (Bool-cases (c == b'=')) [
  | inl here ↦ absurd (h.0 (ground arith))
  | inr not_here ↦ rw (not_here, split_define-append k v h.1) refl
]

-- Any value is set as it is written after a key and `=`, if the key has no `=`, whatever the value has.
pub handle_define-append :
    {C : Type 0} (layers : LayeredConfiguration C) (config : C) (k v : Str)
    → NoEquals k
    → handle_define layers config (k ++ (b'=' ∷ v)) ≡ value (layers.set_string config k v)
unfolding handle_define
handle_define-append layers config k v h = rw (handle_define, split_define-append k v h) refl
