-- ===== src/Main/Rules.antt =====
-- Contracts of the steps of the process, and the laws of what it calls.
use currency_converter_demo.Base.{◌≡◌, refl, Bool, true, false, if◌then◌else◌, List, ◌∷◌, Str}
use currency_converter_demo.Exec.{Exec, Exception, std_exception, Outcome, ok, throw, fault}
use currency_converter_demo.Exec.Runs.{Runs, Ends, Never, Runs-return, Runs-raise}
use currency_converter_demo.External.Http.{Poco, value, failed}
use currency_converter_demo.External.Frankfurter.{escape}
use currency_converter_demo.Main.Process.{
  Channel, Event, Process, Platform, with_outside, on_outside, emit,
}

-- What was observed of Poco and gRPC: whether a path is that of a file, what a file has, whether a
-- channel opened and a level was taken, and whether the server started at an address.
pub record Answers (C : Type 0) : Type 1 where
  pub Exists : Str → Poco Bool → Type 0
  pub Contains : Str → Poco C → Type 0
  pub Opens : Channel → Poco (Unit {0}) → Type 0
  pub Takes : Str → Poco (Unit {0}) → Type 0
  pub Starts : Str → Bool → Type 0

-- What is called of Poco and gRPC keeps what is known of the outside, and answers what was observed.
pub record PlatformLaws {W C : Type 0} (J : W → Type 0) (answers : Answers C)
    (platform : Platform W C) : Type 0 where
  pub exists_keeps :
      (path : Str) → Runs J (platform.exists path) (λ r w. J w × answers.Exists path r) Never
  pub read_keeps :
      (path : Str) → Runs J (platform.files.read path) (λ r w. J w × answers.Contains path r) Never
  pub open_keeps :
      (c : Channel) → Runs J (platform.open_channel c) (λ r w. J w × answers.Opens c r) Never
  pub level_keeps :
      (level : Str) → Runs J (platform.set_level level) (λ r w. J w × answers.Takes level r) Never
  pub build_keeps :
      (address : Str)
      → Runs J (platform.build_and_start address) (λ b w. J w × answers.Starts address b) Never

-- The outside is as `J` says, and the events as `R` says.
abbrev pub At : {W D : Type 0} → (W → Type 0) → (List (Event D) → Type 0) → Process W D → Type 0
At J R s = J s.world × R s.events

module _ {W D : Type 0} (J : W → Type 0) (R : List (Event D) → Type 0) where
  with_outside-Ends :
      {A : Type 0} (E : Exception → Process W D → Type 0) (Q : A → Type 0) (s : Process W D)
      (r : Outcome A × W)
      → R s.events
      → Ends (λ a w. J w × Q a) Never r
      → Ends (λ a t. At J R t × Q a) E (with_outside s r)
  with_outside-Ends E Q s (ok a, w) h (j, q) = ((j, h), q)
  with_outside-Ends E Q s (throw e, w) h p = absurd p
  with_outside-Ends E Q s (fault, w) h p = p

module _ {W D : Type 0} (J : W → Type 0) (R : List (Event D) → Type 0)
    {E : Exception → Process W D → Type 0} where
  pub Runs-on_outside :
      {A : Type 0} (Q : A → Type 0) (m : Exec W A)
      → Runs J m (λ a w. J w × Q a) Never
      → Runs (At J R) (on_outside m) (λ a t. At J R t × Q a) E
  unfolding on_outside
  Runs-on_outside Q m h = record {
    at = λ s p. with_outside-Ends J R E Q s (m s.world) p.1 (h.at s.world p.0);
  }

  pub Runs-emit :
      (e : Event D) (Q : List (Event D) → Type 0)
      → ((l : List (Event D)) → R l → Q (e ∷ l))
      → Runs (At J R) (emit e) (λ u t. At J Q t) E
  unfolding emit
  Runs-emit e Q h = record { at = λ s p. (p.0, h s.events p.1) }

-- A failure goes on as an exception.
pub Runs-escape {ℓ} :
    {S : Type ℓ} {A : Type 0} {P : S → Type 0} {E : Exception → S → Type 0} (m : Poco A)
    → ((t : Str) → m ≡ failed t → (s : S) → P s → E (std_exception t) s)
    → Runs P (escape m) (λ a s. P s × (m ≡ value a)) E
unfolding escape
Runs-escape (value a) h = Runs-return a λ s p. (p, refl)
Runs-escape (failed t) h = Runs-raise (std_exception t) (h t refl)

pub Runs-if {ℓ κ} :
    {S : Type ℓ} {A : Type κ} {P : S → Type 0} {Q : A → S → Type 0} {E : Exception → S → Type 0}
    (test : Bool) (m n : Exec S A)
    → (test ≡ true → Runs P m Q E)
    → (test ≡ false → Runs P n Q E)
    → Runs P (if test then m else n) Q E
Runs-if true m n h k = h refl
Runs-if false m n h k = k refl

-- The events at some place may be given a name.
pub Runs-named :
    {W D A : Type 0} (J : W → Type 0) (R : List (Event D) → Type 0) {Q : A → Process W D → Type 0}
    {E : Exception → Process W D → Type 0} (m : Exec (Process W D) A)
    → ((l : List (Event D)) → R l → Runs (At J (λ l'. l' ≡ l)) m Q E)
    → Runs (At J R) m Q E
Runs-named J R m h = record { at = λ s p. (h s.events p.1).at s (p.0, refl) }
