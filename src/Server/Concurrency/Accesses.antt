-- ===== src/Server/Concurrency/Accesses.antt =====
-- How many accesses a call of the server (backend/src/main.cpp) makes on its thread.
use currency_converter_demo.Base.{
  ℕ, ◌+◌, ◌≤◌, ◌≡◌, refl, subst, ◌⊎◌, inl, inr, Option, none, some, List, [], ◌∷◌, map, ap,
  Option-cases, All-map, All, All-append, All-split, length, length-append, length-map, arith,
}
use currency_converter_demo.Exec.{Exec}
use currency_converter_demo.Exec.Budget.{IsBudget, Takes, Takes-bind, Takes-return}
use currency_converter_demo.Cache.Interface.{ICache}
use currency_converter_demo.External.Http.{Http}
use currency_converter_demo.External.Accesses.{IsTwoSteps, IsHttpStep, provider-IsTwoSteps}
use currency_converter_demo.Application.Accesses.{IsCacheStep}
use currency_converter_demo.Grpc.Accesses.{
  IsServiceStep, list_currencies_rpc-Takes, convert_rpc-Takes, get_history_rpc-Takes,
  get_constraints_rpc-Takes,
}
use currency_converter_demo.Server.{
  Server, Outside, Settings, Rpc, listing, converting, charting, limits, serve_by, no_conversion,
  no_history, no_constraints,
}
use currency_converter_demo.Server.Sharing.{
  Shared, still_to_act, reached_by, others_act, amid, amid_cache, amid_http, shared_client,
  shared_service, serve_amid,
}
use currency_converter_demo.Server.Concurrency.{
  Thread, Threads, arrived, after_seeing, left, replay, next_access, Step, arrives, accesses,
  sweeps_currencies, sweeps_rates, sweeps_series, Execution, here, next,
}

-- At most so many accesses of a call: four for a list of currencies, which are a `get`, the two steps
-- of a request, and a `put`; one reading of the clock for the constraints.
unfoldable pub accesses_of : {D : Type 0} → Rpc D → ℕ
accesses_of listing = 4
accesses_of (converting request) = 13
accesses_of (charting request) = 13
accesses_of limits = 1

module _ {S : Type 0} where
  -- Something is reached only if all the others have acted.
  abbrev IsLevel : Shared S → Type 0
  IsLevel t = (t.reached ≡ none) ⊎ (t.others ≡ [])

  -- Each access uses up one action of the others.
  abbrev Accesses : ℕ → Shared S → Shared S → Type 0
  Accesses n s t = (IsLevel s → IsLevel t) × (length s.others ≤ n + length t.others)

  Accesses-IsBudget : IsBudget Accesses
  Accesses-IsBudget = record {
    nothing = λ n s. (λ h. h, omega arith);
    both = λ m n s t u p q. (λ h. q.0 (p.0 h), omega (arith, p.1, q.1));
    more = λ m n s t le p. (p.0, omega (arith, le, p.1));
  }

  still-IsLevel :
      (s t : S) (f g : S → S) (rest : List (S → S)) (reached : Option S)
      → IsLevel (record { state = s; others = f ∷ g ∷ rest; reached = reached })
      → IsLevel (record { state = t; others = g ∷ rest; reached = reached })
  still-IsLevel s t f g rest reached (inl nothing_yet) = inl nothing_yet
  still-IsLevel s t f g rest reached (inr e) = cc

  acted-Accesses :
      (s : S) (others : List (S → S)) (reached : Option S) (t : S)
      → Accesses 1
          (record { state = s; others = others; reached = reached })
          (record {
            state = t;
            others = still_to_act others;
            reached = reached_by others reached t;
          })
  unfolding still_to_act reached_by
  acted-Accesses s [] reached t = (λ h. h, omega arith)
  acted-Accesses s (f ∷ []) reached t = (λ h. inr refl, omega arith)
  acted-Accesses s (f ∷ g ∷ rest) reached t = (still-IsLevel s t f g rest reached, omega arith)

  amid-Takes : {A : Type 0} (m : Exec S A) → Takes Accesses (amid m) 1
  unfolding amid
  amid-Takes m = record {
    at = λ t. acted-Accesses t.state t.others t.reached (m (others_act t.state t.others)).1;
  }

  amid_cache-IsCacheStep : {V : Type 0} (c : ICache S V) → IsCacheStep Accesses (amid_cache c)
  unfolding amid_cache
  amid_cache-IsCacheStep c = record {
    getting = λ k. amid-Takes (c.get k);
    putting = λ k v. amid-Takes (c.put k v);
  }

  amid_http-IsHttpStep : (http : Http S) → IsHttpStep Accesses (amid_http http)
  unfolding amid_http
  amid_http-IsHttpStep http = record {
    opening = λ secure host port. amid-Takes (http.open_session secure host port);
    exchanging = λ r. amid-Takes (http.exchange r);
  }

module _ {W D : Type 0} (outside : Outside W D) (settings : Settings) where
  shared_client-IsTwoSteps : IsTwoSteps Accesses (shared_client outside settings)
  shared_client-IsTwoSteps =
      provider-IsTwoSteps Accesses Accesses-IsBudget _ outside.json _ (amid_http-IsHttpStep _)

  shared_service-IsServiceStep : IsServiceStep Accesses (shared_service outside settings)
  shared_service-IsServiceStep = record {
    listing = shared_client-IsTwoSteps;
    lists = amid_cache-IsCacheStep _;
    conversion = shared_client-IsTwoSteps;
    conversion_listing = shared_client-IsTwoSteps;
    conversion_lists = amid_cache-IsCacheStep _;
    rates = amid_cache-IsCacheStep _;
    conversion_clock = amid-Takes _;
    history = shared_client-IsTwoSteps;
    history_listing = shared_client-IsTwoSteps;
    history_lists = amid_cache-IsCacheStep _;
    series = amid_cache-IsCacheStep _;
    history_clock = amid-Takes _;
    clock = amid-Takes _;
  }

  serve_amid-Takes :
      (call : Rpc D) → Takes Accesses (serve_amid outside settings call) (accesses_of call)
  unfolding serve_amid serve_by accesses_of
  serve_amid-Takes listing =
      Takes-bind Accesses Accesses-IsBudget 4 0 _ _
        (list_currencies_rpc-Takes Accesses Accesses-IsBudget _ shared_service-IsServiceStep
          (record { currencies = [] }))
        λ r. Takes-return Accesses Accesses-IsBudget 0 _
  serve_amid-Takes (converting request) =
      Takes-bind Accesses Accesses-IsBudget 13 0 _ _
        (convert_rpc-Takes Accesses Accesses-IsBudget _ shared_service-IsServiceStep request
          (no_conversion (outside.double.of_hundredths 0)))
        λ r. Takes-return Accesses Accesses-IsBudget 0 _
  serve_amid-Takes (charting request) =
      Takes-bind Accesses Accesses-IsBudget 13 0 _ _
        (get_history_rpc-Takes Accesses Accesses-IsBudget _ shared_service-IsServiceStep request
          no_history)
        λ r. Takes-return Accesses Accesses-IsBudget 0 _
  serve_amid-Takes limits =
      Takes-bind Accesses Accesses-IsBudget 1 0 _ _
        (get_constraints_rpc-Takes Accesses Accesses-IsBudget _ shared_service-IsServiceStep
          (no_constraints (outside.double.of_hundredths 0)))
        λ r. Takes-return Accesses Accesses-IsBudget 0 _

  used_up :
      (n m : ℕ) (t : Shared (Server W D)) (s : Server W D)
      → IsLevel t
      → t.reached ≡ some s
      → m ≤ n + length t.others
      → m ≤ n
  used_up n m t s (inl nothing_yet) e le = cc
  used_up n m t s (inr none_left) e le = omega (arith, le, ap length none_left)

  -- An access that is made is one of that many.
  next_access-le :
      (thread : Thread W D) (s t : Server W D)
      → next_access outside settings thread s ≡ some t
      → length (after_seeing thread s).seen ≤ accesses_of thread.call
  unfolding next_access replay
  next_access-le thread s t e =
      let seen = (after_seeing thread s).seen in
      let q = (replay outside settings (after_seeing thread s) s).1 in
      let (level, spent) =
        (serve_amid-Takes thread.call).at
          (record { state = s; others = map left seen; reached = none }) in
      used_up (accesses_of thread.call) (length seen) q t (level (inl refl)) e
        (subst (λ n. n ≤ accesses_of thread.call + length q.others) (length-map left seen) spent)

  abbrev IsBounded : Thread W D → Type 0
  IsBounded thread = length thread.seen ≤ accesses_of thread.call

  Step-IsBounded :
      {y z : Threads W D}
      → Step outside settings y z
      → All IsBounded y.threads
      → All IsBounded z.threads
  Step-IsBounded {y} (arrives call) h =
      All-append _ y.threads (arrived call ∷ []) h (omega arith, tt)
  Step-IsBounded {y} (accesses before after thread s e ran) h =
      let (p, q) = All-split _ before (thread ∷ after) (subst (All _) e h) in
      All-append _ before _ p (next_access-le thread y.state s ran, q.1)
  Step-IsBounded (sweeps_currencies clock) h = h
  Step-IsBounded (sweeps_rates clock) h = h
  Step-IsBounded (sweeps_series clock) h = h

  Execution-IsBounded :
      {y z : Threads W D}
      → Execution outside settings y z
      → All IsBounded y.threads
      → All IsBounded z.threads
  Execution-IsBounded here h = h
  Execution-IsBounded (next step rest) h = Execution-IsBounded rest (Step-IsBounded step h)

  IsBounded-returned :
      (s : Server W D) (thread : Thread W D)
      → length thread.seen ≡ accesses_of thread.call
      → next_access outside settings thread s ≡ none
  IsBounded-returned s thread full = elim (Option-cases (next_access outside settings thread s)) [
    | inl over ↦ over
    | inr (t, more) ↦
        absurd
          (omega (arith, next_access-le thread s t more, length-append thread.seen (s ∷ []), full))
  ]

  -- However the accesses of the calls and the sweeps interleave, no call makes more accesses than the
  -- bound for its kind, 4, 13, 13 or 1; and one that has made so many has returned.
  pub Execution-returns :
      {s : Server W D} {y : Threads W D}
      → Execution outside settings (record { state = s; threads = [] }) y
      → All
          (λ thread.
            (length thread.seen ≤ accesses_of thread.call)
            × (length thread.seen ≡ accesses_of thread.call
                → next_access outside settings thread y.state ≡ none))
          y.threads
  Execution-returns {y = y} run =
      All-map _ _ (λ thread bounded. (bounded, IsBounded-returned y.state thread)) y.threads
        (Execution-IsBounded run tt)
