-- ===== src/Server/Transparency/Replies.antt =====
-- The replies of the server (backend/src/main.cpp) and of the one without caches.
use currency_converter_demo.Base.{ap, ◌≡◌, refl, ◌⊎◌, inl, inr, some, List, [], ◌∷◌, Str}
use currency_converter_demo.Exec.{Exec, Exception, ok, return, ◌>>=◌}
use currency_converter_demo.Exec.Agreement.{ending, ending-ok}
use currency_converter_demo.Exec.Runs.{Ends, Runs, Never, Runs-bind, Runs-return, Runs-given}
use currency_converter_demo.External.Http.{Request}
use currency_converter_demo.External.Fixed.{IsUnreached}
use currency_converter_demo.Application.Transparency.{IsFetchedList}
use currency_converter_demo.Application.Transparency.Rates.{IsFetchedRate}
use currency_converter_demo.Application.Transparency.Series.{IsFetchedSeries}
use currency_converter_demo.Application.Uncached.{constraints_on}
use currency_converter_demo.Grpc.{
  ConvertRequest, HistoryRequest, CurrencyServiceImpl, list_currencies_rpc, convert_rpc,
  get_history_rpc, get_constraints_rpc, to_status, Status,
}
use currency_converter_demo.Grpc.Agreeing.{SameOr}
use currency_converter_demo.Grpc.Agreeing.Methods.{
  list_currencies_rpc-SameOr, convert_rpc-SameOr, get_history_rpc-SameOr,
  get_constraints_rpc-SameOr,
}
use currency_converter_demo.Server.{
  Server, Outside, Settings, start, service, Rpc, listing, converting, charting, limits, listed,
  converted, charted, limited, serve_by, serve, serve_all, no_history, no_conversion,
  no_constraints,
}
use currency_converter_demo.Server.Holding.{start-Holding}
use currency_converter_demo.Server.Reference.{
  fixed_client, fixed_service, fixed_serve, IsSameReply, AreSameReplies,
}
use currency_converter_demo.Server.Transparency.{
  SteadyOutside, Serves, system_clock-IsDay, catalog-Transparent, conversion-Transparent,
  history-Transparent,
}

-- A reply in its wrapping.
wrapped :
    {R A : Type 0} (Excuse : Exception → Type 0) (response : R) (p : Exec (Unit {0}) (Status × R))
    (f : Status × R → A) (reply : Status × R)
    → SameOr Excuse response p reply
    → (ending (p >>= λ r. return (f r)) ≡ ok (f reply))
      ⊎ ((e : Exception) × Excuse e × (f reply ≡ f (to_status e, response)))
unfolding return
wrapped Excuse response p f reply (inl same) = inl (ending-ok p _ reply (ok (f reply)) same refl)
wrapped Excuse response p f reply (inr (e, excused, same)) = inr (e, excused, ap f same)

-- No exception is excused.
unexcused : {P : Type 0} {F : Exception → Type 0} → P ⊎ ((e : Exception) × ⊥ × F e) → P
unexcused (inl p) = p
unexcused (inr (e, no_excuse, f)) = absurd no_excuse

-- A service of which each method replies as the one without caches does so for each call.
module _ {W D S : Type 0} (page : Request → Str) (today : Str) (outside : Outside W D)
    (settings : Settings) (I : S → Type 0) (self : CurrencyServiceImpl S D) where
  abbrev zero : D
  zero = outside.double.of_hundredths 0

  abbrev Replies :
      {R : Type 0}
      → (Exception → Type 0)
      → R
      → (R → Exec S (Status × R))
      → (R → Exec (Unit {0}) (Status × R))
      → Type 0
  Replies Excuse response m p =
      Runs I (m response) (λ reply t. I t × SameOr Excuse response (p response) reply) Never

  pub serve_by-IsSameReply :
      let reference = fixed_service page today outside settings in
      Replies IsUnreached
        (record { currencies = [] })
        (list_currencies_rpc self)
        (list_currencies_rpc reference)
      → ((request : ConvertRequest D)
          → Replies IsUnreached
              (no_conversion zero)
              (convert_rpc self request)
              (convert_rpc reference request))
      → ((request : HistoryRequest)
          → Replies IsUnreached no_history
              (get_history_rpc self request)
              (get_history_rpc reference request))
      → Replies
          (λ e. ⊥)
          (no_constraints zero)
          (get_constraints_rpc self)
          (get_constraints_rpc reference)
      → (call : Rpc D)
      → Runs I
          (serve_by self zero call)
          (λ r t. I t × IsSameReply page today outside settings call r)
          Never
  unfolding serve_by fixed_serve
  serve_by-IsSameReply lists converts charts bounds listing =
      Runs-bind _ _ lists λ r. Runs-return _ λ s p. (p.0, wrapped IsUnreached _ _ listed r p.1)
  serve_by-IsSameReply lists converts charts bounds (converting request) =
      Runs-bind _ _ (converts request)
        λ r. Runs-return _ λ s p. (p.0, wrapped IsUnreached _ _ converted r p.1)
  serve_by-IsSameReply lists converts charts bounds (charting request) =
      Runs-bind _ _ (charts request)
        λ r. Runs-return _ λ s p. (p.0, wrapped IsUnreached _ _ charted r p.1)
  serve_by-IsSameReply lists converts charts bounds limits =
      Runs-bind _ _ bounds
        λ r. Runs-return _ λ s p. (p.0, inl (unexcused (wrapped (λ e. ⊥) _ _ limited r p.1)))

module _ {W D : Type 0} (J : W → Type 0) (page : Request → Str) (today : Str)
    (outside : Outside W D) (settings : Settings)
    (laws : SteadyOutside J page today outside settings) where
  abbrev I : Server W D → Type 0
  I = Serves J page today outside settings laws

  serve-IsSameReply :
      (call : Rpc D)
      → Runs I
          (serve outside settings call)
          (λ r t. I t × IsSameReply page today outside settings call r)
          Never
  unfolding serve
  serve-IsSameReply =
      let self = service outside settings in
      serve_by-IsSameReply page today outside settings I self
        (list_currencies_rpc-SameOr I IsUnreached self _ today (constraints_on outside.double today)
          (catalog-Transparent J page today outside settings laws) _)
        (λ request.
          convert_rpc-SameOr I IsUnreached self _ today
            (conversion-Transparent J page today outside settings laws) request _)
        (λ request.
          get_history_rpc-SameOr I IsUnreached self _ today
            (history-Transparent J page today outside settings laws) request _)
        (get_constraints_rpc-SameOr I IsUnreached self (fixed_client page today outside settings)
          today (system_clock-IsDay J page today outside settings laws) _)

  serve_all-Runs :
      (calls : List (Rpc D))
      → Runs I
          (serve_all outside settings calls)
          (λ rs t. I t × AreSameReplies page today outside settings calls rs)
          Never
  unfolding serve_all
  serve_all-Runs [] = Runs-return [] λ s i. (i, tt)
  serve_all-Runs (call ∷ calls) = Runs-bind _ _ (serve-IsSameReply call) λ r.
      Runs-given (IsSameReply page today outside settings call r) _ _ (λ s p. p)
        λ same. Runs-bind _ _ (serve_all-Runs calls) λ rest. Runs-return _ λ s p. (p.0, (same, p.1))

  -- Let upstream answer each request always by the same page or not at all, let the clocks be readable
  -- and say one day, and let no code of the list that is fetched have the byte `|`. Then the caches are not
  -- to be seen: from its start on, each reply of every sequence of calls is the one that the service
  -- without caches gives when it reaches upstream at each try, or else the status of a failure to
  -- reach upstream, with the response untouched.
  pub serve_all-AreSameReplies :
      (world : W) (s : Server W D) (calls : List (Rpc D))
      → J world
      → start settings world ≡ some s
      → Ends
          (λ rs t. I t × AreSameReplies page today outside settings calls rs)
          Never
          (serve_all outside settings calls s)
  serve_all-AreSameReplies world s calls j e = (serve_all-Runs calls).at s (
      start-Holding J (IsFetchedList (fixed_client page today outside settings))
        (IsFetchedRate (fixed_client page today outside settings))
        (IsFetchedSeries (fixed_client page today outside settings)) settings world s j e)
