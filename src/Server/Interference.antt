-- ===== src/Server/Interference.antt =====
-- A call of the server while other threads serve other calls.
use currency_converter_demo.Base.{Option, none, some, List, [], ◌∷◌, All, Str}
use currency_converter_demo.Exec.{Exec, Outcome, ok, throw, fault}
use currency_converter_demo.Exec.Runs.{Ends, Runs, Never, Runs-weaken}
use currency_converter_demo.Cache.Interface.{ICache, IsCache, Answer}
use currency_converter_demo.External.Http.{Http}
use currency_converter_demo.External.Provider.{Upstream, IsProvider}
use currency_converter_demo.External.Observed.{Seen, IsHttp, IsOpened, IsReceived}
use currency_converter_demo.External.Service.{provider-IsProvider}
use currency_converter_demo.Application.Listing.{CatalogLaws}
use currency_converter_demo.Server.{world_http, Server, Outside, Settings, Rpc}
use currency_converter_demo.Server.Calls.{upstream, IsReplyBy, serve_by-Runs}
use currency_converter_demo.Server.Sharing.{
  Shared, others_act, still_to_act, reached_by, back, amid, amid_cache, amid_http, shared_client,
  shared_catalog, shared_service, serve_amid,
}
use currency_converter_demo.Server.Wiring.{
  OutsideLaws, Holds, client-IsHttp, plain_codes, catalog-CatalogLaws, conversion-ConversionLaws,
  history-HistoryLaws, system_clock-Runs,
}

-- A change of the state that keeps the invariant.
abbrev pub Keeps : {S : Type 0} → (S → Type 0) → (S → S) → Type 0
Keeps I f = (s : _) → I s → I (f s)

abbrev pub IsReached : {S : Type 0} → (S → Type 0) → Option S → Type 0
IsReached I none = Unit
IsReached I (some s) = I s

-- The invariant holds, also of what was reached, and all that the others are still to do keeps it.
abbrev pub Amid : {S : Type 0} → (S → Type 0) → Shared S → Type 0
Amid I t = I t.state × All (Keeps I) t.others × IsReached I t.reached

module _ {S : Type 0} (I : S → Type 0) where
  others_act-I : (s : S) (l : List (S → S)) → I s → All (Keeps I) l → I (others_act s l)
  unfolding others_act
  others_act-I s [] i h = i
  others_act-I s (f ∷ rest) i h = h.0 s i

  still_to_act-All : (l : List (S → S)) → All (Keeps I) l → All (Keeps I) (still_to_act l)
  unfolding still_to_act
  still_to_act-All [] h = h
  still_to_act-All (f ∷ rest) h = h.1

  reached_by-IsReached :
      (l : List (S → S)) (o : Option S) (s : S)
      → IsReached I o
      → I s
      → IsReached I (reached_by l o s)
  unfolding reached_by
  reached_by-IsReached [] o s h i = h
  reached_by-IsReached (f ∷ []) o s h i = i
  reached_by-IsReached (f ∷ g ∷ rest) o s h i = h

  back-Ends :
      {A : Type 0} (Q : A → Type 0) (t : Shared S) (r : Outcome A × S)
      → Amid I t
      → Ends (λ a s. I s × Q a) Never r
      → Ends (λ a t. Amid I t × Q a) Never (back t r)
  back-Ends Q t (ok a, s) h p =
      ((p.0, still_to_act-All t.others h.1, reached_by-IsReached t.others t.reached s h.2 p.0), p.1)
  back-Ends Q t (throw e, s) h p = p
  back-Ends Q t (fault, s) h p = p

  -- An access that keeps the invariant does so amid others that keep it.
  pub amid-Runs :
      {A : Type 0} (Q : A → Type 0) (m : Exec S A)
      → Runs I m (λ a s. I s × Q a) Never
      → Runs (Amid I) (amid m) (λ a t. Amid I t × Q a) Never
  unfolding amid
  amid-Runs Q m h = record {
    at = λ t p. back-Ends Q t _ p (h.at _ (others_act-I t.state t.others p.0 p.1));
  }

  pub amid_keeps :
      {A : Type 0} (m : Exec S A)
      → Runs I m (λ a s. I s) Never
      → Runs (Amid I) (amid m) (λ a t. Amid I t) Never
  amid_keeps m h =
      Runs-weaken _ _
        (amid-Runs (λ a. Unit {0}) m (Runs-weaken _ _ h (λ a s i. (i, tt)) (λ e s p. p)))
        (λ a t p. p.0) (λ e t p. p)

  pub amid_cache-IsCache :
      {V : Type 0} (Genuine : Str → V → Type 0) (c : ICache S V)
      → IsCache I Genuine c
      → IsCache (Amid I) Genuine (amid_cache c)
  unfolding amid_cache
  amid_cache-IsCache Genuine c laws = record {
    get_keeps = λ k. amid-Runs (Answer Genuine k) (c.get k) (laws.get_keeps k);
    put_keeps = λ k v g. amid_keeps (c.put k v) (laws.put_keeps k v g);
  }

  pub amid_http-IsHttp :
      (seen : Seen) (http : Http S) → IsHttp I seen http → IsHttp (Amid I) seen (amid_http http)
  unfolding amid_http
  amid_http-IsHttp seen http laws = record {
    open_keeps = λ secure host port. amid-Runs (IsOpened seen) _ (laws.open_keeps secure host port);
    exchange_keeps = λ r. amid-Runs (IsReceived seen r) _ (laws.exchange_keeps r);
  }

module _ {W D : Type 0} (J : W → Type 0) (seen : Seen) (outside : Outside W D) (settings : Settings)
    (laws : OutsideLaws J seen outside) where
  abbrev pub Sound : Shared (Server W D) → Type 0
  Sound = Amid (Holds J seen outside settings laws)

  abbrev up : Upstream D
  up = upstream seen outside settings

  shared_client-IsProvider : IsProvider Sound up (shared_client outside settings)
  unfolding amid_http world_http
  shared_client-IsProvider =
      provider-IsProvider Sound seen _ outside.json _
        (amid_http-IsHttp _ seen _ (client-IsHttp J seen outside settings laws)) laws.map

  shared_catalog-CatalogLaws : CatalogLaws Sound up (shared_catalog outside settings)
  shared_catalog-CatalogLaws = record {
    provider = shared_client-IsProvider;
    cache = amid_cache-IsCache _ _ _ (catalog-CatalogLaws J seen outside settings laws).cache;
  }

  -- Let the HTTP client, the JSON reader and the clocks keep to their laws, and let the other threads
  -- do what they like between the accesses of a call to the caches, the client and the clock, if it
  -- keeps the caches valid, with a value in them that is one for its key. Then the call, whatever it
  -- is, is answered rightly, and the caches are so afterwards.
  pub serve_amid-IsReplyBy :
      (call : Rpc D)
      → Runs Sound
          (serve_amid outside settings call)
          (λ r t.
            Sound t
            × IsReplyBy
                (upstream seen outside settings)
                (shared_service outside settings)
                (outside.double.of_hundredths 0)
                call
                r)
          Never
  unfolding serve_amid
  serve_amid-IsReplyBy =
      let rates = conversion-ConversionLaws J seen outside settings laws in
      let series = history-HistoryLaws J seen outside settings laws in
      let clock = amid-Runs _ seen.Now _ (system_clock-Runs J seen outside settings laws) in
      serve_by-Runs Sound up (shared_service outside settings) _ shared_catalog-CatalogLaws
        (record {
          provider = shared_client-IsProvider;
          rates = amid_cache-IsCache _ _ _ rates.rates;
          catalog = shared_catalog-CatalogLaws;
          clock = clock;
          plain = plain_codes J seen outside settings laws;
        })
        (record {
          provider = shared_client-IsProvider;
          series = amid_cache-IsCache _ _ _ series.series;
          catalog = shared_catalog-CatalogLaws;
          clock = clock;
          plain = plain_codes J seen outside settings laws;
        })
        clock
