-- ===== src/Server/Concurrency/Transparency.antt =====
-- The calls that the server (backend/src/main.cpp) serves on its threads, against the server without
-- caches.
use currency_converter_demo.Base.{◌/◌, ◌≡◌, some, [], All, Str}
use currency_converter_demo.Exec.Runs.{Runs, Never}
use currency_converter_demo.External.Http.{Http, Request}
use currency_converter_demo.External.Fixed.{
  fixed_http, IsFixed, IsPage, IsUnreached, list_currencies-Agrees, latest_rate-Agrees,
  history-Agrees,
}
use currency_converter_demo.External.Provider.{IExchangeRateProvider}
use currency_converter_demo.Application.Uncached.{constraints_on}
use currency_converter_demo.Application.Transparency.{
  IsFetchedList, IsProviderOf, CatalogTransparency,
}
use currency_converter_demo.Application.Transparency.Rates.{
  IsDay, IsFetchedRate, ConversionTransparency,
}
use currency_converter_demo.Application.Transparency.Series.{IsFetchedSeries, HistoryTransparency}
use currency_converter_demo.Grpc.Agreeing.Methods.{
  list_currencies_rpc-SameOr, convert_rpc-SameOr, get_history_rpc-SameOr,
  get_constraints_rpc-SameOr,
}
use currency_converter_demo.Server.{Server, Outside, Settings, start, Rpc, world_http}
use currency_converter_demo.Server.Sharing.{
  amid_http, shared_client, shared_catalog, shared_constraints, shared_service, serve_amid,
}
use currency_converter_demo.Server.Interference.{Amid, amid-Runs, amid_keeps, amid_cache-IsCache}
use currency_converter_demo.Server.Holding.{start-Holding}
use currency_converter_demo.Server.Reference.{fixed_client, IsSameReply}
use currency_converter_demo.Server.Transparency.{
  SteadyOutside, Serves, client-IsFixed, system_clock-IsDay, catalog-Transparent,
  conversion-Transparent, history-Transparent,
}
use currency_converter_demo.Server.Transparency.Replies.{serve_by-IsSameReply}
use currency_converter_demo.Server.Concurrency.{Threads, Execution}
use currency_converter_demo.Server.Concurrency.Safety.{IsServed, Execution-IsServed}
use currency_converter_demo.Server.Concurrency.Sweeps.{Holding-IsSwept}

amid_http-IsFixed :
    {S : Type 0} (I : S → Type 0) (page : Request → Str) (http : Http S)
    → IsFixed I page http
    → IsFixed (Amid I) page (amid_http http)
unfolding amid_http
amid_http-IsFixed I page http laws = record {
  open_keeps = λ secure host port. amid_keeps I _ (laws.open_keeps secure host port);
  exchange_keeps = λ r. amid-Runs I (IsPage page r) _ (laws.exchange_keeps r);
}

module _ {W D : Type 0} (J : W → Type 0) (page : Request → Str) (today : Str)
    (outside : Outside W D) (settings : Settings)
    (laws : SteadyOutside J page today outside settings) where
  abbrev I : Server W D → Type 0
  I = Serves J page today outside settings laws

  abbrev q : IExchangeRateProvider (Unit {0}) D
  q = fixed_client page today outside settings

  shared_client-IsProviderOf : IsProviderOf (Amid I) IsUnreached (shared_client outside settings) q
  unfolding world_http fixed_http amid_http
  shared_client-IsProviderOf =
      let http = amid_http (world_http outside.http) in
      let fixed =
        amid_http-IsFixed I page (world_http outside.http)
          (client-IsFixed J page today outside settings laws) in
      record {
        list_agrees = list_currencies-Agrees (Amid I) page http outside.json _ fixed;
        latest_agrees = latest_rate-Agrees (Amid I) page http outside.json _ fixed;
        history_agrees = history-Agrees (Amid I) page http outside.json _ fixed;
      }

  shared_clock-IsDay : IsDay (Amid I) (shared_constraints outside settings) today
  shared_clock-IsDay =
      amid-Runs I (λ n. outside.format_date (n / 86_400_000_000_000) ≡ today) _
        (system_clock-IsDay J page today outside settings laws)

  shared_catalog-Transparent :
      CatalogTransparency (Amid I) IsUnreached (shared_catalog outside settings) q
  shared_catalog-Transparent = record {
    provider = shared_client-IsProviderOf;
    cache = amid_cache-IsCache I _ _ (catalog-Transparent J page today outside settings laws).cache;
  }

  shared_conversion-Transparent :
      ConversionTransparency
        (Amid I)
        IsUnreached
        (shared_service outside settings).conversion
        q
        today
  shared_conversion-Transparent = record {
    catalog = shared_catalog-Transparent;
    fetch = shared_client-IsProviderOf.latest_agrees;
    rates =
        amid_cache-IsCache I _ _ (conversion-Transparent J page today outside settings laws).rates;
    day = shared_clock-IsDay;
    plain = laws.plain;
  }

  shared_history-Transparent :
      HistoryTransparency (Amid I) IsUnreached (shared_service outside settings).history q today
  shared_history-Transparent = record {
    catalog = shared_catalog-Transparent;
    fetch = shared_client-IsProviderOf.history_agrees;
    series =
        amid_cache-IsCache I _ _ (history-Transparent J page today outside settings laws).series;
    day = shared_clock-IsDay;
    plain = laws.plain;
  }

  serve_amid-IsSameReply :
      (call : Rpc D)
      → Runs
          (Amid I)
          (serve_amid outside settings call)
          (λ r t. Amid I t × IsSameReply page today outside settings call r)
          Never
  unfolding serve_amid
  serve_amid-IsSameReply =
      let self = shared_service outside settings in
      serve_by-IsSameReply page today outside settings (Amid I) self
        (list_currencies_rpc-SameOr (Amid I) IsUnreached self q today
          (constraints_on outside.double today) shared_catalog-Transparent _)
        (λ request.
          convert_rpc-SameOr (Amid I) IsUnreached self q today shared_conversion-Transparent request
            _)
        (λ request.
          get_history_rpc-SameOr (Amid I) IsUnreached self q today shared_history-Transparent
            request _)
        (get_constraints_rpc-SameOr (Amid I) IsUnreached self q today shared_clock-IsDay _)

  -- Let upstream answer each request always by the same page or not at all, let the clocks be readable
  -- and say one day, and let no code of the list that is fetched have the byte `|`. Then whatever calls arrive
  -- at the server after its start, and however the accesses of their threads and the sweeps of the
  -- caches interleave, each call can make its next access, or else it has returned: by the reply that
  -- the service without caches gives when it reaches upstream at each try, or by the status of a
  -- failure to reach upstream, with the response untouched.
  pub Execution-IsServed_as_uncached :
      (world : W) (s : Server W D) (y : Threads W D)
      → J world
      → start settings world ≡ some s
      → Execution outside settings (record { state = s; threads = [] }) y
      → I y.state
        × All
            (IsServed outside settings (IsSameReply page today outside settings) y.state)
            y.threads
  Execution-IsServed_as_uncached world s y j e run =
      Execution-IsServed outside settings I (IsSameReply page today outside settings)
        serve_amid-IsSameReply
        (Holding-IsSwept J (IsFetchedList q) (IsFetchedRate q) (IsFetchedSeries q)) run
        (start-Holding J (IsFetchedList q) (IsFetchedRate q) (IsFetchedSeries q) settings world s j
          e)
