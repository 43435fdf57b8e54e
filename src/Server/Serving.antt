-- ===== src/Server/Serving.antt =====
-- The server (backend/src/main.cpp) over whole sequences of calls.
use currency_converter_demo.Base.{◌≡◌, some, List, [], ◌∷◌}
use currency_converter_demo.Exec.Runs.{Ends, Runs, Never, Runs-bind, Runs-return, Runs-given}
use currency_converter_demo.External.Observed.{Seen}
use currency_converter_demo.Application.Listing.{IsCatalog}
use currency_converter_demo.Application.Rates.{IsCachedRate}
use currency_converter_demo.Application.Series.{IsCachedSeries}
use currency_converter_demo.Server.{
  Server, Outside, Settings, start, service, Rpc, Reply, serve, serve_all,
}
use currency_converter_demo.Server.Holding.{start-Holding}
use currency_converter_demo.Server.Calls.{upstream, IsReplyBy, serve_by-Runs}
use currency_converter_demo.Server.Wiring.{
  OutsideLaws, Holds, catalog-CatalogLaws, conversion-ConversionLaws, history-HistoryLaws,
  system_clock-Runs,
}

module _ {W D : Type 0} (seen : Seen) (outside : Outside W D) (settings : Settings) where
  -- Whether a reply is right for its call.
  abbrev pub IsReply : Rpc D → Reply D → Type 0
  IsReply =
      IsReplyBy (upstream seen outside settings) (service outside settings)
        (outside.double.of_hundredths 0)

  -- One right reply for each call, in their order.
  abbrev pub AreReplies : List (Rpc D) → List (Reply D) → Type 0
  AreReplies [] [] = Unit
  AreReplies (call ∷ calls) (r ∷ rs) = IsReply call r × AreReplies calls rs
  AreReplies _ _ = ⊥

module _ {W D : Type 0} (J : W → Type 0) (seen : Seen) (outside : Outside W D) (settings : Settings)
    (laws : OutsideLaws J seen outside) where
  abbrev I : Server W D → Type 0
  I = Holds J seen outside settings laws

  serve-Runs :
      (call : Rpc D)
      → Runs I
          (serve outside settings call)
          (λ r t. I t × IsReply seen outside settings call r)
          Never
  unfolding serve
  serve-Runs =
      serve_by-Runs I (upstream seen outside settings) (service outside settings) _
        (catalog-CatalogLaws J seen outside settings laws)
        (conversion-ConversionLaws J seen outside settings laws)
        (history-HistoryLaws J seen outside settings laws)
        (system_clock-Runs J seen outside settings laws)

  serve_all-Runs :
      (calls : List (Rpc D))
      → Runs I
          (serve_all outside settings calls)
          (λ rs t. I t × AreReplies seen outside settings calls rs)
          Never
  unfolding serve_all
  serve_all-Runs [] = Runs-return [] λ s i. (i, tt)
  serve_all-Runs (call ∷ calls) = Runs-bind _ _ (serve-Runs call) λ r.
      Runs-given (IsReply seen outside settings call r) _ _ (λ s p. p)
        λ right.
          Runs-bind _ _ (serve_all-Runs calls) λ rest. Runs-return _ λ s p. (p.0, (right, p.1))

  pub start-Holds : (world : W) (s : Server W D) → J world → start settings world ≡ some s → I s
  start-Holds =
      let up = upstream seen outside settings in
      start-Holding J (IsCatalog up.Listed) (IsCachedRate up) (IsCachedSeries up) settings

  -- Let the HTTP client, the JSON reader and the clocks keep to their laws, and let no code of a
  -- list that the server sends have the byte `|`. Then from its start on the server answers every
  -- call of every sequence. Each reply is right for its call: an OK reply has the list that
  -- upstream gave, the amount times a rate that upstream gave for just the pair, the series that
  -- it gave for just the query, in a range that ends no later than a day that the clock has shown,
  -- or the constraints of such a day; any other has the status of an exception for which there is
  -- a reason, in the request or in an answer of upstream, and leaves the response untouched. After
  -- the calls the caches are valid, and each value in them is one that upstream gave for its key.
  pub serve_all-AreReplies :
      (world : W) (s : Server W D) (calls : List (Rpc D))
      → J world
      → start settings world ≡ some s
      → Ends
          (λ rs t. I t × AreReplies seen outside settings calls rs)
          Never
          (serve_all outside settings calls s)
  serve_all-AreReplies world s calls j e = (serve_all-Runs calls).at s (start-Holds world s j e)
