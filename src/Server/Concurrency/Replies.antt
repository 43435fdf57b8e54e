-- ===== src/Server/Concurrency/Replies.antt =====
-- The replies to the calls that the server (backend/src/main.cpp) serves on its threads.
use currency_converter_demo.Base.{◌≡◌, some, [], All}
use currency_converter_demo.External.Observed.{Seen}
use currency_converter_demo.Application.Listing.{IsCatalog}
use currency_converter_demo.Application.Rates.{IsCachedRate}
use currency_converter_demo.Application.Series.{IsCachedSeries}
use currency_converter_demo.Server.{Server, Outside, Settings, start, Rpc, Reply}
use currency_converter_demo.Server.Calls.{upstream, IsReplyBy}
use currency_converter_demo.Server.Sharing.{shared_service}
use currency_converter_demo.Server.Interference.{serve_amid-IsReplyBy}
use currency_converter_demo.Server.Wiring.{OutsideLaws, Holds}
use currency_converter_demo.Server.Serving.{start-Holds}
use currency_converter_demo.Server.Concurrency.{Threads, Execution}
use currency_converter_demo.Server.Concurrency.Safety.{IsServed, Execution-IsServed}
use currency_converter_demo.Server.Concurrency.Sweeps.{Holding-IsSwept}

module _ {W D : Type 0} (seen : Seen) (outside : Outside W D) (settings : Settings) where
  -- Whether a reply of a thread is right for its call.
  abbrev pub IsSharedReply : Rpc D → Reply D → Type 0
  IsSharedReply =
      IsReplyBy (upstream seen outside settings) (shared_service outside settings)
        (outside.double.of_hundredths 0)

module _ {W D : Type 0} (J : W → Type 0) (seen : Seen) (outside : Outside W D)
    (settings : Settings) where
  -- Let the HTTP client, the JSON reader and the clocks keep to their laws, and let no code of a
  -- list that the server sends have the byte `|`. Then whatever calls arrive at the server after
  -- its start, and however the accesses of their threads and the sweeps of the caches interleave,
  -- the caches are valid, with values that upstream gave for their keys; and each call can make
  -- its next access, or else it has returned by a reply that is right for it: an OK reply has the
  -- list that upstream gave, the amount times a rate that upstream gave for just the pair, the
  -- series that it gave for just the query, in a range that ends no later than a day that the
  -- clock has shown, or the constraints of such a day; any other has the status of an exception
  -- for which there is a reason, in the request or in an answer of upstream, and leaves the
  -- response untouched.
  pub Execution-IsServed_rightly :
      (laws : OutsideLaws J seen outside) (world : W) (s : Server W D) (y : Threads W D)
      → J world
      → start settings world ≡ some s
      → Execution outside settings (record { state = s; threads = [] }) y
      → Holds J seen outside settings laws y.state
        × All (IsServed outside settings (IsSharedReply seen outside settings) y.state) y.threads
  Execution-IsServed_rightly laws world s y j e run =
      Execution-IsServed outside settings (Holds J seen outside settings laws)
        (IsSharedReply seen outside settings) (serve_amid-IsReplyBy J seen outside settings laws)
        (let up = upstream seen outside settings in
          Holding-IsSwept J (IsCatalog up.Listed) (IsCachedRate up) (IsCachedSeries up))
        run (start-Holds J seen outside settings laws world s j e)
