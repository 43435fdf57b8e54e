-- ===== src/Tests/Transparency.antt =====
-- A run against the server without caches.
use currency_converter_demo.Base.{sym, ◌∙◌, subst, refl, Str, bytes, str_dec, All}
use native.Mathlib.Decide.{ℕ_discrete}
use currency_converter_demo.Exec.{◌>>=◌, require, served}
use currency_converter_demo.External.Fixed.{fixed_http}
use currency_converter_demo.Application.Uncached.{no_cache}
use currency_converter_demo.External.Payload.{read_currencies, rethrow}
use currency_converter_demo.External.Frankfurter
use currency_converter_demo.External.Frankfurter.{get, body_of, escape, request_for}
use currency_converter_demo.Exec.Runs.{Ends, Never}
use currency_converter_demo.Exec.Agreement.{ok-injective}
use currency_converter_demo.External.Http.{Request}
use currency_converter_demo.Application.Transparency.{IsFetchedList, PlainList}
use currency_converter_demo.Application.Catalog.{cache_key, list_currencies, store_currencies}
use currency_converter_demo.Server.{serve_all}
use currency_converter_demo.Server.Reference.{fixed_client, AreSameReplies}
use currency_converter_demo.Server.Transparency.{SteadyOutside, Serves}
use currency_converter_demo.Server.Transparency.Replies.{serve_all-AreSameReplies}
use currency_converter_demo.Tests.Sample.{
  Any, body_for, outside, settings, world, two_currencies, two_currencies-NoBar,
}
use currency_converter_demo.Tests.Services.{calls, server, started}

abbrev pub page : Request → Str
page r = body_for r.path

abbrev pub today : Str
today = bytes "2024-06-01"

all_of_it : Unit {0}
unfolding two_currencies str_dec ℕ_discrete ◌>>=◌ fixed_http no_cache list_currencies
    store_currencies require served read_currencies get Frankfurter.list_currencies body_of escape
    rethrow request_for
all_of_it = tt

fetched : IsFetchedList (fixed_client page today outside settings) cache_key two_currencies
unfolding all_of_it
fetched = refl

plain_list : PlainList (fixed_client page today outside settings)
plain_list l e = subst (All _) (ok-injective (sym fetched ∙ e)) two_currencies-NoBar

pub transparent : SteadyOutside Any page today outside settings
transparent = record {
  http = record {
    open_keeps = λ secure host port. record { at = λ s i. tt };
    exchange_keeps = λ r. record { at = λ s i. (tt, λ e. refl) };
  };
  steady = record { at = λ s i. tt };
  system = record { at = λ s i. (tt, refl) };
  plain = plain_list;
}

serve_all-AreSameReplies_example :
    Ends
      (λ rs t.
        Serves Any page today outside settings transparent t
        × AreSameReplies page today outside settings calls rs)
      Never
      (serve_all outside settings calls server)
serve_all-AreSameReplies_example =
    serve_all-AreSameReplies Any page today outside settings transparent world server calls tt
      started
