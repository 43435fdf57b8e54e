-- ===== src/External/Timeouts.antt =====
-- The time limit of a request (`FrankfurterClient::get` in
-- backend/src/external/FrankfurterClient.cpp): milliseconds as seconds and microseconds.
use currency_converter_demo.Base.{◌+◌, ◌*◌, ◌<◌, ◌≡◌, ℤ, pos, negsuc, pos_part, neg_part, arith}
use currency_converter_demo.External.Http.{Uri}
use currency_converter_demo.External.Frankfurter.{FrankfurterClient, request_for, quot, rem, times}

parts :
    (t : ℤ)
    → (1_000_000 * pos_part (quot t 1000) + pos_part (times (rem t 1000) 1000) ≡ 1000 * pos_part t)
      × (1_000_000 * neg_part (quot t 1000) + neg_part (times (rem t 1000) 1000)
          ≡ 1000 * neg_part t)
      × (pos_part (times (rem t 1000) 1000) < 1_000_000)
      × (neg_part (times (rem t 1000) 1000) < 1_000_000)
unfolding quot rem times
parts (pos n) = ground arith
parts (negsuc n) = ground arith

-- The seconds and microseconds of a request make up the time limit of the client, in which there are
-- milliseconds, be it before or after zero, and the microseconds are less than a second.
pub request_for-timeout :
    (self : FrankfurterClient) (uri : Uri)
    → let r = request_for self uri in
      (1_000_000 * pos_part r.seconds + pos_part r.microseconds ≡ 1000 * pos_part self.timeout)
      × (1_000_000 * neg_part r.seconds + neg_part r.microseconds ≡ 1000 * neg_part self.timeout)
      × (pos_part r.microseconds < 1_000_000)
      × (neg_part r.microseconds < 1_000_000)
unfolding request_for
request_for-timeout self uri = parts self.timeout
