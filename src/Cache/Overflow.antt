-- ===== src/Cache/Overflow.antt =====
-- The comparison of ages of `TimeAndSizeBoundedCache` (backend/src/cache/TimeAndSizeBoundedCache.h) on
-- 64-bit integers: both durations become nanoseconds first.
use currency_converter_demo.Base.{
  ℕ, ◌+◌, ◌^◌, ◌≤◌, ◌<◌, ◌≡◌, ◌↔◌, Bool, Option, none, some, ℤ, pos, negsuc, sub_ℕ, ltb, ltb_ℤ,
  if◌then◌else◌, arith,
}
use currency_converter_demo.Cache.Bounded.{◌>>=◌, to_nanoseconds, is_expired}

-- A result in `std::int64_t`; `none` is a signed overflow, which has undefined behaviour.
abbrev fits : ℤ → Bool
fits (pos n) = ltb n (2 ^ 63)
fits (negsuc n) = ltb n (2 ^ 63)

abbrev checked : ℤ → Option ℤ
checked z = if fits z then some z else none

-- `steady_clock::now() - insertedAt > maxAge_`
unfoldable pub is_expired_in_64_bits : ℤ → ℕ → ℕ → Option Bool
is_expired_in_64_bits max_age now inserted_at = checked (sub_ℕ now inserted_at) >>= λ age.
    checked (to_nanoseconds max_age) >>= λ limit. some (ltb_ℤ limit age)

-- No more than 153722867 minutes, before or after zero.
abbrev pub IsRepresentable : ℤ → Type 0
IsRepresentable (pos m) = m ≤ 153_722_867
IsRepresentable (negsuc m) = m + 1 ≤ 153_722_867

-- For readings of the clock that fit in 64 bits, the comparison is the one of the ages as numbers
-- exactly if the age limit is no more than 153722867 minutes, which is 292 years, before or after
-- zero; for any other limit it overflows.
pub is_expired_in_64_bits_lem :
    (max_age : ℤ) (now inserted_at : ℕ)
    → now < 2 ^ 63
    → inserted_at < 2 ^ 63
    → ((is_expired_in_64_bits max_age now inserted_at ≡ some (is_expired max_age now inserted_at))
        ↔ IsRepresentable max_age)
      × ((is_expired_in_64_bits max_age now inserted_at ≡ none) ↔ (¬ IsRepresentable max_age))
unfolding is_expired_in_64_bits is_expired
is_expired_in_64_bits_lem (pos m) now inserted_at a b = ground arith
is_expired_in_64_bits_lem (negsuc m) now inserted_at a b = ground arith
