-- ===== src/Credentials/Refresher/Expiry.antt =====
-- The expiry of a token: the buffer of src/credentials/oauth.rs and the new expiry of
-- src/credentials/refresher.rs.
use codex_proxy_rs.Base.{
  ℕ, suc, ◌+◌, ◌*◌, ◌≤◌, ◌<◌, ◌≡◌, ap, ◌↔◌, inl, inr, true, false, leb, Bool-cases, pos, negsuc,
  neg, ◌+ℤ◌, ◌-ℤ◌, opposite, scale, leb_ℤ, saturate, if◌then◌else◌, wrap, of_word, i64_max, arith,
}
use codex_proxy_rs.Credentials.{ok}
use codex_proxy_rs.Credentials.Oauth.{Services, token_expired}
use codex_proxy_rs.Credentials.Refresher.{expires_at_from}

-- A time that is not negative is expired exactly from an hour before it on.
pub token_expired_iff :
    (e now : ℕ) → e ≤ i64_max → (token_expired (pos e) (pos now) ≡ true) ↔ (e ≤ now + 3600000)
unfolding token_expired wrap of_word ◌-ℤ◌ ◌+ℤ◌ opposite neg leb_ℤ
token_expired_iff e now h = ground arith

-- Without overflow checks a time in the last hour before the least of `i64` wraps around and
-- never counts as expired.
pub token_expired-wraps :
    (k now : ℕ)
    → 9223372036851175807 < k
    → k ≤ i64_max
    → now < 9223372036851175807
    → token_expired (negsuc k) (pos now) ≡ false
unfolding token_expired wrap of_word ◌-ℤ◌ ◌+ℤ◌ opposite neg leb_ℤ
token_expired-wraps k now a b c = ground arith

positive : (k : ℕ) → leb (suc k) 0 ≡ false
positive k = ground arith

-- A sum of numbers that are not negative saturates at the greatest number of 64 bits.
saturated_sum :
    (n k : ℕ)
    → saturate (pos n +ℤ saturate (scale (pos (suc k)) 1000))
      ≡ pos (if leb (n + suc k * 1000) i64_max then n + suc k * 1000 else i64_max)
unfolding saturate ◌+ℤ◌ scale
saturated_sum n k = elim (Bool-cases (leb (suc k * 1000) i64_max)) [
  | inr large ↦ ground arith
  | inl small ↦ ground arith
]

-- A positive lifetime of `k + 1` seconds, from a present `n` below the greatest number of 64 bits,
-- gives an expiry that is later than the present: exactly the present and the lifetime in
-- milliseconds where that fits into 64 bits, and the greatest number of 64 bits where it does not.
pub expires_at_from-bounds :
    {World : Type 0} (services : Services World) (k n : ℕ) (w : World)
    → services.now_ms w ≡ pos n
    → n < i64_max
    → (t : ℕ) × (expires_at_from services (pos (suc k)) w ≡ ok (pos t))
      × (n < t)
      × (n + suc k * 1000 ≤ i64_max → t ≡ n + suc k * 1000)
      × (i64_max < n + suc k * 1000 → t ≡ i64_max)
unfolding expires_at_from leb_ℤ
expires_at_from-bounds services k n w now h = (
  if leb (n + suc k * 1000) i64_max then n + suc k * 1000 else i64_max,
  rw (now, positive k) (ap ok (saturated_sum n k)),
  ground arith,
  (λ fits. ground arith),
  (λ large. ground arith),
)
