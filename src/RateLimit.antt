-- ===== src/RateLimit.antt =====
-- The subscription's rate-limit headers: src/ratelimit.rs.
use codex_proxy_rs.Base.{
  ℕ, zero, suc, ◌+◌, ◌-◌, ◌*◌, ◌≤◌, ◌≡◌, Bool, not, ◌&&◌, [], ◌∷◌, ◌++◌, Option, none, some, Str,
  codes, trim, leb, is_some, subst, nat_eq, ◌==◌, ℤ, pos, negsuc, neg, i64_max, if◌then◌else◌,
  Bool-cases, inl, inr, arith,
}
use codex_proxy_rs.Json.{◌>>=◌}
use codex_proxy_rs.Http.{Headers, header_str}

-- `Window`, over the type of the floating-point numbers.
pub record Window (F : Type 0) : Type 0 where
  pub used_percent : F
  pub window_minutes : Option ℤ
  pub reset_at : Option ℤ

pub record RateLimits (F : Type 0) : Type 0 where
  pub primary : Option (Window F)
  pub secondary : Option (Window F)

-- What the source takes from the standard library's `f64`: `clamp` is that to 0 and 100.
pub record Floats (F : Type 0) : Type 0 where
  pub parse : Str → Option F
  pub is_finite : F → Bool
  pub clamp : F → F

-- Decimal digits, at least one, after a number that is read already.
unfoldable pub digits_from : ℕ → Str → Option ℕ
digits_from n [] = some n
digits_from n (c ∷ s) =
    let rest = digits_from (n * 10 + (c - 48)) s in if leb 48 c && leb c 57 then rest else none

abbrev pub digits_of : Str → Option ℕ
digits_of [] = none
digits_of (c ∷ s) = digits_from 0 (c ∷ s)

-- A number that fits into `i64`.
abbrev pub positive_of : Option ℕ → Option ℤ
positive_of none = none
positive_of (some n) = if leb n i64_max then some (pos n) else none

abbrev pub negative_of : Option ℕ → Option ℤ
negative_of none = none
negative_of (some n) = if leb n (suc i64_max) then some (neg n) else none

-- `str::parse::<i64>`.
unfoldable pub i64_of : Str → Option ℤ
unfolding digits_from neg
i64_of [] = none
i64_of (c ∷ s) =
    if c == b'-'
    then negative_of (digits_of s)
    else if c == b'+'
    then positive_of (digits_of s)
    else positive_of (digits_of (c ∷ s))

unfoldable pub parse_i64 : Str → Headers → Option ℤ
unfolding i64_of header_str trim
parse_i64 name headers = header_str name headers >>= λ value. i64_of (trim value)

-- A number of 64 bits.
abbrev pub IsI64 : ℤ → Type 0
IsI64 (pos n) = n ≤ i64_max
IsI64 (negsuc n) = n ≤ i64_max

positive_of-IsI64 : (o : Option ℕ) (v : ℤ) → positive_of o ≡ some v → IsI64 v
positive_of-IsI64 none v h = cc
positive_of-IsI64 (some n) v h = elim (Bool-cases (leb n i64_max)) [
  | inr large ↦ let gone = rw large at h in cc
  | inl fits ↦
      let kept = rw fits at h in let same : pos n ≡ v = cc in subst IsI64 same (ground arith)
]

negative_of-IsI64 : (o : Option ℕ) (v : ℤ) → negative_of o ≡ some v → IsI64 v
unfolding neg
negative_of-IsI64 none v h = cc
negative_of-IsI64 (some zero) v h = let same : pos 0 ≡ v = cc in subst IsI64 same (omega arith)
negative_of-IsI64 (some (suc n)) v h = elim (Bool-cases (leb (suc n) (suc i64_max))) [
  | inr large ↦ let gone = rw large at h in cc
  | inl fits ↦
      let kept = rw fits at h in let same : negsuc n ≡ v = cc in subst IsI64 same (ground arith)
]

-- Whatever the text, a parsed number fits into 64 bits.
pub i64_of-IsI64 : (s : Str) (v : ℤ) → i64_of s ≡ some v → IsI64 v
unfolding i64_of
i64_of-IsI64 [] v h = cc
i64_of-IsI64 (c ∷ s) v h = elim (Bool-cases (c == b'-')) [
  | inl minus ↦ negative_of-IsI64 (digits_of s) v (rw minus at h)
  | inr other ↦ elim (Bool-cases (c == b'+')) [
    | inl plus ↦ positive_of-IsI64 (digits_of s) v (rw (other, plus) at h)
    | inr digit ↦ positive_of-IsI64 (digits_of (c ∷ s)) v (rw (other, digit) at h)
  ]
]

module _ {F : Type 0} (floats : Floats F) where
  abbrev pub finite : Option F → Option F
  finite none = none
  finite (some value) = if floats.is_finite value then some value else none

  unfoldable pub parse_f64 : Str → Headers → Option F
  unfolding header_str trim
  parse_f64 name headers = finite (header_str name headers >>= λ value. floats.parse (trim value))

  abbrev pub window_of : Str → Headers → Option F → Option (Window F)
  window_of kind headers none = none
  window_of kind headers (some used_percent) = some (record {
    used_percent = floats.clamp used_percent;
    window_minutes = parse_i64 (codes "x-codex-" ++ (kind ++ codes "-window-minutes")) headers;
    reset_at = parse_i64 (codes "x-codex-" ++ (kind ++ codes "-reset-at")) headers;
  })

  -- `Window::from_headers`: without the percentage there is no window.
  unfoldable pub window_from_headers : Str → Headers → Option (Window F)
  unfolding parse_f64 parse_i64
  window_from_headers kind headers =
      window_of kind headers
        (parse_f64 (codes "x-codex-" ++ (kind ++ codes "-used-percent")) headers)

  -- `RateLimits::from_headers`.
  unfoldable pub limits_from_headers : Headers → RateLimits F
  unfolding window_from_headers
  limits_from_headers headers = record {
    primary = window_from_headers (codes "primary") headers;
    secondary = window_from_headers (codes "secondary") headers;
  }

  -- `RateLimits::is_empty`.
  unfoldable pub has_no_window : RateLimits F → Bool
  has_no_window limits = not (is_some limits.primary) && not (is_some limits.secondary)
