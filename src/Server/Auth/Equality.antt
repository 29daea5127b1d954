-- ===== src/Server/Auth/Equality.antt =====
-- The admin gate of src/server/middleware.rs lets a request through exactly when the key that it
-- gives is the configured one.
use codex_proxy_rs.Base.{
  ℕ, ◌+◌, ◌/◌, ◌%◌, ◌≤◌, ◌<◌, ◌≡◌, refl, ap, sym, subst, ◌∙◌, ◌↔◌, true, false, false≢true, ◌&&◌,
  ◌||◌, List, [], ◌∷◌, ◌++◌, Option, none, some, Str, Bytes, codes, ◌==◌, nat_eq, text_eq, if-both,
  Bool-cases, inl, inr, is_empty, ltb, leb, All, split, cons_head, non_empty, lookup,
  to_ascii_lowercase, arith,
}
use codex_proxy_rs.Json.{◌>>=◌}
use codex_proxy_rs.Http.{Headers, to_str, header_str, Outcome, ok, err}
use codex_proxy_rs.Server.Auth.{
  utf8, as_bytes, matches, bearer_part, auth_part, provided_key, check_provided, admin_auth,
}
use codex_proxy_rs.Server.Auth.Compare.{fold_bytes_iff}

abbrev IsAscii : Str → Type 0
IsAscii s = All (λ c. c < 128) s

utf8-ascii : (c : ℕ) → c < 128 → utf8 c ≡ c ∷ []
unfolding utf8
utf8-ascii c low = let one : ltb c 0x80 ≡ true = ground arith in rw one refl

-- The first byte of any other character is larger than those of ASCII.
utf8-wide : (c : ℕ) → 128 ≤ c → (x : ℕ) × (rest : Bytes) × (128 ≤ x) × (utf8 c ≡ x ∷ rest)
unfolding utf8
utf8-wide c high =
    let more : ltb c 0x80 ≡ false = ground arith in
    elim (Bool-cases (ltb c 0x800)) [
      | inl two ↦ (0xc0 + c / 64, (0x80 + c % 64) ∷ [], omega arith, rw (more, two) refl)
      | inr many ↦ elim (Bool-cases (ltb c 0x10000)) [
        | inl three ↦ (
          0xe0 + c / 4096,
          (0x80 + c / 64 % 64) ∷ (0x80 + c % 64) ∷ [],
          omega arith,
          rw (more, many, three) refl,
        )
        | inr four ↦ (
          0xf0 + c / 262144,
          (0x80 + c / 4096 % 64) ∷ (0x80 + c / 64 % 64) ∷ (0x80 + c % 64) ∷ [],
          omega arith,
          rw (more, many, four) refl,
        )
      ]
    ]

-- The encoding of a text of ASCII tells it from any other text.
as_bytes-injective : (s t : Str) → IsAscii s → as_bytes s ≡ as_bytes t → s ≡ t
unfolding as_bytes
as_bytes-injective [] [] ascii h = refl
as_bytes-injective [] (d ∷ t) ascii h = elim (Bool-cases (ltb d 128)) [
  | inl low ↦ let gone = rw (utf8-ascii d (ground arith)) at h in cc
  | inr wide ↦ let (x, rest, high, e) = utf8-wide d (ground arith) in let gone = rw e at h in cc
]
as_bytes-injective (c ∷ s) [] ascii h = let gone = rw (utf8-ascii c ascii.0) at h in cc
as_bytes-injective (c ∷ s) (d ∷ t) ascii h = elim (Bool-cases (ltb d 128)) [
  | inr wide ↦
      let (x, rest, high, e) = utf8-wide d (ground arith) in
      let both : c ∷ as_bytes s ≡ x ∷ (rest ++ as_bytes t) = rw (utf8-ascii c ascii.0, e) at h in
      let same : c ≡ x = cc in absurd (omega (arith, ascii.0))
  | inl low ↦
      let both : c ∷ as_bytes s ≡ d ∷ as_bytes t =
        rw (utf8-ascii c ascii.0, utf8-ascii d (ground arith)) at h in
      let same : c ≡ d = cc in
      let tails : as_bytes s ≡ as_bytes t = cc in
      let rest = as_bytes-injective s t ascii.1 tails in cc
]

-- The comparison decides whether a text of ASCII is the configured key.
matches_iff :
    (provided admin_key : Str)
    → IsAscii provided
    → (matches provided admin_key ≡ true) ↔ (provided ≡ admin_key)
unfolding matches
matches_iff provided admin_key ascii =
    let bytes = fold_bytes_iff (as_bytes provided) (as_bytes admin_key) in
    (λ h. as_bytes-injective provided admin_key ascii (bytes.0 h), λ e. bytes.1 (ap as_bytes e))

to_str-IsAscii : (s t : Str) → to_str s ≡ some t → IsAscii t
unfolding to_str
to_str-IsAscii [] t h = let e : [] ≡ t = cc in subst IsAscii e tt
to_str-IsAscii (c ∷ s) t h = elim (Bool-cases ((leb 32 c && ltb c 127) || c == 9)) [
  | inr other ↦ let gone = rw other at h in cc
  | inl visible ↦ rest (ground arith) (to_str-IsAscii s) (to_str s) refl (rw visible at h)
]
  where
    rest :
        c < 128
        → ((t : Str) → to_str s ≡ some t → IsAscii t)
        → (o : Option Str) → to_str s ≡ o
        → (o >>= λ t. some (c ∷ t)) ≡ some t
        → IsAscii t
    rest low ih none e h = cc
    rest low ih (some t') e h = let same : c ∷ t' ≡ t = cc in subst IsAscii same (low, ih t' e)

header_str-IsAscii :
    (name : Str) (headers : Headers) (v : Str) → header_str name headers ≡ some v → IsAscii v
unfolding header_str
header_str-IsAscii name headers v h = go (lookup name headers) h
  where
    go : (o : Option Str) → (o >>= to_str) ≡ some v → IsAscii v
    go none h = cc
    go (some raw) h = to_str-IsAscii raw v h

split-IsAscii : (sep : ℕ) (s : Str) → IsAscii s → All IsAscii (split sep s)
unfolding split
split-IsAscii sep [] ascii = (tt, tt)
split-IsAscii sep (c ∷ s) ascii =
    let rest = split-IsAscii sep s ascii.1 in
    if-both (All IsAscii) (c == sep) (tt, rest) (cons_head-IsAscii (split sep s) rest)
  where
    cons_head-IsAscii : (parts : List Str) → All IsAscii parts → All IsAscii (cons_head c parts)
    cons_head-IsAscii [] h = ((ascii.0, tt), tt)
    cons_head-IsAscii (part ∷ parts) h = ((ascii.0, h.0), h.1)

non_empty-some : (o : Option Str) (v : Str) → non_empty o ≡ some v → o ≡ some v
non_empty-some none v h = cc
non_empty-some (some []) v h = cc
non_empty-some (some (c ∷ s)) v h = h

bearer_part-IsAscii :
    (parts : List Str) (key : Str) → All IsAscii parts → bearer_part parts ≡ ok key → IsAscii key
bearer_part-IsAscii [] key ascii h = cc
bearer_part-IsAscii (scheme ∷ []) key ascii h = cc
bearer_part-IsAscii (scheme ∷ part ∷ []) key ascii h =
    elim (Bool-cases (to_ascii_lowercase scheme == codes "bearer")) [
      | inr other ↦ let gone = rw other at h in cc
      | inl bearer ↦
          let found = rw bearer at h in let same : part ≡ key = cc in subst IsAscii same ascii.1.0
    ]
bearer_part-IsAscii (scheme ∷ part ∷ more ∷ parts) key ascii h = cc

auth_part-IsAscii :
    (auth x_api_key : Option Str) (key : Str)
    → ((v : Str) → auth ≡ some v → IsAscii v)
    → ((v : Str) → x_api_key ≡ some v → IsAscii v)
    → auth_part auth x_api_key ≡ ok key
    → IsAscii key
auth_part-IsAscii none none key a x h = cc
auth_part-IsAscii none (some k) key a x h = let same : k ≡ key = cc in subst IsAscii same (x k refl)
auth_part-IsAscii (some auth) x_api_key key a x h =
    bearer_part-IsAscii (split 32 auth) key (split-IsAscii 32 auth (a auth refl)) h

-- Whatever key the headers give is a text of ASCII.
provided_key-IsAscii : (headers : Headers) (key : Str) → provided_key headers ≡ ok key → IsAscii key
unfolding provided_key
provided_key-IsAscii headers key h =
    auth_part-IsAscii (non_empty (header_str (codes "authorization") headers))
      (non_empty (header_str (codes "x-api-key") headers)) key
      (λ v e. header_str-IsAscii (codes "authorization") headers v (non_empty-some _ v e))
      (λ v e. header_str-IsAscii (codes "x-api-key") headers v (non_empty-some _ v e)) h

check_provided-passes :
    (key : Str) (headers : Headers) (r : Outcome Str)
    → provided_key headers ≡ r
    → check_provided key r ≡ ok tt
    → r ≡ ok key
check_provided-passes key headers (err e) got h = cc
check_provided-passes key headers (ok provided) got h = elim (Bool-cases (matches provided key)) [
  | inr other ↦ let gone = rw other at h in cc
  | inl same ↦ ap ok ((matches_iff provided key (provided_key-IsAscii headers provided got)).0 same)
]

check_provided_self : (key : Str) → IsAscii key → check_provided key (ok key) ≡ ok tt
check_provided_self key ascii = rw ((matches_iff key key ascii).1 refl) refl

-- A request passes the gate exactly when a key is configured that is not empty and the headers
-- give that key: the comparison in constant time decides equality.
pub admin_auth_iff :
    (admin_api_key : Option Str) (headers : Headers)
    → (admin_auth admin_api_key headers ≡ ok tt) ↔ (
        (key : Str) × (admin_api_key ≡ some key)
        × (is_empty key ≡ false)
        × (provided_key headers ≡ ok key))
unfolding admin_auth
admin_auth_iff none headers = (λ h. cc, λ (key, e, full, given). cc)
admin_auth_iff (some []) headers = (
  λ h. cc,
  λ (key, e, full, given).
      let same : [] ≡ key = cc in
      absurd (false≢true (sym (subst (λ (s : Str). is_empty s ≡ false) (sym same) full))),
)
admin_auth_iff (some (c ∷ s)) headers = (
  λ h. (c ∷ s, refl, refl, check_provided-passes (c ∷ s) headers (provided_key headers) refl h),
  λ (key, e, full, found).
      let same : key ≡ c ∷ s = cc in
      let given : provided_key headers ≡ ok (c ∷ s) = found ∙ ap ok same in
      ap (check_provided (c ∷ s)) given
      ∙ check_provided_self (c ∷ s) (provided_key-IsAscii headers (c ∷ s) given),
)
