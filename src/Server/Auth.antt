-- ===== src/Server/Auth.antt =====
-- The admin gate: `admin_auth` of src/server/middleware.rs.
pub mod Compare
pub mod Equality
use Prim.Native.Nat.{bit_or, bit_xor}
use codex_proxy_rs.Base.{
  ℕ, ◌+◌, ◌/◌, ◌%◌, Bool, true, false, not, ◌&&◌, ◌||◌, List, [], ◌∷◌, ◌++◌, Option, none, some,
  Str, Bytes, codes, if◌then◌else◌, ◌==◌, nat_eq, text_eq, is_empty, length, ltb,
  to_ascii_lowercase, split, non_empty,
}
use codex_proxy_rs.Http.{
  Headers, header_str, ApiError, unauthorized, admin_not_configured, Outcome, ok, err,
}

-- The bytes of a character in UTF-8.
unfoldable pub utf8 : ℕ → Bytes
utf8 c =
    if ltb c 0x80
    then c ∷ []
    else if ltb c 0x800
    then (0xc0 + c / 64) ∷ (0x80 + c % 64) ∷ []
    else if ltb c 0x10000
    then (0xe0 + c / 4096) ∷ (0x80 + c / 64 % 64) ∷ (0x80 + c % 64) ∷ []
    else (0xf0 + c / 262144) ∷ (0x80 + c / 4096 % 64) ∷ (0x80 + c / 64 % 64) ∷ (0x80 + c % 64) ∷ []

-- `str::as_bytes`.
unfoldable pub as_bytes : Str → Bytes
unfolding utf8
as_bytes [] = []
as_bytes (c ∷ s) = utf8 c ++ as_bytes s

-- The fold over the pairs of bytes: `zip` stops with the shorter one.
unfoldable pub fold_bytes : ℕ → Bytes → Bytes → ℕ
fold_bytes acc (lhs ∷ provided) (rhs ∷ expected) =
    fold_bytes (bit_or acc (bit_xor lhs rhs)) provided expected
fold_bytes acc _ _ = acc

-- The comparison in constant time.
unfoldable pub matches : Str → Str → Bool
unfolding as_bytes fold_bytes
matches provided admin_key =
    length (as_bytes provided) == length (as_bytes admin_key)
    && fold_bytes 0 (as_bytes provided) (as_bytes admin_key) == 0

abbrev pub bearer_part : List Str → Outcome Str
bearer_part (scheme ∷ key ∷ []) =
    if to_ascii_lowercase scheme == codes "bearer"
    then ok key
    else err (unauthorized (codes "Invalid Authorization header format"))
bearer_part _ = err (unauthorized (codes "Invalid Authorization header format"))

abbrev pub api_key_part : Option Str → Outcome Str
api_key_part none = err (unauthorized (codes "Unauthorized"))
api_key_part (some key) = ok key

abbrev pub auth_part : Option Str → Option Str → Outcome Str
auth_part none x_api_key = api_key_part x_api_key
auth_part (some auth) x_api_key = bearer_part (split 32 auth)

-- The key that the headers give.
unfoldable pub provided_key : Headers → Outcome Str
unfolding header_str split
provided_key headers =
    auth_part (non_empty (header_str (codes "authorization") headers))
      (non_empty (header_str (codes "x-api-key") headers))

abbrev pub check_provided : Str → Outcome Str → Outcome {0} Unit
check_provided admin_key (err e) = err e
check_provided admin_key (ok provided) =
    if matches provided admin_key then ok tt else err (unauthorized (codes "Unauthorized"))

abbrev pub check_configured : Option Str → Headers → Outcome {0} Unit
check_configured none headers = err admin_not_configured
check_configured (some admin_key) headers = check_provided admin_key (provided_key headers)

-- `ok` passes the request on to its handler.
unfoldable pub admin_auth : Option Str → Headers → Outcome {0} Unit
unfolding matches provided_key
admin_auth admin_api_key headers = check_configured (non_empty admin_api_key) headers
