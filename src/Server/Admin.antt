-- ===== src/Server/Admin.antt =====
-- The endpoints for credentials: src/server/admin.rs.
pub mod Push
use codex_proxy_rs.Base.{
  ℕ, suc, ◌/◌, Bool, true, false, not, ◌||◌, List, [], ◌∷◌, Option, none, some, Str, codes,
  if◌then◌else◌, is_empty, ℤ, pos, negsuc, neg, ◌-ℤ◌, wrap, leb_ℤ, is_zero,
}
use codex_proxy_rs.Json.{Value, int_value, text, boolean, object, of_fields}
use codex_proxy_rs.Http.{ApiError, bad_request, internal}
use codex_proxy_rs.Http
use codex_proxy_rs.Credentials.{
  Result, ok, err, CredentialsError, o_auth_unsupported, unavailable, refresh, storage, parse,
  CredentialsKind, basic, o_auth, Credentials, OAuthCredentials, CredentialsFetcher,
}

-- `UpdateCredentialsBody`, as the extractor has read it.
pub record UpdateCredentialsBody : Type 0 where
  pub access_token : Str
  pub refresh_token : Str
  pub expires_at : ℤ
  pub user_id : Option Str

abbrev pub update_error : CredentialsError → ApiError
update_error o_auth_unsupported =
    bad_request (codes "Credentials fetcher does not support OAuth token updates")
update_error _ = internal (codes "Failed to update credentials")

abbrev pub update_answer : Result CredentialsError Unit → Http.Outcome Value
update_answer (err e) = Http.err (update_error e)
update_answer (ok _) = Http.ok (
    object (
      of_fields (
        (codes "status", text (codes "success"))
        ∷ (codes "message", text (codes "Credentials updated successfully"))
        ∷ [])))

abbrev pub is_incomplete : UpdateCredentialsBody → Bool
is_incomplete body =
    is_empty body.access_token || (is_empty body.refresh_token || is_zero body.expires_at)

-- Truncating division by a number that is not zero.
unfoldable pub div_trunc : ℤ → ℕ → ℤ
unfolding neg
div_trunc (pos a) k = pos (a / k)
div_trunc (negsuc a) k = neg (suc a / k)

-- The status of a static token.
abbrev pub basic_status : (CredentialsError → Str) → Result CredentialsError Credentials → Value
basic_status show_error (ok creds) = object (
    of_fields (
      (codes "type", text (codes "basic"))
      ∷ (codes "hasCredentials", boolean (not (is_empty creds.token)))
      ∷ (codes "userID", text creds.account_id)
      ∷ []))
basic_status show_error (err e) = object (
    of_fields (
      (codes "type", text (codes "basic"))
      ∷ (codes "hasCredentials", boolean false)
      ∷ (codes "error", text (show_error e))
      ∷ []))

-- The status of OAuth tokens at a time.
unfoldable pub oauth_status :
    (CredentialsError → Str) → ℤ → Result CredentialsError OAuthCredentials → Value
unfolding div_trunc wrap ◌-ℤ◌ leb_ℤ
oauth_status show_error now_ms (ok full) =
    let minutes_until_expiry = div_trunc (wrap (full.expires_at_ms -ℤ now_ms)) 60000 in
    object (
      of_fields (
        (codes "type", text (codes "oauth"))
        ∷ (codes "hasCredentials", boolean true)
        ∷ (codes "userID", text full.user_id)
        ∷ (codes "expiresAt", int_value full.expires_at_ms)
        ∷ (codes "minutesUntilExpiry", int_value minutes_until_expiry)
        ∷ (codes "isExpired", boolean (leb_ℤ minutes_until_expiry (pos 0)))
        ∷ (codes "needsRefreshSoon", boolean (leb_ℤ minutes_until_expiry (pos 60)))
        ∷ []))
oauth_status show_error now_ms (err e) = object (
    of_fields (
      (codes "type", text (codes "oauth"))
      ∷ (codes "hasCredentials", boolean false)
      ∷ (codes "error", text (show_error e))
      ∷ []))

module _ {World : Type 0} (creds : CredentialsFetcher World) where
  unfoldable pub update_credentials : UpdateCredentialsBody → World → Http.Outcome Value × World
  update_credentials body w =
      if is_incomplete body
      then (
        Http.err
            (bad_request (codes "Missing required fields: accessToken, refreshToken, expiresAt")),
        w,
      )
      else (let (updated, after) =
            creds.update_tokens body.access_token body.refresh_token body.expires_at body.user_id
              w in
          (update_answer updated, after))

  unfoldable pub credentials_status : (CredentialsError → Str) → (World → ℤ) → World → Value × World
  unfolding oauth_status
  credentials_status show_error now_ms w = elim creds.kind [
    | basic ↦ let (found, after) = creds.get_credentials w in (basic_status show_error found, after)
    | o_auth ↦
        let (found, after) = creds.full_credentials w in
        (oauth_status show_error (now_ms after) found, after)
  ]
