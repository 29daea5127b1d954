-- ===== src/Credentials/Oauth.antt =====
-- The token refresh of src/credentials/oauth.rs.
use codex_proxy_rs.Base.{
  ℕ, Bool, ◌&&◌, Option, Str, codes, [], ℤ, pos, ◌-ℤ◌, wrap, leb_ℤ, leb, ltb, if◌then◌else◌,
  is_empty, get_or, ◌++◌,
}
use codex_proxy_rs.Credentials.{Result, ok, err, Action, CredentialsError, refresh}

abbrev pub client_id_text : Str
client_id_text = codes "app_EMoamEEZ73f0CkXaXp7hrann"

abbrev pub token_expiry_buffer_ms : ℤ
token_expiry_buffer_ms = pos 3600000

unfoldable pub token_expired : ℤ → ℤ → Bool
unfolding leb_ℤ wrap ◌-ℤ◌
token_expired expires_at_ms now_ms = leb_ℤ (wrap (expires_at_ms -ℤ token_expiry_buffer_ms)) now_ms

pub record TokenRefreshRequest : Type 0 where
  pub grant_type : Str
  pub refresh_token : Str
  pub client_id : Str
  pub scope : Str

pub record TokenRefreshResponse : Type 0 where
  pub access_token : Str
  pub refresh_token : Str
  pub expires_in : ℤ

abbrev pub refresh_request : Str → TokenRefreshRequest
refresh_request token = record {
  grant_type = codes "refresh_token";
  refresh_token = token;
  client_id = client_id_text;
  scope = codes "openid profile email";
}

-- An answer of the token endpoint: its body as text, where it can be read, and as the response
-- that it holds, or the error of reading it so.
pub record TokenAnswer : Type 0 where
  pub status : ℕ
  pub body : Option Str
  pub parsed : Result Str TokenRefreshResponse

-- The HTTP client, the clock and the texts of a status and of a number, from the libraries.
pub record Services (World : Type 0) : Type 0 where
  pub post : Str → TokenRefreshRequest → World → Result Str TokenAnswer × World
  pub now_ms : World → ℤ
  pub show_status : ℕ → Str
  pub show_int : ℤ → Str

abbrev pub is_success : ℕ → Bool
is_success status = leb 200 status && ltb status 300

module _ {World : Type 0} (services : Services World) where
  abbrev pub check_parsed :
      Result Str TokenRefreshResponse → Result CredentialsError TokenRefreshResponse
  check_parsed (err e) = err (refresh (codes "invalid token response: " ++ e))
  check_parsed (ok parsed) =
      if is_empty parsed.access_token
      then err (refresh (codes "token endpoint returned an empty access_token"))
      else ok parsed

  abbrev pub check_answer : Result Str TokenAnswer → Result CredentialsError TokenRefreshResponse
  check_answer (err e) = err (refresh (codes "request failed: " ++ e))
  check_answer (ok resp) =
      if is_success resp.status
      then check_parsed resp.parsed
      else err (
          refresh (
            codes "token endpoint returned "
            ++ (services.show_status resp.status ++ (codes ": " ++ get_or resp.body []))))

  unfoldable pub refresh_token : Str → Str → Action World TokenRefreshResponse
  refresh_token token_url token w =
      let (answer, after) = services.post token_url (refresh_request token) w in
      (check_answer answer, after)
