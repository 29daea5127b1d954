-- ===== src/Credentials/Refresher/Rotation.antt =====
-- What the operations of src/credentials/refresher.rs keep true of the credentials file.
use codex_proxy_rs.Base.{
  false, not, [], Option, none, some, Str, ◌≡◌, refl, sym, ap, subst, ◌∙◌, inl, inr, ℤ, ◌∷◌,
  non_empty, is_empty, if-both, Bool-cases, text_eq,
}
use codex_proxy_rs.Credentials.{
  Result, ok, err, pure, bind-ok, ◌>>=◌, ◌>>◌, CredentialsError, OAuthCredentials,
}
use codex_proxy_rs.Credentials.Storage.{Disk, DiskLaws, Location}
use codex_proxy_rs.Credentials.Storage.Atomic.{bind-both, stored, IsApart}
use codex_proxy_rs.Credentials.File
use codex_proxy_rs.Credentials.File.{FsAuth, AuthCodec, full, read, with_tokens, update_file}
use codex_proxy_rs.Credentials.File.Updates.{
  IsLossless, Holds, IsWrite, Holds-frame, read-Holds, full-tokens, update_file-IsWrite,
  init-IsWrite,
}
use codex_proxy_rs.Credentials.Oauth.{
  Services, TokenRefreshRequest, TokenRefreshResponse, TokenAnswer, token_expired, refresh_token,
  refresh_request, check_answer, check_parsed, is_success,
}
use codex_proxy_rs.Credentials.Refresher.{
  new_expiry, kept_or_new, persist, refresh_and_persist, check_and_refresh, check_found, bootstrap,
  refresh_credentials, update_tokens,
}

-- The client of the token endpoint leaves the file alone.
abbrev pub IsSeparate :
    {World : Type 0} (disk : Disk World) (services : Services World) → Str → Type 0
IsSeparate {World} disk services path =
    (url : Str) (request : TokenRefreshRequest) (w : World)
    → disk.read_file path (services.post url request w).1 ≡ disk.read_file path w

module _ {World : Type 0} (disk : Disk World) (laws : DiskLaws disk) (codec : AuthCodec)
    (lossless : IsLossless codec) (at : Location) (apart : IsApart disk laws at)
    (services : Services World) (show_error : CredentialsError → Str) (token_url : Str)
    (separate : IsSeparate disk services at.path) where
  -- The file can be read, and its tokens and its account are not empty.
  pub record IsLive (w : World) : Type 0 where
    pub file : FsAuth
    pub held : Holds disk laws codec lossless at apart file w
    pub has_access : is_empty file.tokens.access_token ≡ false
    pub has_refresh : is_empty file.tokens.refresh_token ≡ false
    pub has_account : is_empty file.tokens.account_id ≡ false

  pub IsLive-frame :
      {w after : World}
      → stored disk laws at after ≡ stored disk laws at w
      → IsLive w
      → IsLive after
  IsLive-frame {w} {after} same live = record {
    file = live.file;
    has_access = live.has_access;
    has_refresh = live.has_refresh;
    has_account = live.has_account;
    held = Holds-frame disk laws codec lossless at apart live.file same live.held;
  }

  written-IsLive :
      (auth : FsAuth) (w : World) (p : Result CredentialsError Unit × World)
      → is_empty auth.tokens.access_token ≡ false
      → is_empty auth.tokens.refresh_token ≡ false
      → is_empty auth.tokens.account_id ≡ false
      → IsWrite disk laws codec lossless at apart w auth p
      → IsLive w
      → IsLive p.1
  written-IsLive auth w p access token account h live = go p h
    where
      fresh : (after : World) → Holds disk laws codec lossless at apart auth after → IsLive after
      fresh after h = record {
        file = auth;
        held = h;
        has_access = access;
        has_refresh = token;
        has_account = account;
      }

      go :
          (p : Result CredentialsError Unit × World)
          → IsWrite disk laws codec lossless at apart w auth p
          → IsLive p.1
      go (ok u, after) h = fresh after h
      go (err e, after) (inl h) = fresh after h
      go (err e, after) (inr h) = IsLive-frame h live

  pub update_file-IsLive :
      (access_token refresh_token : Str) (expires_at_ms : ℤ) (w : World)
      → is_empty access_token ≡ false
      → is_empty refresh_token ≡ false
      → IsLive w
      → IsLive (update_file disk codec at access_token refresh_token expires_at_ms w).1
  update_file-IsLive access_token refresh_token expires_at_ms w access token live =
      written-IsLive (with_tokens live.file access_token refresh_token expires_at_ms) w _ access
        token live.has_account
        (update_file-IsWrite disk laws codec lossless at apart live.file access_token refresh_token
          expires_at_ms w live.held)
        live

  pub refresh_token-frame :
      (token : Str) (w : World)
      → stored disk laws at (refresh_token services token_url token w).1 ≡ stored disk laws at w
  unfolding refresh_token
  refresh_token-frame token w = separate token_url _ w

  pub kept_or_new-live :
      (current received : Str)
      → is_empty current ≡ false
      → is_empty (kept_or_new current received) ≡ false
  kept_or_new-live current [] h = h
  kept_or_new-live current (c ∷ s) h = refl

  -- An accepted answer has an access token.
  check_answer-access :
      (r : Result Str TokenAnswer) (t : TokenRefreshResponse)
      → check_answer services r ≡ ok t
      → is_empty t.access_token ≡ false
  check_answer-access (err e) t h = cc
  check_answer-access (ok resp) t h = elim (Bool-cases (is_success resp.status)) [
    | inr failed ↦ let gone = rw failed at h in cc
    | inl good ↦ parsed resp.parsed (rw good at h)
  ]
    where
      parsed :
          (r : Result Str TokenRefreshResponse)
          → check_parsed services r ≡ ok t
          → is_empty t.access_token ≡ false
      parsed (err e) h = cc
      parsed (ok p) h = elim (Bool-cases (is_empty p.access_token)) [
        | inl missing ↦ let gone = rw missing at h in cc
        | inr given ↦
            let same = rw given at h in
            let e : p ≡ t = cc in
            subst (λ (q : TokenRefreshResponse). is_empty q.access_token ≡ false) e given
      ]

  pub refresh_token-access :
      (token : Str) (w : World) (t : TokenRefreshResponse)
      → (refresh_token services token_url token w).0 ≡ ok t
      → is_empty t.access_token ≡ false
  unfolding refresh_token
  refresh_token-access token w t h =
      check_answer-access (services.post token_url (refresh_request token) w).0 t h

  persist-IsLive :
      (current : OAuthCredentials) (t : TokenRefreshResponse) (e : ℤ) (w : World)
      → is_empty current.refresh_token ≡ false
      → is_empty t.access_token ≡ false
      → IsLive w
      → IsLive (persist disk codec services show_error at token_url current t e w).1
  unfolding persist
  persist-IsLive current t e w token access live =
      let refresh_token = kept_or_new current.refresh_token t.refresh_token in
      let updated =
        update_file-IsLive t.access_token refresh_token e w access
          (kept_or_new-live current.refresh_token t.refresh_token token) live in
      bind-both (update_file disk codec at t.access_token refresh_token e)
        (λ _. pure (record {
          access_token = t.access_token;
          refresh_token = refresh_token;
          expires_at_ms = e;
          user_id = current.user_id;
        }))
        w (λ p. IsLive p.1) (λ _ _. updated) (λ _ _. updated)

  refresh_and_persist-IsLive :
      (current : OAuthCredentials) (w : World)
      → is_empty current.refresh_token ≡ false
      → IsLive w
      → IsLive (refresh_and_persist disk codec services show_error at token_url current w).1
  unfolding refresh_and_persist
  refresh_and_persist-IsLive current w token live =
      let received = (refresh_token services token_url current.refresh_token w).1 in
      let still : IsLive received =
        IsLive-frame (refresh_token-frame current.refresh_token w) live in
      let store = persist disk codec services show_error at token_url current in
      let expiry = new_expiry disk codec services show_error at token_url in
      bind-both (refresh_token services token_url current.refresh_token)
        (λ t. expiry t.expires_in >>= store t) w (λ p. IsLive p.1) (λ _ _. still)
        (λ t good.
          bind-both (expiry t.expires_in) (store t) received (λ p. IsLive p.1) (λ _ _. still)
            (λ e _.
              persist-IsLive current t e received token
                (refresh_token-access current.refresh_token w t good) still))

  -- The credentials in a live file.
  abbrev pub held_credentials : {w : World} → IsLive w → OAuthCredentials
  held_credentials live = record {
    access_token = live.file.tokens.access_token;
    refresh_token = live.file.tokens.refresh_token;
    expires_at_ms = live.file.tokens.expires_at;
    user_id = live.file.tokens.account_id;
  }

  pub read-IsLive :
      {w : World} (live : IsLive w) → read disk codec at w ≡ (ok (held_credentials live), w)
  read-IsLive {w} live =
      read-Holds disk laws codec lossless at apart live.file w live.held
      ∙ ap (λ r. (r, w))
          (full-tokens disk laws codec lossless at apart live.file live.has_access live.has_account)

  pub refresh_credentials-IsLive :
      (w : World)
      → IsLive w
      → IsLive (refresh_credentials disk codec services show_error at token_url w).1
  unfolding refresh_credentials
  refresh_credentials-IsLive w live =
      let refreshed = refresh_and_persist-IsLive (held_credentials live) w live.has_refresh live in
      let again = refresh_and_persist disk codec services show_error at token_url in
      subst (λ (p : Result CredentialsError Unit × World). IsLive p.1)
        (sym (bind-ok (read disk codec at) (λ creds. again creds >> pure tt) w (read-IsLive live)))
        (bind-both (again (held_credentials live)) (λ _. pure tt) w (λ p. IsLive p.1)
          (λ _ _. refreshed) (λ _ _. refreshed))

  pub check_and_refresh-IsLive :
      (w : World)
      → IsLive w
      → IsLive (check_and_refresh disk codec services show_error at token_url w)
  unfolding check_and_refresh
  check_and_refresh-IsLive w live =
      subst
        (λ (p : Result CredentialsError OAuthCredentials × World).
          IsLive (check_found disk codec services show_error at token_url p.0 p.1))
        (sym (read-IsLive live))
        (if-both IsLive (not (token_expired live.file.tokens.expires_at (services.now_ms w))) live
          (refresh_and_persist-IsLive (held_credentials live) w live.has_refresh live))

  -- A push with tokens that are not empty; without a file it needs an account.
  pub update_tokens-IsLive :
      (access_token refresh_token : Str) (expires_at_ms : ℤ) (user_id : Option Str) (w : World)
      → is_empty access_token ≡ false
      → is_empty refresh_token ≡ false
      → IsLive w
      → IsLive
          (update_tokens disk codec services show_error at token_url access_token refresh_token
            expires_at_ms user_id w).1
  unfolding update_tokens
  update_tokens-IsLive access_token refresh_token expires_at_ms user_id w access token live =
      if-both (λ (p : Result CredentialsError Unit × World). IsLive p.1)
        (File.exists disk codec at w)
        (update_file-IsLive access_token refresh_token expires_at_ms w access token live)
        (go user_id)
    where
      go :
          (user_id : Option Str)
          → IsLive
              (bootstrap disk codec services show_error at token_url access_token refresh_token
                expires_at_ms
                (non_empty user_id)
                w).1
      go none = live
      go (some []) = live
      go (some (c ∷ id)) =
          written-IsLive _ w _ access token refl
            (init-IsWrite disk laws codec lossless at apart _ w) live
