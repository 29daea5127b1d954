-- ===== src/Server/Admin/Push.antt =====
-- A push of credentials through src/server/admin.rs keeps the credentials file usable.
use codex_proxy_rs.Base.{
  Bool, true, false, ◌||◌, Str, ◌≡◌, refl, Bool-cases, inl, inr, is_empty, is_zero,
}
use codex_proxy_rs.Credentials.{CredentialsError}
use codex_proxy_rs.Credentials.Storage.{Disk, DiskLaws, Location}
use codex_proxy_rs.Credentials.Storage.Atomic.{IsApart}
use codex_proxy_rs.Credentials.File.{AuthCodec}
use codex_proxy_rs.Credentials.File.Updates.{IsLossless}
use codex_proxy_rs.Credentials.Oauth.{Services}
use codex_proxy_rs.Credentials.Refresher.{oauth_fetcher}
use codex_proxy_rs.Credentials.Refresher.Rotation.{IsSeparate, update_tokens-IsLive}
use codex_proxy_rs.Credentials.Refresher.Service.{Live}
use codex_proxy_rs.Server.Admin.{UpdateCredentialsBody, is_incomplete, update_credentials}

module _ {World : Type 0} (disk : Disk World) (laws : DiskLaws disk) (codec : AuthCodec)
    (lossless : IsLossless codec) (at : Location) (apart : IsApart disk laws at)
    (services : Services World) (show_error : CredentialsError → Str) (token_url : Str)
    (separate : IsSeparate disk services at.path) where
  complete : (a b c : Bool) → (a || (b || c)) ≡ false → (a ≡ false) × (b ≡ false)
  complete false false c h = (refl, refl)
  complete false true c h = cc
  complete true b c h = cc

  -- Whatever is pushed, a live file stays live.
  pub update_credentials-IsLive :
      (body : UpdateCredentialsBody) (w : World)
      → Live disk laws codec lossless at apart services show_error token_url separate w
      → Live disk laws codec lossless at apart services show_error token_url separate
          (update_credentials (oauth_fetcher disk codec services show_error at token_url) body w).1
  unfolding update_credentials oauth_fetcher
  update_credentials-IsLive body w live = elim (Bool-cases (is_incomplete body)) [
    | inl incomplete ↦ rw incomplete live
    | inr full ↦
        let (access, token) =
          complete (is_empty body.access_token) (is_empty body.refresh_token)
            (is_zero body.expires_at) full in
        rw full (
          update_tokens-IsLive disk laws codec lossless at apart services show_error token_url
            separate body.access_token body.refresh_token body.expires_at body.user_id w access
            token live)
  ]
