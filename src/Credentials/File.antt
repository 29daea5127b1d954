-- ===== src/Credentials/File.antt =====
-- `FsAuthFile` of src/credentials/fs.rs: the credentials file with its reads and its updates.

pub mod Updates
use codex_proxy_rs.Base.{ℤ, pos, ◌||◌, Bool, Str, Bytes, codes, [], if◌then◌else◌, is_empty}
use codex_proxy_rs.Credentials.{
  Result, ok, err, Action, pure, raise, lift, ◌>>=◌, ◌>>◌, CredentialsError, unavailable,
  OAuthCredentials,
}
use codex_proxy_rs.Credentials.Storage.{
  Disk, Location, map_storage, map_parse, make_parents, replace_file,
}

-- `FsTokens`; `FsAuth` has it as its only field.
pub record FsTokens : Type 0 where
  pub id_token : Str
  pub access_token : Str
  pub refresh_token : Str
  pub account_id : Str
  pub expires_at : ℤ

pub record FsAuth : Type 0 where
  pub tokens : FsTokens

-- `FsAuth::default()`.
abbrev pub default_auth : FsAuth
default_auth = record {
  tokens = record {
    id_token = [];
    access_token = [];
    refresh_token = [];
    account_id = [];
    expires_at = pos 0;
  };
}

-- The derived code that reads and writes `FsAuth` as JSON; an error is its text.
pub record AuthCodec : Type 0 where
  pub from_slice : Bytes → Result Str FsAuth
  pub to_vec_pretty : FsAuth → Result Str Bytes

-- The full credentials that a file holds.
unfoldable pub full : FsAuth → Result CredentialsError OAuthCredentials
full auth =
    let tokens = auth.tokens in
    let token = if is_empty tokens.access_token then tokens.id_token else tokens.access_token in
    if is_empty token || is_empty tokens.account_id
    then err (unavailable (codes "missing token or account_id in credentials file"))
    else ok (record {
      access_token = token;
      refresh_token = tokens.refresh_token;
      expires_at_ms = tokens.expires_at;
      user_id = tokens.account_id;
    })

-- The file with new tokens.
abbrev pub with_tokens : FsAuth → Str → Str → ℤ → FsAuth
with_tokens auth access_token refresh_token expires_at_ms = record auth {
  tokens = record auth.tokens {
    access_token = access_token;
    refresh_token = refresh_token;
    expires_at = expires_at_ms;
  };
}

-- The file that `init` creates.
abbrev pub initial : OAuthCredentials → FsAuth
initial creds = record default_auth {
  tokens = record default_auth.tokens {
    access_token = creds.access_token;
    refresh_token = creds.refresh_token;
    expires_at = creds.expires_at_ms;
    account_id = creds.user_id;
  };
}

module _ {World : Type 0} (disk : Disk World) (codec : AuthCodec) (at : Location) where
  unfoldable pub exists : World → Bool
  exists w = disk.exists at.path w

  abbrev load : Action World Bytes
  load w = (map_storage (disk.read_file at.path w), w)

  unfoldable pub read_raw : Action World FsAuth
  read_raw = do bytes ← load; lift (map_parse (codec.from_slice bytes))

  -- `FsAuthFile::read`.
  unfoldable pub read : Action World OAuthCredentials
  unfolding read_raw full
  read = do auth ← read_raw; lift (full auth)

  unfoldable pub write_raw : FsAuth → Action World Unit
  unfolding make_parents replace_file
  write_raw auth = do
    make_parents disk at.ancestors
    content ← lift (map_parse (codec.to_vec_pretty auth))
    replace_file disk at content

  -- `FsAuthFile::update_tokens`.
  unfoldable pub update_file : Str → Str → ℤ → Action World Unit
  unfolding read_raw write_raw
  update_file access_token refresh_token expires_at_ms = do
    auth ← read_raw
    write_raw (with_tokens auth access_token refresh_token expires_at_ms)

  unfoldable pub init : OAuthCredentials → Action World Unit
  unfolding write_raw
  init creds = write_raw (initial creds)
