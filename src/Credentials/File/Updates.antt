-- ===== src/Credentials/File/Updates.antt =====
-- What the operations of src/credentials/fs.rs leave in the credentials file.
use codex_proxy_rs.Base.{
  false, Str, Bytes, ◌≡◌, refl, sym, ap, subst, ◌∙◌, ◌⊎◌, inl, inr, ℤ, is_empty, text_eq,
}
use codex_proxy_rs.Credentials.{
  Result, ok, err, lift, bind-ok, ◌>>=◌, CredentialsError, storage, OAuthCredentials,
}
use codex_proxy_rs.Credentials.Storage.{
  Disk, DiskLaws, Location, map_storage, map_parse, make_parents, replace_file,
}
use codex_proxy_rs.Credentials.Storage.Atomic.{
  bind-both, stored, make_parents-Frames, IsAtomic, IsApart, replace_file-IsAtomic,
}
use codex_proxy_rs.Credentials.File.{
  FsAuth, AuthCodec, read_raw, full, read, write_raw, with_tokens, update_file, init, initial,
}

-- What is written reads back as it was.
abbrev pub IsLossless : AuthCodec → Type 0
IsLossless codec =
    (auth : FsAuth) (content : Bytes)
    → codec.to_vec_pretty auth ≡ ok content
    → codec.from_slice content ≡ ok auth

module _ {World : Type 0} (disk : Disk World) (laws : DiskLaws disk) (codec : AuthCodec)
    (lossless : IsLossless codec) (at : Location) (apart : IsApart disk laws at) where
  -- The file holds `auth`.
  abbrev pub Holds : FsAuth → World → Type 0
  Holds auth w = (read_raw disk codec at w).0 ≡ ok auth

  -- What a write of `auth` that began at `w` leaves, by how it ended.
  abbrev pub IsWrite : World → FsAuth → Result CredentialsError Unit × World → Type 0
  IsWrite w auth (ok _, after) = Holds auth after
  IsWrite w auth (err _, after) =
      Holds auth after ⊎ (stored disk laws at after ≡ stored disk laws at w)

  abbrev pub loaded : Result Str Bytes → Result CredentialsError FsAuth
  loaded (ok content) = map_parse (codec.from_slice content)
  loaded (err e) = err (storage e)

  -- A read changes nothing, and its result is that of the stored content.
  pub read_raw-stored : (w : World) → read_raw disk codec at w ≡ (loaded (stored disk laws at w), w)
  unfolding read_raw
  read_raw-stored w = go (stored disk laws at w)
    where
      go :
          (r : Result Str Bytes)
          → ◌≡◌ {A = Result CredentialsError FsAuth × World}
              (elim (map_storage r) [
                | ok content ↦ (map_parse (codec.from_slice content), w)
                | err e ↦ (err e, w)
              ])
              (loaded r, w)
      go (ok content) = refl
      go (err e) = refl

  holds :
      (auth : FsAuth) (content : Bytes) (w : World)
      → codec.to_vec_pretty auth ≡ ok content
      → stored disk laws at w ≡ ok content
      → Holds auth w
  holds auth content w printed found =
      ap (λ p. p.0) (read_raw-stored w)
      ∙ (ap loaded found ∙ ap map_parse (lossless auth content printed))

  -- A write that succeeds leaves the new content, and one that fails at any step leaves the old
  -- content or the new.
  pub write_raw-IsWrite :
      (auth : FsAuth) (w : World) → IsWrite w auth (write_raw disk codec at auth w)
  unfolding write_raw
  write_raw-IsWrite auth w =
      let created = (make_parents disk at.ancestors w).1 in
      let kept = make_parents-Frames disk laws at at.ancestors w in
      bind-both (make_parents disk at.ancestors)
        (λ _.
          lift (map_parse (codec.to_vec_pretty auth)) >>= λ content. replace_file disk at content)
        w (IsWrite w auth) (λ e _. inr kept)
        (λ u _. go created kept (codec.to_vec_pretty auth) refl)
    where
      written :
          (created : World) (content : Bytes)
          → codec.to_vec_pretty auth ≡ ok content
          → (p : Result CredentialsError Unit × World)
          → IsAtomic disk laws at (stored disk laws at w) content p
          → IsWrite w auth p
      written created content printed (ok u, after) h = holds auth content after printed h
      written created content printed (err e, after) (inl new) =
          inl (holds auth content after printed new)
      written created content printed (err e, after) (inr old) = inr old

      go :
          (created : World)
          → stored disk laws at created ≡ stored disk laws at w
          → (r : Result Str Bytes) → codec.to_vec_pretty auth ≡ r
          → IsWrite w auth
              ((lift (map_parse r) >>= λ content. replace_file disk at content) created)
      go created kept (err e) printed = inr kept
      go created kept (ok content) printed = written created content printed _ (
          subst (λ b. IsAtomic disk laws at b content (replace_file disk at content created)) kept
            (replace_file-IsAtomic disk laws at content created apart))

  -- The credentials of a file with a token and an account.
  pub full-tokens :
      (auth : FsAuth)
      → is_empty auth.tokens.access_token ≡ false
      → is_empty auth.tokens.account_id ≡ false
      → full auth
        ≡ ok (record {
          access_token = auth.tokens.access_token;
          refresh_token = auth.tokens.refresh_token;
          expires_at_ms = auth.tokens.expires_at;
          user_id = auth.tokens.account_id;
        })
  unfolding full
  full-tokens auth token account = rw token (rw (token, account) refl)

  pub read_raw-Holds :
      (auth : FsAuth) (w : World) → Holds auth w → read_raw disk codec at w ≡ (ok auth, w)
  read_raw-Holds auth w h =
      read_raw-stored w ∙ ap (λ r. (r, w)) (sym (ap (λ p. p.0) (read_raw-stored w)) ∙ h)

  pub Holds-frame :
      (auth : FsAuth) {w after : World}
      → stored disk laws at after ≡ stored disk laws at w
      → Holds auth w
      → Holds auth after
  Holds-frame auth {w} {after} same h =
      ap (λ p. p.0) (read_raw-stored after)
      ∙ (ap loaded same ∙ (sym (ap (λ p. p.0) (read_raw-stored w)) ∙ h))

  -- The file as `read` gives it.
  pub read-Holds :
      (auth : FsAuth) (w : World) → Holds auth w → read disk codec at w ≡ (full auth, w)
  unfolding read
  read-Holds auth w h =
      bind-ok (read_raw disk codec at) (λ auth. lift (full auth)) w (read_raw-Holds auth w h)

  -- An update of a file that holds `auth`, by how it ended.
  pub update_file-IsWrite :
      (auth : FsAuth) (access_token refresh_token : Str) (expires_at_ms : ℤ) (w : World)
      → Holds auth w
      → IsWrite w
          (with_tokens auth access_token refresh_token expires_at_ms)
          (update_file disk codec at access_token refresh_token expires_at_ms w)
  unfolding update_file
  update_file-IsWrite auth access_token refresh_token expires_at_ms w h =
      let updated = λ (auth : FsAuth). with_tokens auth access_token refresh_token expires_at_ms in
      subst (IsWrite w (updated auth))
        (sym (
          bind-ok (read_raw disk codec at) (λ auth. write_raw disk codec at (updated auth)) w
            (read_raw-Holds auth w h)))
        (write_raw-IsWrite (updated auth) w)

  pub init-IsWrite :
      (creds : OAuthCredentials) (w : World)
      → IsWrite w (initial creds) (init disk codec at creds w)
  unfolding init
  init-IsWrite creds w = write_raw-IsWrite (initial creds) w
