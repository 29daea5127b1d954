-- ===== src/Credentials/Storage/Atomic.antt =====
-- A write of the credentials file is atomic: a reader finds the old content or the new one.
use codex_proxy_rs.Base.{
  ℕ, false, List, [], ◌∷◌, ◌++◌, Str, Bytes, ◌≡◌, refl, subst, reverse, ◌∙◌, ◌==◌, text_eq, codes,
  ◌⊎◌, inl, inr,
}
use codex_proxy_rs.Credentials.{Result, ok, err, Action, ◌>>=◌, ◌>>◌, CredentialsError}
use codex_proxy_rs.Credentials.Storage.{
  Disk, DiskLaws, Location, Command, create_dir, set_permissions, create_new, write_all, sync_all,
  rename, remove_file, open_file, touches, call, map_storage, fill_and_rename, or_remove,
  sync_parent, replace_file, create_dirs, make_parents, missing_dirs,
}

-- What holds of a chain of two actions, by how the first ends.
pub bind-both :
    {World A B : Type 0} (m : Action World A) (k : A → Action World B) (w : World)
    (Q : Result CredentialsError B × World → Type 0)
    → ((e : CredentialsError) → (m w).0 ≡ err e → Q (err e, (m w).1))
    → ((a : A) → (m w).0 ≡ ok a → Q (k a (m w).1))
    → Q ((m >>= k) w)
bind-both {World} {A} {B} m k w Q f g = go (m w).0 f g
  where
    go :
        (r : Result CredentialsError A)
        → ((e : CredentialsError) → r ≡ err e → Q (err e, (m w).1))
        → ((a : A) → r ≡ ok a → Q (k a (m w).1))
        → Q (elim r [ ok a ↦ k a (m w).1 | err e ↦ (err e, (m w).1) ])
    go (ok a) f g = g a refl
    go (err e) f g = f e refl

module _ {World : Type 0} (disk : Disk World) (laws : DiskLaws disk) (at : Location) where
  abbrev pub stored : World → Result Str Bytes
  stored w = disk.read_file at.path w

  ok-call :
      (c : Command) (w : World) (u : Unit) → (call disk c w).0 ≡ ok u → (disk.execute c w).0 ≡ ok tt
  ok-call c w u h = go (disk.execute c w).0 h
    where
      go : (r : Result Str Unit) → map_storage r ≡ ok u → r ≡ ok tt
      go (ok v) h = refl
      go (err e) h = cc

  err-call :
      (c : Command) (w : World) (e : CredentialsError)
      → (call disk c w).0 ≡ err e
      → (s : Str) × ((disk.execute c w).0 ≡ err s)
  err-call c w e h = go (disk.execute c w).0 h
    where
      go : (r : Result Str Unit) → map_storage r ≡ err e → (s : Str) × (r ≡ err s)
      go (ok v) h = cc
      go (err s) h = (s, refl)

  -- A chain that starts with a command that does not touch the file.
  call-frame :
      {B : Type 0} (c : Command) (k : Unit → Action World B) (w : World)
      (P : Result CredentialsError B × World → Type 0)
      → ((e : CredentialsError) (after : World) → stored after ≡ stored w → P (err e, after))
      → ((after : World) → stored after ≡ stored w → P (k tt after))
      → touches c at.path ≡ false
      → P ((call disk c >>= k) w)
  call-frame c k w P f g apart =
      bind-both (call disk c) k w P (λ e _. f e _ (laws.keeps c at.path w apart))
        (λ u _. g _ (laws.keeps c at.path w apart))

  -- An action that leaves the content of the file alone.
  abbrev pub Frames : {B : Type 0} → Action World B → Type 0
  Frames m = (w : World) → stored (m w).1 ≡ stored w

  create_dirs-Frames : (dirs : List Str) → Frames (create_dirs disk dirs)
  unfolding create_dirs touches
  create_dirs-Frames [] w = refl
  create_dirs-Frames (dir ∷ dirs) w =
      call-frame (create_dir dir)
        (λ _. call disk (set_permissions dir 0o700) >> create_dirs disk dirs) w
        (λ p. stored p.1 ≡ stored w) (λ e after h. h)
        (λ after h.
          call-frame (set_permissions dir 0o700) (λ _. create_dirs disk dirs) after
            (λ p. stored p.1 ≡ stored w) (λ e later i. i ∙ h)
            (λ later i. create_dirs-Frames dirs later ∙ (i ∙ h)) refl)
        refl

  sync_parent-Frames : (dirs : List Str) → Frames (sync_parent disk dirs)
  unfolding sync_parent touches
  sync_parent-Frames [] w = refl
  sync_parent-Frames (parent ∷ _) w =
      call-frame (open_file parent) (λ _. call disk (sync_all parent)) w
        (λ p. stored p.1 ≡ stored w) (λ e after h. h)
        (λ after h. laws.keeps (sync_all parent) at.path after refl ∙ h) refl

  pub make_parents-Frames : (dirs : List Str) → Frames (make_parents disk dirs)
  unfolding make_parents
  make_parents-Frames dirs w = create_dirs-Frames (reverse (missing_dirs disk dirs w)) w

  -- What a reader of the file finds after a write of `content`, if it found `before` until then.
  abbrev pub IsAtomic : Result Str Bytes → Bytes → Result CredentialsError Unit × World → Type 0
  IsAtomic before content (ok _, after) = stored after ≡ ok content
  IsAtomic before content (err _, after) = (stored after ≡ ok content) ⊎ (stored after ≡ before)

  -- The same before the directory is synchronized: a failure has not touched the file.
  abbrev IsFilled : Result Str Bytes → Bytes → Result CredentialsError Unit × World → Type 0
  IsFilled before content (ok _, after) = stored after ≡ ok content
  IsFilled before content (err _, after) = stored after ≡ before

  module _ (tmp : Str) (apart : (tmp == at.path) ≡ false) (content : Bytes) where
    rename-IsFilled :
        (w : World)
        → disk.read_file tmp w ≡ ok content
        → IsFilled (stored w) content (call disk (rename tmp at.path) w)
    rename-IsFilled w h = go (disk.execute (rename tmp at.path) w).0 refl
      where
        go :
            (r : Result Str Unit)
            → (disk.execute (rename tmp at.path) w).0 ≡ r
            → IsFilled (stored w) content (map_storage r, (disk.execute (rename tmp at.path) w).1)
        go (ok u) e = laws.renamed tmp at.path w e ∙ h
        go (err s) e = laws.rename_failed tmp at.path s w e

    fill_and_rename-IsFilled :
        (mode : ℕ) (w : World)
        → (disk.execute (create_new tmp mode) w).0 ≡ ok tt
        → IsFilled
            (stored w)
            content
            (fill_and_rename disk tmp at.path content (disk.execute (create_new tmp mode) w).1)
    unfolding fill_and_rename touches
    fill_and_rename-IsFilled mode w created =
        let opened = (disk.execute (create_new tmp mode) w).1 in
        let kept : stored opened ≡ stored w = laws.keeps (create_new tmp mode) at.path w apart in
        let full = (disk.execute (write_all tmp content) opened).1 in
        let kept_full : stored full ≡ stored w =
          laws.keeps (write_all tmp content) at.path opened apart ∙ kept in
        let synced = (disk.execute (sync_all tmp) full).1 in
        let kept_synced : stored synced ≡ stored w =
          laws.keeps (sync_all tmp) at.path full refl ∙ kept_full in
        bind-both (call disk (write_all tmp content))
          (λ _. call disk (sync_all tmp) >> call disk (rename tmp at.path)) opened
          (IsFilled (stored w) content) (λ e _. kept_full)
          (λ u wrote.
            bind-both (call disk (sync_all tmp)) (λ _. call disk (rename tmp at.path)) full
              (IsFilled (stored w) content) (λ e _. kept_synced)
              (λ v _.
                subst (λ b. IsFilled b content (call disk (rename tmp at.path) synced)) kept_synced
                  (rename-IsFilled synced (
                    laws.keeps (sync_all tmp) tmp full refl
                    ∙ laws.written tmp mode content w created (ok-call _ _ u wrote)))))

    or_remove-IsFilled :
        (before : Result Str Bytes) (p : Result CredentialsError Unit × World)
        → IsFilled before content p
        → IsFilled before content (or_remove disk tmp p)
    unfolding or_remove touches
    or_remove-IsFilled before (ok u, w) h = h
    or_remove-IsFilled before (err e, w) h = laws.keeps (remove_file tmp) at.path w apart ∙ h

  -- The sibling name that a write takes differs from the name of the file.
  abbrev pub IsApart : Type 0
  IsApart =
      (w : World) → (at.with_extension (codes "json.tmp." ++ (disk.new_v4 w).0) == at.path) ≡ false

  sync-IsAtomic :
      (before : Result Str Bytes) (content : Bytes) (w : World)
      → stored w ≡ ok content
      → IsAtomic before content (sync_parent disk at.ancestors w)
  sync-IsAtomic before content w h =
      go (sync_parent disk at.ancestors w) (sync_parent-Frames at.ancestors w ∙ h)
    where
      go :
          (p : Result CredentialsError Unit × World)
          → stored p.1 ≡ ok content
          → IsAtomic before content p
      go (ok u, after) h = h
      go (err e, after) h = inl h

  filled-IsAtomic :
      (fill : Action World Unit) (before : Result Str Bytes) (content : Bytes) (w : World)
      → IsFilled before content (fill w)
      → IsAtomic before content ((fill >> sync_parent disk at.ancestors) w)
  filled-IsAtomic fill before content w h = go (fill w) h
    where
      go :
          (p : Result CredentialsError Unit × World)
          → IsFilled before content p
          → IsAtomic before content
              (elim p.0 [ ok _ ↦ sync_parent disk at.ancestors p.1 | err e ↦ (err e, p.1) ])
      go (ok u, after) h = sync-IsAtomic before content after h
      go (err e, after) h = inr h

  pub replace_file-IsAtomic :
      (content : Bytes) (w : World)
      → IsApart
      → IsAtomic (stored w) content (replace_file disk at content w)
  unfolding replace_file touches
  replace_file-IsAtomic content w apart =
      let named = (disk.new_v4 w).1 in
      let tmp = at.with_extension (codes "json.tmp." ++ (disk.new_v4 w).0) in
      let fill : Action World Unit =
        λ opened. or_remove disk tmp (fill_and_rename disk tmp at.path content opened) in
      subst (λ b. IsAtomic b content (replace_file disk at content w)) (laws.named at.path w)
        (bind-both (call disk (create_new tmp 0o600)) (λ _. fill >> sync_parent disk at.ancestors)
          named (IsAtomic (stored named) content)
          (λ e _. inr (laws.keeps (create_new tmp 0o600) at.path named (apart w)))
          (λ u created. filled-IsAtomic fill (stored named) content _ (
            or_remove-IsFilled tmp (apart w) content (stored named) _ (
              fill_and_rename-IsFilled tmp (apart w) content 0o600 named (ok-call _ _ u created)))))
