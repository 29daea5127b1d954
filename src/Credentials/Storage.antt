-- ===== src/Credentials/Storage.antt =====
-- `FsAuthFile::write_raw` of src/credentials/fs.rs, over the calls of the file system it makes: the
-- new content goes to a sibling file that is then renamed.
pub mod Atomic
use codex_proxy_rs.Base.{
  ℕ, Bool, true, false, ◌||◌, List, [], ◌∷◌, ◌++◌, reverse, Str, Bytes, ◌≡◌, ◌==◌, text_eq, codes,
  if◌then◌else◌,
}
use codex_proxy_rs.Credentials.{
  Result, ok, err, Action, pure, raise, ◌>>=◌, ◌>>◌, CredentialsError, storage, parse,
}

-- The changing calls of `tokio::fs` that the source makes, with the paths they are given.
pub data Command : Type 0 where
  create_dir : Str → Command
  set_permissions : Str → ℕ → Command
  create_new : Str → ℕ → Command
  write_all : Str → Bytes → Command
  sync_all : Str → Command
  rename : Str → Str → Command
  remove_file : Str → Command
  open_file : Str → Command

-- What the source takes from the file system and from the uuid library; an error is its text.
pub record Disk (World : Type 0) : Type 0 where
  pub exists : Str → World → Bool
  pub read_file : Str → World → Result Str Bytes
  pub execute : Command → World → Result Str Unit × World
  pub new_v4 : World → Str × World

-- The paths whose content a command may change.
unfoldable pub touches : Command → Str → Bool
touches (create_new p mode) q = p == q
touches (write_all p content) q = p == q
touches (rename p p') q = p == q || p' == q
touches (remove_file p) q = p == q
touches _ q = false

-- What the source relies on of a file system: a failed `rename` leaves its target, a successful
-- one gives it the content of the source, and a new file has what is written to it.
pub record DiskLaws {World : Type 0} (disk : Disk World) : Type 0 where
  pub keeps :
      (c : Command) (q : Str) (w : World)
      → touches c q ≡ false
      → disk.read_file q (disk.execute c w).1 ≡ disk.read_file q w
  pub rename_failed :
      (p q e : Str) (w : World)
      → (disk.execute (rename p q) w).0 ≡ err e
      → disk.read_file q (disk.execute (rename p q) w).1 ≡ disk.read_file q w
  pub renamed :
      (p q : Str) (w : World)
      → (disk.execute (rename p q) w).0 ≡ ok tt
      → disk.read_file q (disk.execute (rename p q) w).1 ≡ disk.read_file p w
  pub written :
      (p : Str) (mode : ℕ) (content : Bytes) (w : World)
      → (disk.execute (create_new p mode) w).0 ≡ ok tt
      → (disk.execute (write_all p content) (disk.execute (create_new p mode) w).1).0 ≡ ok tt
      → disk.read_file p
          (disk.execute (write_all p content) (disk.execute (create_new p mode) w).1).1
        ≡ ok content
  pub named : (q : Str) (w : World) → disk.read_file q (disk.new_v4 w).1 ≡ disk.read_file q w

-- Where the file is: its path, the ancestors of it that are not empty, the nearest first, and
-- `Path::with_extension` of it.
pub record Location : Type 0 where
  pub path : Str
  pub ancestors : List Str
  pub with_extension : Str → Str

abbrev pub map_storage : {A : Type 0} → Result Str A → Result CredentialsError A
map_storage (ok a) = ok a
map_storage (err e) = err (storage e)

abbrev pub map_parse : {A : Type 0} → Result Str A → Result CredentialsError A
map_parse (ok a) = ok a
map_parse (err e) = err (parse e)

module _ {World : Type 0} (disk : Disk World) where
  -- A command with its error as a storage error.
  abbrev pub call : Command → Action World Unit
  call c w = let (r, after) = disk.execute c w in (map_storage r, after)

  -- The directories to create, the nearest first.
  unfoldable pub missing_dirs : List Str → World → List Str
  missing_dirs [] w = []
  missing_dirs (dir ∷ dirs) w =
      let more = missing_dirs dirs w in if disk.exists dir w then [] else dir ∷ more

  unfoldable pub create_dirs : List Str → Action World Unit
  create_dirs [] = pure tt
  create_dirs (dir ∷ dirs) = do
    call (create_dir dir)
    call (set_permissions dir 0o700)
    create_dirs dirs

  unfoldable pub make_parents : List Str → Action World Unit
  unfolding missing_dirs create_dirs
  make_parents dirs w = create_dirs (reverse (missing_dirs dirs w)) w

  -- The steps whose failure removes the sibling file again.
  unfoldable pub fill_and_rename : Str → Str → Bytes → Action World Unit
  fill_and_rename tmp path content = do
    call (write_all tmp content)
    call (sync_all tmp)
    call (rename tmp path)

  unfoldable pub or_remove :
      Str → Result CredentialsError Unit × World → Result CredentialsError Unit × World
  or_remove tmp (ok done, w) = (ok done, w)
  or_remove tmp (err e, w) = (err e, (disk.execute (remove_file tmp) w).1)

  unfoldable pub sync_parent : List Str → Action World Unit
  sync_parent [] = pure tt
  sync_parent (parent ∷ _) = do call (open_file parent); call (sync_all parent)

  -- The new content under a sibling name, renamed to the path.
  unfoldable pub replace_file : Location → Bytes → Action World Unit
  unfolding fill_and_rename or_remove sync_parent
  replace_file at content w =
      let (uuid, named) = disk.new_v4 w in
      let tmp = at.with_extension (codes "json.tmp." ++ uuid) in
      (do
        call (create_new tmp 0o600)
        λ opened. or_remove tmp (fill_and_rename tmp at.path content opened)
        sync_parent at.ancestors)
        named
