-- ===== src/Checks/Machine.antt =====
-- A small machine to run src/credentials and src/upstream.rs on: files in memory, a clock that
-- stands still, and servers with one answer.
use Prim.Native.Nat.{zero, suc}
use codex_proxy_rs.Base.{
  ℕ, ◌≡◌, refl, sym, ap, ◌∙◌, Bool, true, false, ◌||◌, List, [], ◌∷◌, ◌++◌, Option, none, some, Str,
  Bytes, codes, text_beq, text_eq, ◌==◌, lookup, insert, remove, is_some, lookup-insert_self,
  lookup-insert_other, lookup-remove_other, ℤ, pos, negsuc,
}
use codex_proxy_rs.Credentials.{Result, ok, err, CredentialsError}
use codex_proxy_rs.Credentials.Storage.{
  Command, create_dir, set_permissions, create_new, write_all, sync_all, rename, remove_file,
  open_file, touches, Disk, DiskLaws, Location,
}
use codex_proxy_rs.Credentials.File.{FsAuth, AuthCodec}
use codex_proxy_rs.Credentials.Oauth.{Services, TokenRefreshRequest}

pub record Machine : Type 0 where
  pub files : List (Str × Bytes)
  pub sent : ℕ

abbrev pub found : Option Bytes → Result Str Bytes
found none = err (codes "missing")
found (some content) = ok content

abbrev pub move_found : Str → Str → Option Bytes → Machine → Result Str Unit × Machine
move_found p q none w = (err (codes "missing"), w)
move_found p q (some content) w = (ok tt, record w { files = insert q content (remove p w.files) })

abbrev pub perform : Command → Machine → Result Str Unit × Machine
perform (create_new p mode) w = (ok tt, record w { files = insert p [] w.files })
perform (write_all p content) w = (ok tt, record w { files = insert p content w.files })
perform (rename p q) w = move_found p q (lookup p w.files) w
perform (remove_file p) w = (ok tt, record w { files = remove p w.files })
perform _ w = (ok tt, w)

abbrev pub disk : Disk Machine
disk = record {
  exists = λ p w. is_some (lookup p w.files);
  read_file = λ p w. found (lookup p w.files);
  execute = perform;
  new_v4 = λ w. (codes "u", w);
}

or-false : (a b : Bool) → (a || b) ≡ false → (a ≡ false) × (b ≡ false)
or-false false false h = (refl, refl)
or-false false true h = cc
or-false true b h = cc

moved-keeps :
    (p q r : Str) (o : Option Bytes) (w : Machine)
    → (p == r) ≡ false
    → (q == r) ≡ false
    → lookup r (move_found p q o w).1.files ≡ lookup r w.files
moved-keeps p q r none w a b = refl
moved-keeps p q r (some content) w a b =
    lookup-insert_other content (remove p w.files) b ∙ lookup-remove_other w.files a

perform-keeps :
    (c : Command) (q : Str) (w : Machine)
    → touches c q ≡ false
    → lookup q (perform c w).1.files ≡ lookup q w.files
unfolding touches
perform-keeps (create_dir p) q w h = refl
perform-keeps (set_permissions p mode) q w h = refl
perform-keeps (create_new p mode) q w h = lookup-insert_other [] w.files h
perform-keeps (write_all p content) q w h = lookup-insert_other content w.files h
perform-keeps (sync_all p) q w h = refl
perform-keeps (rename p p') q w h =
    let (a, b) = or-false (p == q) (p' == q) h in moved-keeps p p' q (lookup p w.files) w a b
perform-keeps (remove_file p) q w h = lookup-remove_other w.files h
perform-keeps (open_file p) q w h = refl

move-failed :
    (p q e : Str) (o : Option Bytes) (w : Machine)
    → (move_found p q o w).0 ≡ err e
    → lookup q (move_found p q o w).1.files ≡ lookup q w.files
move-failed p q e none w h = refl
move-failed p q e (some content) w h = cc

moved :
    (p q : Str) (o : Option Bytes) (w : Machine)
    → (move_found p q o w).0 ≡ ok tt
    → lookup q (move_found p q o w).1.files ≡ o
moved p q none w h = cc
moved p q (some content) w h = lookup-insert_self q content (remove p w.files)

pub disk_laws : DiskLaws disk
disk_laws = record {
  keeps = λ c q w h. ap found (perform-keeps c q w h);
  rename_failed = λ p q e w h. ap found (move-failed p q e (lookup p w.files) w h);
  renamed = λ p q w h. ap found (moved p q (lookup p w.files) w h);
  written = λ p mode content w _ _. ap found (lookup-insert_self p content (insert p [] w.files));
  named = λ q w. refl;
}

-- A text that ends with a zero, and what follows it.
abbrev enc : Str → Bytes → Bytes
enc [] rest = 0 ∷ rest
enc (c ∷ s) rest = suc c ∷ enc s rest

abbrev dec : Bytes → Str × Bytes
dec [] = ([], [])
dec (zero ∷ rest) = ([], rest)
dec (suc c ∷ rest) = (c ∷ (dec rest).0, (dec rest).1)

dec-enc : (s : Str) (rest : Bytes) → dec (enc s rest) ≡ (s, rest)
dec-enc [] rest = refl
dec-enc (c ∷ s) rest = ap (λ (p : Str × Bytes). (c ∷ p.0, p.1)) (dec-enc s rest)

abbrev enc_int : ℤ → Bytes
enc_int (pos n) = 0 ∷ n ∷ []
enc_int (negsuc n) = 1 ∷ n ∷ []

abbrev dec_int : Bytes → ℤ
dec_int (zero ∷ n ∷ _) = pos n
dec_int (suc _ ∷ n ∷ _) = negsuc n
dec_int _ = pos 0

abbrev print_auth : FsAuth → Bytes
print_auth auth = enc auth.tokens.id_token (
    enc auth.tokens.access_token
      (enc auth.tokens.refresh_token (enc auth.tokens.account_id (enc_int auth.tokens.expires_at))))

abbrev parse_auth : Bytes → FsAuth
parse_auth bytes =
    let a = dec bytes in
    let b = dec a.1 in
    let c = dec b.1 in
    let d = dec c.1 in
    record {
      tokens = record {
        id_token = a.0;
        access_token = b.0;
        refresh_token = c.0;
        account_id = d.0;
        expires_at = dec_int d.1;
      };
    }

abbrev pub codec : AuthCodec
codec = record {
  from_slice = λ content. ok (parse_auth content);
  to_vec_pretty = λ auth. ok (print_auth auth);
}

parse-print : (auth : FsAuth) → parse_auth (print_auth auth) ≡ auth
parse-print auth =
    let t = auth.tokens in
    let d = enc_int t.expires_at in
    let c = enc t.account_id d in
    let b = enc t.refresh_token c in
    let a = enc t.access_token b in
    rw
      (
        dec-enc t.id_token a,
        dec-enc t.access_token b,
        dec-enc t.refresh_token c,
        dec-enc t.account_id d,
      )
      (ap (λ e. record auth { tokens = record auth.tokens { expires_at = e } }) (int t.expires_at))
  where
    int : (e : ℤ) → dec_int (enc_int e) ≡ e
    int (pos n) = refl
    int (negsuc n) = refl

pub lossless :
    (auth : FsAuth) (content : Bytes)
    → codec.to_vec_pretty auth ≡ ok content
    → codec.from_slice content ≡ ok auth
lossless auth content h =
    let same : print_auth auth ≡ content = cc in
    ap (λ bytes. ok (parse_auth bytes)) (sym same) ∙ ap ok (parse-print auth)

abbrev pub at : Location
at = record {
  path = codes "auth.json";
  ancestors = codes "/data" ∷ [];
  with_extension = λ ext. codes "auth." ++ ext;
}

pub apart :
    (w : Machine) → (at.with_extension (codes "json.tmp." ++ (disk.new_v4 w).0) == at.path) ≡ false
unfolding codes text_beq
apart w = refl

-- The token endpoint rotates the access token only; the clock stands at the year 2001.
abbrev pub services : Services Machine
services = record {
  post = λ url request w. (
    ok (record {
      status = 200;
      body = none;
      parsed =
          ok (record { access_token = codes "new"; refresh_token = []; expires_in = pos 864000 });
    }),
    record w { sent = suc w.sent },
  );
  now_ms = λ w. pos 1000000000000;
  show_status = λ status. codes "status";
  show_int = λ n. codes "number";
}

abbrev pub show_error : CredentialsError → Str
show_error e = codes "error"

pub separate :
    (url : Str) (request : TokenRefreshRequest) (w : Machine)
    → disk.read_file at.path (services.post url request w).1 ≡ disk.read_file at.path w
separate url request w = refl

-- A file whose access token has expired.
abbrev pub old_file : FsAuth
old_file = record {
  tokens = record {
    id_token = [];
    access_token = codes "old";
    refresh_token = codes "again";
    account_id = codes "acc";
    expires_at = pos 5;
  };
}

abbrev pub start : Machine
start = record { files = (at.path, print_auth old_file) ∷ []; sent = 0 }
