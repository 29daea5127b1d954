-- ===== src/Checks/CredentialsChecks.antt =====
-- Runs of src/credentials on a small machine whose access token has expired.
use codex_proxy_rs.Base.{
  ◌≡◌, refl, ◌≤◌, ◌<◌, ℕ, ◌+◌, ◌*◌, true, false, [], Str, codes, text_beq, pos, negsuc, ◌+ℤ◌, ◌-ℤ◌,
  neg, opposite, leb_ℤ, saturate, scale, wrap, of_word, i64_max, lookup, insert, remove, is_empty,
  arith,
}
use codex_proxy_rs.Credentials.{Result, ok, CredentialsError, Credentials}
use codex_proxy_rs.Credentials.Storage.{
  fill_and_rename, or_remove, sync_parent, replace_file, make_parents, missing_dirs, create_dirs,
}
use codex_proxy_rs.Credentials.File.{read_raw, update_file, write_raw}
use codex_proxy_rs.Credentials.File.Updates.{IsWrite, Holds, write_raw-IsWrite}
use codex_proxy_rs.Credentials.Oauth.{TokenRefreshResponse, token_expired, refresh_token}
use codex_proxy_rs.Credentials.Refresher.{get_credentials, answer_with, expires_at_from}
use codex_proxy_rs.Credentials.Refresher.Expiry.{token_expired-wraps, expires_at_from-bounds}
use codex_proxy_rs.Credentials.Refresher.Service.{
  Live, IsGood, served, start, next, get_credentials-IsGood, Reaches-IsLive,
}
use codex_proxy_rs.Credentials.Refresher.Reuse.{
  creds_in, after_refresh, stored_as, get_credentials-once,
}
use codex_proxy_rs.Checks.Machine
use codex_proxy_rs.Checks.Machine.{
  Machine, disk, disk_laws, codec, lossless, at, apart, services, show_error, separate, old_file,
}

abbrev pub url : Str
url = codes "https://token"

pub held : Holds disk disk_laws codec lossless at apart old_file Machine.start
unfolding read_raw lookup codes text_beq
held = refl

pub access : is_empty (codes "old") ≡ false
unfolding codes
access = refl

pub token : is_empty (codes "again") ≡ false
unfolding codes
token = refl

pub account : is_empty (codes "acc") ≡ false
unfolding codes
account = refl

abbrev pub live :
    Live disk disk_laws codec lossless at apart services show_error url separate Machine.start
live = record {
  file = old_file;
  held = held;
  has_access = access;
  has_refresh = token;
  has_account = account;
}

write_raw-IsWrite_example :
    IsWrite disk disk_laws codec lossless at apart Machine.start old_file
      (write_raw disk codec at old_file Machine.start)
write_raw-IsWrite_example =
    write_raw-IsWrite disk disk_laws codec lossless at apart old_file Machine.start

get_credentials-IsGood_example :
    IsGood disk disk_laws codec lossless at apart services show_error url separate live
      (get_credentials disk codec services show_error at url Machine.start)
get_credentials-IsGood_example =
    get_credentials-IsGood disk disk_laws codec lossless at apart services show_error url separate
      live

Reaches-IsLive_example :
    Live disk disk_laws codec lossless at apart services show_error url separate
      (get_credentials disk codec services show_error at url Machine.start).1
Reaches-IsLive_example =
    Reaches-IsLive disk disk_laws codec lossless at apart services show_error url separate
      (next start served) live

expired : token_expired (pos 5) (pos 1000000000000) ≡ true
unfolding token_expired wrap of_word ◌-ℤ◌ ◌+ℤ◌ opposite neg leb_ℤ
expired = refl

abbrev rotated : TokenRefreshResponse
rotated = record { access_token = codes "new"; refresh_token = []; expires_in = pos 864000 }

answered : (refresh_token services url (codes "again") Machine.start).0 ≡ ok rotated
unfolding refresh_token codes
answered = refl

later :
    expires_at_from services
      (pos 864000)
      (after_refresh disk disk_laws codec lossless at apart services show_error url separate live)
    ≡ ok (pos 1000864000000)
unfolding expires_at_from saturate ◌+ℤ◌ scale leb_ℤ
later = refl

written :
    (stored_as disk disk_laws codec lossless at apart services show_error url separate live rotated
      (pos 1000864000000)).0
    ≡ ok tt
unfolding update_file write_raw make_parents missing_dirs create_dirs replace_file fill_and_rename
    or_remove sync_parent refresh_token read_raw lookup insert remove codes text_beq
written = refl

fresh : token_expired (pos 1000864000000) (pos 1000000000000) ≡ false
unfolding token_expired wrap of_word ◌-ℤ◌ ◌+ℤ◌ opposite neg leb_ℤ
fresh = refl

get_credentials-once_example :
    let served_new : Result CredentialsError Credentials = ok (
      answer_with
        (creds_in disk disk_laws codec lossless at apart services show_error url separate live)
        (codes "new")) in
    let after =
      (stored_as disk disk_laws codec lossless at apart services show_error url separate live
        rotated
        (pos 1000864000000)).1 in
    (get_credentials disk codec services show_error at url Machine.start ≡ (served_new, after))
    × (get_credentials disk codec services show_error at url after ≡ (served_new, after))
get_credentials-once_example =
    get_credentials-once disk disk_laws codec lossless at apart services show_error url separate
      live rotated (pos 1000864000000) expired answered later written fresh

expires_at_from-bounds_example :
    (t : ℕ) × (expires_at_from services (pos 3600) Machine.start ≡ ok (pos t))
    × (1000000000000 < t)
    × (1000000000000 + 3600 * 1000 ≤ i64_max → t ≡ 1000000000000 + 3600 * 1000)
    × (i64_max < 1000000000000 + 3600 * 1000 → t ≡ i64_max)
expires_at_from-bounds_example =
    expires_at_from-bounds services 3599 1000000000000 Machine.start refl (omega arith)

token_expired-wraps_example : token_expired (negsuc i64_max) (pos 1000000000000) ≡ false
token_expired-wraps_example =
    token_expired-wraps i64_max 1000000000000 (omega arith) (omega arith) (omega arith)
