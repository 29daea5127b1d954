-- ===== src/Checks/UpstreamChecks.antt =====
-- Runs of src/upstream.rs, of the admin endpoints and of the handlers on a small machine.
use Prim.Native.Nat.{suc}
use codex_proxy_rs.Base.{
  ◌≡◌, refl, ◌⊎◌, ◌≤◌, ◌+◌, ℕ, [], ◌∷◌, none, some, Str, codes, pos, arith, drop_while, is_white,
  trim, trim_start, trim_end,
}
use codex_proxy_rs.Json.{object, of_fields, JsonCodec}
use codex_proxy_rs.Http.{UpstreamResponse}
use codex_proxy_rs.Credentials.{ok, CredentialsFetcher}
use codex_proxy_rs.Credentials.Refresher.{oauth_fetcher}
use codex_proxy_rs.Credentials.Refresher.Service.{Live}
use codex_proxy_rs.Upstream.{Client, UpstreamError, bare_token, send_with_retry}
use codex_proxy_rs.Upstream.Retry.{IsCount, IsSecond, send_with_retry-count}
use codex_proxy_rs.Upstream.Served.{IsProvided, send_with_retry-IsProvided}
use codex_proxy_rs.Upstream.Bearer.{bare_token-panics}
use codex_proxy_rs.Server.Admin.{update_credentials}
use codex_proxy_rs.Server.Admin.Push.{update_credentials-IsLive}
use codex_proxy_rs.Server.Handlers.{responses}
use codex_proxy_rs.Server.Handlers.Clean.{IsClean, responses-IsClean}
use codex_proxy_rs.Checks.Machine
use codex_proxy_rs.Checks.Machine.{
  Machine, disk, disk_laws, codec, lossless, at, apart, services, show_error, separate,
}
use codex_proxy_rs.Checks.CredentialsChecks.{live, url}

-- An upstream that answers 401.
abbrev unauthorized : UpstreamResponse
unauthorized = record {
  status = 401;
  headers = (codes "set-cookie", codes "session") ∷ [];
  body = record { bytes = []; broken = none };
}

abbrev client : Client Machine
client = record {
  post = λ request w. (ok unauthorized, record w { sent = suc w.sent });
  new_v4 = λ w. (codes "u", w);
}

-- A static token whose refreshes do nothing.
abbrev static : CredentialsFetcher Machine
static = record (oauth_fetcher disk codec services show_error at url) {
  get_credentials = λ w. (ok (record { token = codes "t"; account_id = codes "a" }), w);
  refresh_credentials = λ w. (ok tt, w);
}

abbrev sent : Machine → ℕ
sent w = w.sent

counted : IsCount client static sent
counted = record {
  post_counts = λ r w. refl;
  naming = λ w. refl;
  fetching = λ w. refl;
  refreshing = λ w. refl;
}

send_with_retry-count_example :
    let after =
      (send_with_retry client (codes "https://u") (codes "1") [] static Machine.start).1 in
    (sent after ≤ sent Machine.start + 1)
    ⊎ IsSecond client (codes "https://u") (codes "1") [] static sent counted Machine.start after
send_with_retry-count_example =
    send_with_retry-count client (codes "https://u") (codes "1") [] static sent counted
      Machine.start

send_with_retry-IsProvided_example :
    IsProvided disk disk_laws codec lossless at apart services show_error url separate client
      (codes "https://u")
      (codes "1")
      []
      (λ r w. refl)
      (λ w. refl)
      Machine.start
      (send_with_retry client
        (codes "https://u")
        (codes "1")
        []
        (oauth_fetcher disk codec services show_error at url)
        Machine.start).0
send_with_retry-IsProvided_example =
    send_with_retry-IsProvided disk disk_laws codec lossless at apart services show_error url
      separate client (codes "https://u") (codes "1") [] (λ r w. refl) (λ w. refl) Machine.start
      live

untrimmed_token :
    trim (97 ∷ 98 ∷ 99 ∷ 100 ∷ 101 ∷ 102 ∷ 233 ∷ codes "gh")
    ≡ 97 ∷ 98 ∷ 99 ∷ 100 ∷ 101 ∷ 102 ∷ 233 ∷ codes "gh"
unfolding trim trim_start trim_end drop_while is_white codes
untrimmed_token = refl

bare_token-panics_example : bare_token (97 ∷ 98 ∷ 99 ∷ 100 ∷ 101 ∷ 102 ∷ 233 ∷ codes "gh") ≡ none
bare_token-panics_example =
    bare_token-panics (97 ∷ 98 ∷ 99 ∷ 100 ∷ 101 ∷ 102 ∷ []) 233 (codes "gh") refl
      (omega arith, (omega arith, (omega arith, (omega arith, (omega arith, (omega arith, tt))))))
      (omega arith) untrimmed_token

update_credentials-IsLive_example :
    Live disk disk_laws codec lossless at apart services show_error url separate
      (update_credentials
        (oauth_fetcher disk codec services show_error at url)
        (record {
          access_token = codes "pushed";
          refresh_token = codes "r";
          expires_at = pos 1;
          user_id = none;
        })
        Machine.start).1
update_credentials-IsLive_example =
    update_credentials-IsLive disk disk_laws codec lossless at apart services show_error url
      separate
      (record {
        access_token = codes "pushed";
        refresh_token = codes "r";
        expires_at = pos 1;
        user_id = none;
      })
      Machine.start live

-- A reader that finds an empty object in every text.
abbrev objects : JsonCodec
objects = record { from_slice = λ bytes. some (object (of_fields [])); to_vec = λ v. some [] }

abbrev show_upstream : UpstreamError → Str
show_upstream e = codes "error"

responses-IsClean_example :
    IsClean
      (responses objects
        (λ s. s)
        client
        static
        (codes "https://u")
        (codes "1")
        show_upstream
        []
        Machine.start).0
responses-IsClean_example =
    responses-IsClean objects (λ s. s) client static (codes "https://u") (codes "1") show_upstream
      [] Machine.start
