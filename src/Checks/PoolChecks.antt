-- ===== src/Checks/PoolChecks.antt =====
-- Runs of the account pool of src/router.rs.
use codex_proxy_rs.Base.{
  true, ◌↔◌, false, [], ◌∷◌, Option, none, some, Str, codes, ◌≡◌, ◌≢◌, refl, ◌≤◌, ◌<◌, ◌%◌, ◌^◌,
  ◌+◌, arith, length, get_elem?, In, text_eq, pair_eq, text_beq, lookup, find, split, split_once,
  trim, trim_end_matches, contains,
}
use codex_proxy_rs.Pool.{
  Account, AccountPool, UrlParts, pick, pinned, cooldown, is_cooling, is_model_cooling,
  skip_unhealthy, parse, ok, parse_entries, parse_entry, check_url,
}
use codex_proxy_rs.Pool.Pick.{pick-IsBestPick, IsBestPick, pick_round_robin}
use codex_proxy_rs.Pool.Pinned.{IsWarm, Serves, pinned_iff, cooldown_window}
use codex_proxy_rs.Pool.Parse.{Distinct, parse-IsFresh, IsFresh}

abbrev alice : Account
alice = record { slug = codes "alice"; url = codes "http://alice:1" }

abbrev bob : Account
bob = record { slug = codes "bob"; url = codes "http://bob:1" }

abbrev two_accounts : AccountPool
two_accounts = record {
  accounts = alice ∷ bob ∷ [];
  next = 1;
  cooldown_until = (codes "alice", 90) ∷ [];
  model_cooldown_until = [];
}

has_room : two_accounts.next + length two_accounts.accounts ≤ 2 ^ 64
has_room = omega arith

has_accounts : two_accounts.accounts ≢ []
has_accounts e = cc

pick-IsBestPick_example :
    (a : Account) × ((pick two_accounts 50 none []).0 ≡ some a)
    × IsBestPick two_accounts 50 none [] a
pick-IsBestPick_example = pick-IsBestPick two_accounts 50 none [] has_room has_accounts

in_turn :
    get_elem? two_accounts.accounts (two_accounts.next % length two_accounts.accounts) ≡ some bob
in_turn = refl

bob_healthy : skip_unhealthy two_accounts 50 none [] bob ≡ false
unfolding skip_unhealthy is_cooling is_model_cooling lookup text_beq codes
bob_healthy = refl

below_limit : two_accounts.next < 2 ^ 64
below_limit = omega arith

pick_round_robin_example :
    pick two_accounts 50 none []
    ≡ (some bob, record two_accounts { next = (two_accounts.next + 1) % 2 ^ 64 })
pick_round_robin_example =
    pick_round_robin two_accounts 50 none [] bob below_limit in_turn bob_healthy

-- A cooldown of `bob` at 100 nanoseconds.
cooldown_window_example :
    let after = cooldown two_accounts 100 (codes "bob") in
    ((is_cooling after 150 (codes "bob") ≡ true) ↔ (150 < 100 + 60000000000))
    × (150 < 100 + 60000000000 → pinned after 150 (codes "bob") (codes "gpt-5") ≡ none)
    × ((other : Str)
        → other ≢ codes "bob"
        → (is_cooling after 150 other ≡ is_cooling two_accounts 150 other)
          × (pinned after 150 other (codes "gpt-5")
              ≡ pinned two_accounts 150 other (codes "gpt-5")))
cooldown_window_example = cooldown_window two_accounts 100 150 (codes "bob") (codes "gpt-5")

two_accounts-Distinct : Distinct (λ (a : Account). a.slug) two_accounts.accounts
unfolding codes
two_accounts-Distinct = (((λ e. cc), tt), (tt, tt))

pinned_iff_example : (pinned two_accounts 50 (codes "bob") (codes "gpt-5") ≡ some bob) ↔ (
    In bob two_accounts.accounts
    × (bob.slug ≡ codes "bob")
    × IsWarm two_accounts 50 (codes "bob")
    × Serves two_accounts 50 (codes "bob") (codes "gpt-5"))
pinned_iff_example =
    pinned_iff two_accounts 50 (codes "bob") (codes "gpt-5") bob two_accounts-Distinct

-- The pin of a healthy account is honoured.
pinned-bob : pinned two_accounts 50 (codes "bob") (codes "gpt-5") ≡ some bob
unfolding pinned is_cooling is_model_cooling lookup text_beq find codes
pinned-bob = refl

abbrev bare_origin : Str → Option UrlParts
bare_origin url =
    some (record { scheme = codes "http"; path = codes "/"; query = none; fragment = none })

abbrev parsed_pool : AccountPool
parsed_pool = record {
  accounts = alice ∷ bob ∷ [];
  next = 0;
  cooldown_until = [];
  model_cooldown_until = [];
}

two_parsed :
    parse bare_origin (codes "alice=http://alice:1, bob = http://bob:1/ ,") ≡ ok parsed_pool
unfolding parse parse_entries parse_entry check_url split split_once trim trim_end_matches contains
    text_beq codes
two_parsed = refl

parse-IsFresh_example : IsFresh bare_origin parsed_pool
parse-IsFresh_example =
    parse-IsFresh bare_origin (codes "alice=http://alice:1, bob = http://bob:1/ ,") parsed_pool
      two_parsed
