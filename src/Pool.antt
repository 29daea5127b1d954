-- ===== src/Pool.antt =====
-- The account pool of src/router.rs: parsing of its specification, cooldowns and selection.
-- An `Instant` is a number of nanoseconds; one reading of the clock serves a whole call.
pub mod Pick
pub mod Cooling
pub mod Pinned
pub mod Parse
use codex_proxy_rs.Base.{
  ℕ, zero, suc, ◌+◌, ◌*◌, ◌%◌, ◌^◌, ◌||◌, not, Bool, true, false, List, [], ◌∷◌, Option, none, some,
  Str, if◌then◌else◌, ◌==◌, text_eq, pair_eq, nat_eq, lookup, insert, find, length, get_elem?,
  is_empty, ltb, codes, trim, trim_end_matches, split, split_once, contains, ◌++◌,
}

pub record Account : Type 0 where
  pub slug : Str
  pub url : Str

-- 60 seconds.
abbrev pub cooldown_time : ℕ
cooldown_time = 60 * 1000000000

pub record AccountPool : Type 0 where
  pub accounts : List Account
  pub next : ℕ
  pub cooldown_until : List (Str × ℕ)
  pub model_cooldown_until : List ((Str × Str) × ℕ)

-- `is_some_and(|until| *until > Instant::now())`.
abbrev pub is_after : Option ℕ → ℕ → Bool
is_after none now = false
is_after (some until) now = ltb now until

unfoldable pub is_cooling : AccountPool → ℕ → Str → Bool
is_cooling pool now slug = is_after (lookup slug pool.cooldown_until) now

unfoldable pub cooldown : AccountPool → ℕ → Str → AccountPool
cooldown pool now slug = record pool {
  cooldown_until = insert slug (now + cooldown_time) pool.cooldown_until;
}

unfoldable pub is_model_cooling : AccountPool → ℕ → Str → Str → Bool
is_model_cooling pool now slug model =
    if is_empty model then false else is_after (lookup (slug, model) pool.model_cooldown_until) now

unfoldable pub cooldown_model : AccountPool → ℕ → Str → Str → AccountPool
cooldown_model pool now slug model = if is_empty model then pool else record pool {
  model_cooldown_until = insert (slug, model) (now + cooldown_time) pool.model_cooldown_until;
}

unfoldable pub pinned : AccountPool → ℕ → Str → Str → Option Account
pinned pool now slug model =
    if is_cooling pool now slug || is_model_cooling pool now slug model
    then none
    else find (λ (a : Account). a.slug == slug) pool.accounts

-- `Some(a.slug.as_str()) == exclude`.
abbrev pub is_excluded : Option Str → Account → Bool
is_excluded none a = false
is_excluded (some slug) a = a.slug == slug

-- One round of a pass: `continue` goes on to the rest of the rounds. An index out of bounds would
-- be a panic; it does not occur.
unfoldable pub visit : (Account → Bool) → Option Account → Option Account → Option Account
visit skip none rest = none
visit skip (some a) rest = if skip a then rest else some a

-- One pass of `pick` over the accounts, from round `i` on; `usize` sums wrap around at 64 bits.
unfoldable pub pass : (Account → Bool) → List Account → ℕ → ℕ → ℕ → Option Account
unfolding visit
pass skip accounts start i zero = none
pass skip accounts start i (suc left) =
    visit skip (get_elem? accounts (((start + i) % 2 ^ 64) % length accounts))
      (pass skip accounts start (i + 1) left)

-- The two tests under which a pass goes on to the next account.
unfoldable pub skip_unhealthy : AccountPool → ℕ → Option Str → Str → Account → Bool
skip_unhealthy pool now exclude model a =
    is_excluded exclude a || is_cooling pool now a.slug || is_model_cooling pool now a.slug model

unfoldable pub skip_gated : AccountPool → ℕ → Option Str → Str → Account → Bool
skip_gated pool now exclude model a =
    is_excluded exclude a || is_model_cooling pool now a.slug model

abbrev pub first : List Account → Option Account
first [] = none
first (a ∷ accounts) = some a

abbrev pub or_else {ℓ} : {A : Type ℓ} → Option A → Option A → Option A
or_else none other = other
or_else (some a) other = some a

unfoldable pub pick : AccountPool → ℕ → Option Str → Str → Option Account × AccountPool
pick pool now exclude model =
    let n = length pool.accounts in
    let start = pool.next in
    if n == 0 then (none, pool) else (
      or_else (pass (skip_unhealthy pool now exclude model) pool.accounts start 0 n) (
          or_else (pass (skip_gated pool now exclude model) pool.accounts start 0 n)
            (first pool.accounts)),
      record pool { next = (start + 1) % 2 ^ 64 },
    )

-- What `reqwest::Url::parse` reports of a URL.
pub record UrlParts : Type 0 where
  pub scheme : Str
  pub path : Str
  pub query : Option Str
  pub fragment : Option Str

pub data ParseError : Type 0 where
  missing_equals empty_slug_or_url bad_scheme not_bare_origin invalid_url : ParseError
  duplicate_slug duplicate_url no_accounts : ParseError

pub data Parsed {ℓ} (A : Type ℓ) : Type ℓ where
  ok : A → Parsed A
  err : ParseError → Parsed A

infixl 5 ◌>>=◌
abbrev pub ◌>>=◌ {ℓ κ} : {A : Type ℓ} {B : Type κ} → Parsed A → (A → Parsed B) → Parsed B
ok a >>= f = f a
err e >>= f = err e

abbrev pub is_given : Option Str → Bool
is_given none = false
is_given (some _) = true

-- The end of `AccountPool::parse`, on the accounts read.
abbrev pub finish : List Account → Parsed AccountPool
finish [] = err no_accounts
finish (a ∷ accounts) =
    ok
      (record { accounts = a ∷ accounts; next = 0; cooldown_until = []; model_cooldown_until = [] })

-- `parse_url` stands for `reqwest::Url::parse`; `none` is its error.
module _ (parse_url : Str → Option UrlParts) where
  unfoldable pub check_url : Str → Parsed (Unit {0})
  check_url url = elim (parse_url url) [
    | none ↦ err invalid_url
    | some parsed ↦
        if not (parsed.scheme == codes "http" || parsed.scheme == codes "https")
        then err bad_scheme
        else if not (parsed.path == codes "/") || is_given parsed.query || is_given parsed.fragment
        then err not_bare_origin
        else ok tt
  ]

  -- One entry that is not blank, up to the checks for duplicates.
  unfoldable pub parse_entry : Str → Parsed Account
  parse_entry entry = elim (split_once b'=' entry) [
    | none ↦ err missing_equals
    | some (slug, url) ↦
        let slug = trim slug in
        let url = trim_end_matches b'/' (trim url) in
        if is_empty slug || is_empty url
        then err empty_slug_or_url
        else do checked ← check_url url; ok (record { slug = slug; url = url })
  ]

  -- The loop of `AccountPool::parse`; the two sets are the slugs and the URLs seen so far.
  unfoldable pub parse_entries :
      List Account → List Str → List Str → List Str → Parsed (List Account)
  parse_entries accounts seen_slugs seen_urls [] = ok accounts
  parse_entries accounts seen_slugs seen_urls (entry ∷ entries) =
      let skipped = parse_entries accounts seen_slugs seen_urls entries in
      let added = λ (a : Account).
        parse_entries (accounts ++ (a ∷ [])) (a.slug ∷ seen_slugs) (a.url ∷ seen_urls) entries in
      if is_empty (trim entry) then skipped else do
        a ← parse_entry (trim entry)
        if contains seen_slugs a.slug
            then err duplicate_slug
            else if contains seen_urls a.url
            then err duplicate_url
            else added a

  unfoldable pub parse : Str → Parsed AccountPool
  parse spec = do accounts ← parse_entries [] [] [] (split b',' spec); finish accounts
