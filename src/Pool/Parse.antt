-- ===== src/Pool/Parse.antt =====
-- What `AccountPool::parse` of src/router.rs accepts.
use codex_proxy_rs.Base.{
  true, false, List, [], ◌∷◌, ◌++◌, Option, none, some, Str, ◌≡◌, ◌≢◌, refl, sym, ap, subst, ◌∙◌,
  In, here, there, contains, In-contains, All, All-append, is_empty, trim, arith, ◌==◌, text_eq,
  Bool-cases, Option-cases, inl, inr, if◌then◌else◌, false≢true, ◌||◌, not, codes, ==_iff, split,
  split_once, trim_end_matches,
}
use codex_proxy_rs.Pool.{
  Account, AccountPool, UrlParts, Parsed, ok, err, ◌>>=◌, check_url, parse_entry, parse_entries,
  parse, is_given, finish, bad_scheme, not_bare_origin, empty_slug_or_url,
}

-- No two accounts agree on `key`.
abbrev pub Distinct : (Account → Str) → List Account → Type 0
Distinct key [] = Unit
Distinct key (a ∷ accounts) = All (λ (b : Account). key a ≢ key b) accounts × Distinct key accounts

bind-eq-ok :
    {A B : Type 0} (first : Parsed A) (next : A → Parsed B) {result : B}
    → (first >>= next) ≡ ok result
    → (a : A) × (first ≡ ok a) × (next a ≡ ok result)
bind-eq-ok (err e) next h = cc
bind-eq-ok (ok a) next h = (a, refl, h)

ok_inj : {A : Type 0} {a b : A} → ok a ≡ ok b → a ≡ b
ok_inj {A} {a} h = ap (λ (m : Parsed A). value m) h
  where
    value : Parsed A → A
    value (ok x) = x
    value (err e) = a

ne-nil : (s : Str) → is_empty s ≡ false → s ≢ []
ne-nil [] h = cc
ne-nil (c ∷ s) h = λ e. cc

module _ (parse_url : Str → Option UrlParts) where
  -- An account that the proxy can send to: it has a slug, and its URL is a bare http(s) origin.
  pub record IsUsable (a : Account) : Type 0 where
    pub has_slug : a.slug ≢ []
    pub has_url : a.url ≢ []
    pub parts : UrlParts
    pub parses : parse_url a.url ≡ some parts
    pub has_scheme : (parts.scheme == codes "http" || parts.scheme == codes "https") ≡ true
    pub is_root : parts.path ≡ codes "/"
    pub no_query : parts.query ≡ none
    pub no_fragment : parts.fragment ≡ none

Distinct-concat :
    (key : Account → Str) (accounts : List Account) (a : Account)
    → Distinct key accounts
    → All (λ (b : Account). key b ≢ key a) accounts
    → Distinct key (accounts ++ (a ∷ []))
Distinct-concat key [] a d h = (tt, tt)
Distinct-concat key (b ∷ accounts) a (new, d) (ne, h) = (
  All-append (λ (c : Account). key b ≢ key c) accounts (a ∷ []) new (ne, tt),
  Distinct-concat key accounts a d h,
)

-- Every account's key is among those seen.
abbrev Seen : (Account → Str) → List Str → List Account → Type 0
Seen key seen accounts = All (λ (b : Account). In (key b) seen) accounts

Seen-cons :
    (key : Account → Str) (seen : List Str) (s : Str) (accounts : List Account)
    → Seen key seen accounts
    → Seen key (s ∷ seen) accounts
Seen-cons key seen s [] h = tt
Seen-cons key seen s (b ∷ accounts) (i, h) = (there i, Seen-cons key seen s accounts h)

Seen-concat :
    (key : Account → Str) (seen : List Str) (accounts : List Account) (a : Account)
    → Seen key seen accounts
    → Seen key (key a ∷ seen) (accounts ++ (a ∷ []))
Seen-concat key seen accounts a h =
    All-append (λ (b : Account). In (key b) (key a ∷ seen)) accounts (a ∷ [])
      (Seen-cons key seen (key a) accounts h) (here refl, tt)

new_of_Seen :
    (key : Account → Str) (seen : List Str) (accounts : List Account) (a : Account)
    → Seen key seen accounts
    → contains seen (key a) ≡ false
    → All (λ (b : Account). key b ≢ key a) accounts
new_of_Seen key seen [] a h f = tt
new_of_Seen key seen (b ∷ accounts) a (i, h) f = (
  λ same. false≢true (sym f ∙ In-contains (subst (λ (s : Str). In s seen) same i)),
  new_of_Seen key seen accounts a h f,
)

module _ (parse_url : Str → Option UrlParts) where
  check_url-ok :
      (url : Str)
      → check_url parse_url url ≡ ok tt
      → (parts : UrlParts) × (parse_url url ≡ some parts)
        × ((parts.scheme == codes "http" || parts.scheme == codes "https") ≡ true)
        × (parts.path ≡ codes "/")
        × (parts.query ≡ none)
        × (parts.fragment ≡ none)
  unfolding check_url
  check_url-ok url h = elim (Option-cases (parse_url url)) [
    | inl bad ↦ cc (rw (bad, check_url) at h)
    | inr (parts, e) ↦
        let (scheme, root, query, fragment) = checked parts (rw (e, check_url) at h) in
        (parts, e, scheme, root, query, fragment)
  ]
    where
      checked :
          (parts : UrlParts)
          → ◌≡◌ {A = Parsed (Unit {0})}
              (if not (parts.scheme == codes "http" || parts.scheme == codes "https")
                then err bad_scheme
                else if not (parts.path == codes "/")
                    || is_given parts.query
                    || is_given parts.fragment
                then err not_bare_origin
                else ok tt)
              (ok tt)
          → ((parts.scheme == codes "http" || parts.scheme == codes "https") ≡ true)
            × (parts.path ≡ codes "/")
            × (parts.query ≡ none)
            × (parts.fragment ≡ none)
      checked parts h = ground (arith, ==_iff parts.path (codes "/"))

  entry_of :
      (slug url : Str) (a : Account)
      → (if is_empty slug || is_empty url
          then err empty_slug_or_url
          else (check_url parse_url url >>= λ _. ok (record { slug = slug; url = url })))
        ≡ ok a
      → IsUsable parse_url a
  entry_of slug url a h = elim (Bool-cases (is_empty slug || is_empty url)) [
    | inl blank ↦ cc (rw blank at h)
    | inr given ↦
        let (u, checked, same) = bind-eq-ok (check_url parse_url url) _ (rw given at h) in
        let (parts, e, scheme, root, query, fragment) = check_url-ok url checked in
        let made : record { slug = slug; url = url } ≡ a = ok_inj same in
        subst (IsUsable parse_url) made (record {
          has_slug = ne-nil slug (ground arith);
          has_url = ne-nil url (ground arith);
          parts = parts;
          parses = e;
          has_scheme = scheme;
          is_root = root;
          no_query = query;
          no_fragment = fragment;
        })
  ]

  parse_entry-IsUsable :
      (entry : Str) (a : Account) → parse_entry parse_url entry ≡ ok a → IsUsable parse_url a
  unfolding parse_entry
  parse_entry-IsUsable entry a h = elim (Option-cases (split_once b'=' entry)) [
    | inl missing ↦ cc (rw (missing, parse_entry) at h)
    | inr ((slug, url), e) ↦
        entry_of (trim slug) (trim_end_matches b'/' (trim url)) a (rw (e, parse_entry) at h)
  ]

  -- The loop keeps what `IsParsed` says of the accounts read so far.
  parse_entries-IsParsed :
      (entries : List Str) (accounts : List Account) (slugs urls : List Str) {result : List Account}
      → All (IsUsable parse_url) accounts
      → Distinct (λ a. a.slug) accounts
      → Distinct (λ a. a.url) accounts
      → Seen (λ a. a.slug) slugs accounts
      → Seen (λ a. a.url) urls accounts
      → parse_entries parse_url accounts slugs urls entries ≡ ok result
      → All (IsUsable parse_url) result
        × Distinct (λ a. a.slug) result
        × Distinct (λ a. a.url) result
  unfolding parse_entries
  parse_entries-IsParsed [] accounts slugs urls {result} u d d' s s' h =
      let e : accounts ≡ result = ground arith in
      (
        subst (All (IsUsable parse_url)) e u,
        subst (Distinct (λ a. a.slug)) e d,
        subst (Distinct (λ a. a.url)) e d',
      )
  parse_entries-IsParsed (entry ∷ entries) accounts slugs urls u d d' s s' h =
      elim (Bool-cases (is_empty (trim entry))) [
        | inl blank ↦ parse_entries-IsParsed entries accounts slugs urls u d d' s s' (rw blank at h)
        | inr given ↦
            let (a, parsed, added) =
              bind-eq-ok (parse_entry parse_url (trim entry)) _ (rw given at h) in
            elim (Bool-cases (contains slugs a.slug)) [
              | inl old ↦ cc (rw old at added)
              | inr new ↦ elim (Bool-cases (contains urls a.url)) [
                | inl old ↦ cc (rw (new, old) at added)
                | inr fresh ↦
                    parse_entries-IsParsed entries (accounts ++ (a ∷ [])) (a.slug ∷ slugs)
                      (a.url ∷ urls)
                      (All-append (IsUsable parse_url) accounts (a ∷ []) u
                        (parse_entry-IsUsable (trim entry) a parsed, tt))
                      (Distinct-concat (λ a. a.slug) accounts a d
                        (new_of_Seen (λ a. a.slug) slugs accounts a s new))
                      (Distinct-concat (λ a. a.url) accounts a d'
                        (new_of_Seen (λ a. a.url) urls accounts a s' fresh))
                      (Seen-concat (λ a. a.slug) slugs accounts a s)
                      (Seen-concat (λ a. a.url) urls accounts a s') (rw (new, fresh) at added)
              ]
            ]
      ]

  -- A pool as it comes out of the parser: at least one account, each of them usable, no two with
  -- the same slug or the same URL, the counter at 0 and nothing cooling.
  pub record IsFresh (pool : AccountPool) : Type 0 where
    pub some_account : pool.accounts ≢ []
    pub usable : All (IsUsable parse_url) pool.accounts
    pub slugs_distinct : Distinct (λ a. a.slug) pool.accounts
    pub urls_distinct : Distinct (λ a. a.url) pool.accounts
    pub starts_at_zero : pool.next ≡ 0
    pub nothing_cools : (pool.cooldown_until ≡ []) × (pool.model_cooldown_until ≡ [])

  -- Whatever the specification says, a pool that `parse` accepts is fresh: see `IsFresh`.
  pub parse-IsFresh :
      (spec : Str) (pool : AccountPool) → parse parse_url spec ≡ ok pool → IsFresh pool
  unfolding parse
  parse-IsFresh spec pool h =
      let (accounts, read, done) =
        bind-eq-ok (parse_entries parse_url [] [] [] (split b',' spec)) finish h in
      let (u, d, d') = parse_entries-IsParsed (split b',' spec) [] [] [] tt tt tt tt tt read in
      finished accounts u d d' done
    where
      finished :
          (accounts : List Account)
          → All (IsUsable parse_url) accounts
          → Distinct (λ a. a.slug) accounts
          → Distinct (λ a. a.url) accounts
          → finish accounts ≡ ok pool
          → IsFresh pool
      finished [] u d d' e = cc
      finished (a ∷ accounts) u d d' e = subst IsFresh (ok_inj e) (record {
        some_account = λ q. cc;
        usable = u;
        slugs_distinct = d;
        urls_distinct = d';
        starts_at_zero = refl;
        nothing_cools = (refl, refl);
      })
