-- ===== src/Pool/Pinned.antt =====
-- Pins and cooldowns of the account pool of src/router.rs together: when a pin is honoured.
use codex_proxy_rs.Base.{
  ℕ, ◌+◌, ◌≤◌, ◌<◌, true, false, List, [], ◌∷◌, Option, none, some, Str, ◌≡◌, ◌≢◌, ◌↔◌, refl, sym,
  ap, subst, ◌∙◌, lookup, ==_iff, ==_self, ==_ne, ◌==◌, text_eq, pair_eq, nat_eq, arith, Bool-cases,
  inl, inr, In, here, there, All-In, find,
}
use codex_proxy_rs.Pool.{
  Account, AccountPool, is_after, is_cooling, cooldown, is_model_cooling, pinned,
}
use codex_proxy_rs.Pool.Parse.{Distinct}
use codex_proxy_rs.Pool.Cooling.{is_cooling-cooldown, pinned-some}

-- No cooldown of the slug lies in the future: the map of cooldowns, read directly.
abbrev pub IsWarm : AccountPool → ℕ → Str → Type 0
IsWarm pool now slug = (until : ℕ) → lookup slug pool.cooldown_until ≡ some until → until ≤ now

-- The slug serves the model, which has no cooldown of its own when it is empty.
abbrev pub Serves : AccountPool → ℕ → Str → Str → Type 0
Serves pool now slug model =
    model ≢ []
    → (until : ℕ) → lookup (slug, model) pool.model_cooldown_until ≡ some until
    → until ≤ now

is_after_iff :
    (o : Option ℕ) (now : ℕ)
    → (is_after o now ≡ false) ↔ ((until : ℕ) → o ≡ some until → until ≤ now)
is_after_iff none now = ((λ h until e. cc), (λ h. refl))
is_after_iff (some t) now =
    ((λ h until e. let same : t ≡ until = cc in ground arith), (λ h. ground (arith, h t refl)))

pinned_warm :
    (pool : AccountPool) (now : ℕ) (slug model : Str)
    → is_cooling pool now slug ≡ false
    → is_model_cooling pool now slug model ≡ false
    → pinned pool now slug model ≡ find (λ (b : Account). b.slug == slug) pool.accounts
unfolding pinned
pinned_warm pool now slug model warm serves = rw (warm, serves)

is_cooling_iff :
    (pool : AccountPool) (now : ℕ) (slug : Str)
    → (is_cooling pool now slug ≡ false) ↔ IsWarm pool now slug
unfolding is_cooling
is_cooling_iff pool now slug = is_after_iff (lookup slug pool.cooldown_until) now

is_model_cooling_iff :
    (pool : AccountPool) (now : ℕ) (slug model : Str)
    → (is_model_cooling pool now slug model ≡ false) ↔ Serves pool now slug model
unfolding is_model_cooling
is_model_cooling_iff pool now slug [] = ((λ h ne. absurd (ne refl)), (λ h. refl))
is_model_cooling_iff pool now slug (c ∷ model) =
    let read = is_after_iff (lookup (slug, c ∷ model) pool.model_cooldown_until) now in
    ((λ h ne. read.0 h), (λ h. read.1 (h (λ e. cc))))

find_slug :
    (accounts : List Account) (a : Account)
    → Distinct (λ (b : Account). b.slug) accounts
    → In a accounts
    → find (λ (b : Account). b.slug == a.slug) accounts ≡ some a
unfolding find
find_slug [] a d m = elim m [ ]
find_slug (b ∷ accounts) a (new, d) (here e) =
    rw ((==_iff b.slug a.slug).1 (ap (λ (x : Account). x.slug) e)) (ap some e)
find_slug (b ∷ accounts) a (new, d) (there m) = elim (Bool-cases (b.slug == a.slug)) [
  | inl same ↦
      absurd (All-In (λ (c : Account). b.slug ≢ c.slug) m new ((==_iff b.slug a.slug).0 same))
  | inr other ↦ rw other (find_slug accounts a d m)
]

-- In a pool with distinct slugs a pin is honoured, with account `a`, exactly when `a` is the account
-- of the pool with the pinned slug, no cooldown of that slug lies in the future, and none of that
-- slug with the model does, if the model is not empty.
pub pinned_iff :
    (pool : AccountPool) (now : ℕ) (slug model : Str) (a : Account)
    → Distinct (λ (b : Account). b.slug) pool.accounts
    → (pinned pool now slug model ≡ some a)
      ↔ (In a pool.accounts × (a.slug ≡ slug) × IsWarm pool now slug × Serves pool now slug model)
pinned_iff pool now slug model a distinct = (honoured, found)
  where
    honoured :
        pinned pool now slug model ≡ some a
        → In a pool.accounts × (a.slug ≡ slug) × IsWarm pool now slug × Serves pool now slug model
    honoured h =
        let (m, same, warm, serves) = pinned-some pool now slug model h in
        (
          m,
          same,
          (is_cooling_iff pool now slug).0 warm,
          (is_model_cooling_iff pool now slug model).0 serves,
        )

    found :
        In a pool.accounts × (a.slug ≡ slug) × IsWarm pool now slug × Serves pool now slug model
        → pinned pool now slug model ≡ some a
    found (m, same, warm, serves) =
        pinned_warm pool now slug model ((is_cooling_iff pool now slug).1 warm)
          ((is_model_cooling_iff pool now slug model).1 serves)
        ∙ subst (λ s. find (λ (b : Account). b.slug == s) pool.accounts ≡ some a) same
            (find_slug pool.accounts a distinct m)

-- What a cooldown of `slug` at `at` does, seen at any time `now` and for any model: the slug cools
-- exactly while less than 60 seconds (in nanoseconds) have passed, and until then no pin of it is
-- honoured; another slug cools, and another pin is honoured, as before.
pub cooldown_window :
    (pool : AccountPool) (at now : ℕ) (slug model : Str)
    → let after = cooldown pool at slug in
      ((is_cooling after now slug ≡ true) ↔ (now < at + 60000000000))
      × (now < at + 60000000000 → pinned after now slug model ≡ none)
      × ((other : Str)
          → other ≢ slug
          → (is_cooling after now other ≡ is_cooling pool now other)
            × (pinned after now other model ≡ pinned pool now other model))
unfolding pinned
cooldown_window pool at now slug model = (
  own,
  (λ early. rw (own.1 early)),
  (λ other ne.
      let same =
        is_cooling-cooldown pool at now slug other ∙ rw (==_ne slug other (λ e. ne (sym e))) in
      (same, rw same (unfold cooldown is_model_cooling in refl))),
)
  where
    own : (is_cooling (cooldown pool at slug) now slug ≡ true) ↔ (now < at + 60000000000)
    own =
        rw (is_cooling-cooldown pool at now slug slug, ==_self slug)
          ((λ h. ground arith), (λ h. ground arith))
