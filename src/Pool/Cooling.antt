-- ===== src/Pool/Cooling.antt =====
-- Cooldowns of the account pool of src/router.rs: what they block, and what they leave alone.
use codex_proxy_rs.Base.{
  ℕ, ◌+◌, ◌||◌, ◌&&◌, text_beq, false, [], ◌∷◌, some, Str, ◌≡◌, refl, lookup-insert, ==_iff, ◌==◌,
  text_eq, pair_eq, arith, if◌then◌else◌, is_empty, Bool-cases, inl, inr, pair_beq, In, find-some,
}
use codex_proxy_rs.Pool.{
  Account, AccountPool, cooldown_time, is_after, is_cooling, cooldown, is_model_cooling,
  cooldown_model, pinned,
}

-- The cooldown of a slug is the one that is looked up for it, and no other slug's.
pub is_cooling-cooldown :
    (pool : AccountPool) (at now : ℕ) (slug other : Str)
    → is_cooling (cooldown pool at slug) now other ≡ (
        if slug == other
        then is_after (some (at + cooldown_time)) now
        else is_cooling pool now other)
unfolding is_cooling cooldown
is_cooling-cooldown pool at now slug other =
    rw (lookup-insert slug other (at + cooldown_time) pool.cooldown_until)
      (elim (Bool-cases (slug == other)) [ inl e ↦ rw e | inr e ↦ rw e ])

is_empty_of_eq : (named : Str) → is_empty named ≡ false → ([] == named) ≡ false
unfolding text_beq
is_empty_of_eq [] h = cc
is_empty_of_eq (c ∷ named) h = refl

-- The cooldown of a model covers that pair of slug and model alone, and an empty model never cools.
pub is_model_cooling-cooldown_model :
    (pool : AccountPool) (at now : ℕ) (slug model other named : Str)
    → is_model_cooling (cooldown_model pool at slug model) now other named ≡ (
        if is_empty named
        then false
        else if slug == other && model == named
        then is_after (some (at + cooldown_time)) now
        else is_model_cooling pool now other named)
unfolding is_model_cooling cooldown_model pair_beq
is_model_cooling-cooldown_model pool at now slug [] other named =
    ground (arith, is_empty_of_eq named)
is_model_cooling-cooldown_model pool at now slug (c ∷ model) other named =
    elim (Bool-cases (is_empty named)) [
      | inl blank ↦ rw blank
      | inr given ↦ rw given (
          rw
            (lookup-insert (slug, c ∷ model) (other, named) (at + cooldown_time)
              pool.model_cooldown_until)
            (elim (Bool-cases (slug == other && (c ∷ model) == named)) [
              | inl e ↦ rw e
              | inr e ↦ rw e
            ]))
    ]

-- A pinned account is one of the pool with the pinned slug, which does not cool, nor for the model.
pub pinned-some :
    (pool : AccountPool) (now : ℕ) (slug model : Str) {a : Account}
    → pinned pool now slug model ≡ some a
    → In a pool.accounts
      × (a.slug ≡ slug)
      × (is_cooling pool now slug ≡ false)
      × (is_model_cooling pool now slug model ≡ false)
unfolding pinned
pinned-some pool now slug model {a} h =
    elim (Bool-cases (is_cooling pool now slug || is_model_cooling pool now slug model)) [
      | inl cooling ↦ cc (rw cooling at h)
      | inr warm ↦
          let (m, same) =
            find-some (λ (x : Account). x.slug == slug) pool.accounts (rw warm at h) in
          (m, (==_iff a.slug slug).0 same, ground arith, ground arith)
    ]
