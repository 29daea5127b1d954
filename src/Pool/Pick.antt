-- ===== src/Pool/Pick.antt =====
-- What `AccountPool::pick` of src/router.rs chooses.
pub mod Pass
use native.Mathlib.Nat.{mod-lt, mod-eq_of_lt, mod-add-mod, add-mod_right}
use native.Mathlib.Decide.{dec_le, ℕ_discrete}
use codex_proxy_rs.Base.{
  ℕ, zero, suc, ◌+◌, ◌-◌, ◌%◌, ◌^◌, ◌≤◌, ◌<◌, Bool, true, false, List, [], ◌∷◌, Option, none, some,
  Str, ◌≡◌, ◌≢◌, refl, sym, ap, subst, ◌∙◌, ◌⊎◌, In, here, get_elem?, get_elem?-some, get_elem?-In,
  In-index, length, Bool-cases, inl, inr, arith, ◌==◌, false≢true, nat_eq,
}
use codex_proxy_rs.Pool.{
  Account, AccountPool, pass, pick, skip_unhealthy, skip_gated, first, or_else, visit,
}
use codex_proxy_rs.Pool.Pick.Pass.{
  slot, slot_account, slot_covers, visit-some, visit-none, pass-some, pass-none, pass-none_all,
}

first-In :
    (accounts : List Account)
    → accounts ≢ []
    → (a : Account) × (first accounts ≡ some a) × In a accounts
first-In [] ne = absurd (ne refl)
first-In (a ∷ accounts) ne = (a, refl, here refl)

-- What a pick promises: the account is one of the pool; it is healthy (not excluded, not cooling,
-- not known to refuse the model) if any account is; and failing that, it is at least not excluded
-- and not known to refuse the model, if any account is.
pub record IsBestPick (pool : AccountPool) (now : ℕ) (exclude : Option Str) (model : Str)
    (a : Account) : Type 0 where
  pub listed : In a pool.accounts
  pub healthy :
      (b : Account)
      → In b pool.accounts
      → skip_unhealthy pool now exclude model b ≡ false
      → skip_unhealthy pool now exclude model a ≡ false
  pub ungated :
      (b : Account)
      → In b pool.accounts
      → skip_gated pool now exclude model b ≡ false
      → skip_gated pool now exclude model a ≡ false

-- A healthy account is not gated.
skip_gated_of_healthy :
    (pool : AccountPool) (now : ℕ) (exclude : Option Str) (model : Str) (a : Account)
    → skip_unhealthy pool now exclude model a ≡ false
    → skip_gated pool now exclude model a ≡ false
unfolding skip_unhealthy skip_gated
skip_gated_of_healthy pool now exclude model a h = ground arith

module _ (pool : AccountPool) (now : ℕ) (exclude : Option Str) (model : Str)
    (room : pool.next + length pool.accounts ≤ 2 ^ 64) where
  Best : Account → Type 0
  Best = IsBestPick pool now exclude model

  healthy_pass : Option Account
  healthy_pass =
      pass (skip_unhealthy pool now exclude model) pool.accounts pool.next 0 (length pool.accounts)

  gated_pass : Option Account
  gated_pass =
      pass (skip_gated pool now exclude model) pool.accounts pool.next 0 (length pool.accounts)

  none_healthy :
      healthy_pass ≡ none
      → (b : Account) → In b pool.accounts
      → skip_unhealthy pool now exclude model b ≡ false
      → ⊥
  unfolding healthy_pass
  none_healthy h b m k = false≢true (sym k ∙ pass-none_all _ pool.accounts pool.next room h b m)

  none_ungated :
      gated_pass ≡ none
      → (b : Account) → In b pool.accounts
      → skip_gated pool now exclude model b ≡ false
      → ⊥
  unfolding gated_pass
  none_ungated h b m k = false≢true (sym k ∙ pass-none_all _ pool.accounts pool.next room h b m)

  IsBestPick-passes :
      (x y z : Option Account)
      → healthy_pass ≡ x
      → gated_pass ≡ y
      → first pool.accounts ≡ z
      → pool.accounts ≢ []
      → (a : Account) × (or_else x (or_else y z) ≡ some a) × Best a
  unfolding Best healthy_pass gated_pass
  IsBestPick-passes (some a) y z p q r ne =
      let (m, k) = pass-some _ pool.accounts pool.next 0 _ p in
      (
        a,
        refl,
        record {
          listed = m;
          healthy = λ b n h. k;
          ungated = λ b n h. skip_gated_of_healthy pool now exclude model a k;
        },
      )
  IsBestPick-passes none (some a) z p q r ne =
      let (m, k) = pass-some _ pool.accounts pool.next 0 _ q in
      (
        a,
        refl,
        record {
          listed = m;
          healthy = λ b n h. absurd (none_healthy p b n h);
          ungated = λ b n h. k;
        },
      )
  IsBestPick-passes none none z p q r ne =
      let (a, e, m) = first-In pool.accounts ne in
      (
        a,
        sym r ∙ e,
        record {
          listed = m;
          healthy = λ b n h. absurd (none_healthy p b n h);
          ungated = λ b n h. absurd (none_ungated q b n h);
        },
      )

length-pos {ℓ} : {A : Type ℓ} (xs : List A) → xs ≢ [] → (length xs == 0) ≡ false
length-pos [] ne = absurd (ne refl)
length-pos (x ∷ xs) ne = ground arith

-- As long as the round-robin counter has not wrapped around at 64 bits, a pick from a pool that is
-- not empty returns an account, and the best one: see `IsBestPick`.
pub pick-IsBestPick :
    (pool : AccountPool) (now : ℕ) (exclude : Option Str) (model : Str)
    → pool.next + length pool.accounts ≤ 2 ^ 64
    → pool.accounts ≢ []
    → (a : Account) × ((pick pool now exclude model).0 ≡ some a)
      × IsBestPick pool now exclude model a
unfolding pick Best healthy_pass gated_pass
pick-IsBestPick pool now exclude model room ne =
    rw (length-pos pool.accounts ne)
      (IsBestPick-passes pool now exclude model room _ _ _ refl refl refl ne)

-- A pick changes nothing of the pool but its counter: the accounts and both cooldown maps stay.
pub pick_keeps :
    (pool : AccountPool) (now : ℕ) (exclude : Option Str) (model : Str)
    → ((pick pool now exclude model).1.accounts ≡ pool.accounts)
      × ((pick pool now exclude model).1.cooldown_until ≡ pool.cooldown_until)
      × ((pick pool now exclude model).1.model_cooldown_until ≡ pool.model_cooldown_until)
unfolding pick
pick_keeps pool now exclude model = ground arith

pass_turn :
    (skip : Account → Bool) (accounts : List Account) (start : ℕ) {a : Account}
    → get_elem? accounts (slot accounts start 0) ≡ some a
    → skip a ≡ false
    → pass skip accounts start 0 (length accounts) ≡ some a
unfolding pass
pass_turn skip [] start e h = cc
pass_turn skip (x ∷ xs) start e h =
    ap (λ o. visit skip o (pass skip (x ∷ xs) start 1 (length xs))) e ∙ rw h

ne-nil_of_get_elem? :
    (accounts : List Account) (i : ℕ) {a : Account} → get_elem? accounts i ≡ some a → accounts ≢ []
ne-nil_of_get_elem? [] i e = cc
ne-nil_of_get_elem? (x ∷ xs) i e = cc

-- Round robin: a pick that finds the account in turn healthy takes it, and moves the turn on by one.
pub pick_round_robin :
    (pool : AccountPool) (now : ℕ) (exclude : Option Str) (model : Str) (a : Account)
    → pool.next < 2 ^ 64
    → get_elem? pool.accounts (pool.next % length pool.accounts) ≡ some a
    → skip_unhealthy pool now exclude model a ≡ false
    → pick pool now exclude model ≡ (some a, record pool { next = (pool.next + 1) % 2 ^ 64 })
unfolding pick
pick_round_robin pool now exclude model a lt e h =
    let ne = ne-nil_of_get_elem? pool.accounts _ e in
    let turn : slot pool.accounts pool.next 0 ≡ pool.next % length pool.accounts =
      ap (λ (t : ℕ). t % length pool.accounts) (omega arith) in
    rw (length-pos pool.accounts ne) (
      rw (
        pass_turn (skip_unhealthy pool now exclude model) pool.accounts pool.next
          (ap (get_elem? pool.accounts) turn ∙ e) h))

-- A pick is always an account of the pool.
pub pick-In :
    (pool : AccountPool) (now : ℕ) (exclude : Option Str) (model : Str) {a : Account}
    → (pick pool now exclude model).0 ≡ some a
    → In a pool.accounts
unfolding pick
pick-In pool now exclude model {a} h = elim (Bool-cases (length pool.accounts == 0)) [
  | inl empty ↦ cc (rw empty at h)
  | inr full ↦ of_passes _ _ refl refl (rw full at h)
]
  where
    of_first : (accounts : List Account) → first accounts ≡ some a → In a accounts
    of_first [] e = cc
    of_first (b ∷ accounts) e = here cc

    of_passes :
        (x y : Option Account)
        → pass
            (skip_unhealthy pool now exclude model)
            pool.accounts
            pool.next
            0
            (length pool.accounts)
          ≡ x
        → pass (skip_gated pool now exclude model) pool.accounts pool.next 0 (length pool.accounts)
          ≡ y
        → or_else x (or_else y (first pool.accounts)) ≡ some a
        → In a pool.accounts
    of_passes (some b) y p q e = (pass-some _ pool.accounts pool.next 0 _ (p ∙ e)).0
    of_passes none (some b) p q e = (pass-some _ pool.accounts pool.next 0 _ (q ∙ e)).0
    of_passes none none p q e = of_first pool.accounts e

or_else-some :
    (x y z : Option Account) {b : Account}
    → z ≡ some b
    → (a : Account) × (or_else x (or_else y z) ≡ some a)
or_else-some (some a) y z e = (a, refl)
or_else-some none (some a) z e = (a, refl)
or_else-some none none z {b} e = (b, e)

-- A pick from a pool that is not empty never comes back empty.
pub pick-some :
    (pool : AccountPool) (now : ℕ) (exclude : Option Str) (model : Str)
    → pool.accounts ≢ []
    → (a : Account) × ((pick pool now exclude model).0 ≡ some a)
unfolding pick
pick-some pool now exclude model ne =
    rw (length-pos pool.accounts ne) (or_else-some _ _ _ (first-In pool.accounts ne).1)
