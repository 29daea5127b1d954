-- ===== src/Pool/Pick/Pass.antt =====
-- One pass of `AccountPool::pick` of src/router.rs over the accounts.
use native.Mathlib.Nat.{mod-lt, mod-eq_of_lt, mod-add-mod, add-mod_right}
use native.Mathlib.Decide.{dec_le, ℕ_discrete}
use codex_proxy_rs.Base.{
  ℕ, zero, suc, ◌+◌, ◌-◌, ◌%◌, ◌^◌, ◌≤◌, ◌<◌, Bool, true, false, List, Option, none, some, ◌≡◌, sym,
  ap, subst, ◌∙◌, ◌⊎◌, In, get_elem?, get_elem?-some, get_elem?-In, In-index, length, Bool-cases,
  inl, inr, arith, nat_eq,
}
use codex_proxy_rs.Pool.{Account, pass, visit}

-- The index that a pass reads in round `j`.
abbrev pub slot : List Account → ℕ → ℕ → ℕ
slot accounts start j = ((start + j) % 2 ^ 64) % length accounts

pub slot_account :
    (accounts : List Account) (start j : ℕ)
    → 0 < length accounts
    → (a : Account) × (get_elem? accounts (slot accounts start j) ≡ some a)
slot_account accounts start j h = get_elem?-some accounts (slot accounts start j) (mod-lt _ h)

-- Before the counter wraps around, each index is read in one of the rounds.
pub slot_covers :
    (accounts : List Account) (start k : ℕ)
    → start + length accounts ≤ 2 ^ 64
    → k < length accounts
    → (j : ℕ) × (j < length accounts) × (slot accounts start j ≡ k)
slot_covers accounts start k room lt = elim (dec_le s k) [
  | yes below ↦ (
    k - s,
    omega arith,
    plain (k - s) (omega arith) ∙ ap (λ (t : ℕ). t % n) (omega arith) ∙ mod-eq_of_lt lt,
  )
  | no above ↦ (
    k + n - s,
    omega arith,
    plain (k + n - s) (omega arith)
        ∙ ap (λ (t : ℕ). t % n) (omega arith)
        ∙ add-mod_right k n
        ∙ mod-eq_of_lt lt,
  )
]
  where
    n : ℕ
    n = length accounts

    s : ℕ
    s = start % n

    bound : s < n
    bound = mod-lt start (omega arith)

    plain : (j : ℕ) → j < n → slot accounts start j ≡ (s + j) % n
    plain j h = ap (λ (t : ℕ). t % n) (mod-eq_of_lt (omega arith)) ∙ sym (mod-add-mod start n j)

pub visit-some :
    (skip : Account → Bool) (o rest : Option Account) {a : Account}
    → visit skip o rest ≡ some a
    → ((o ≡ some a) × (skip a ≡ false)) ⊎ (rest ≡ some a)
unfolding visit
visit-some skip none rest h = cc
visit-some skip (some b) rest {a} h = elim (Bool-cases (skip b)) [
  | inl skipped ↦ inr (rw skipped at h)
  | inr chosen ↦
      let same : b ≡ a = ground arith in
      inl (ap some same, subst (λ (x : Account). skip x ≡ false) same chosen)
]

pub visit-none :
    (skip : Account → Bool) (b : Account) (rest : Option Account)
    → visit skip (some b) rest ≡ none
    → (skip b ≡ true) × (rest ≡ none)
unfolding visit
visit-none skip b rest h = ground arith

module _ (skip : Account → Bool) (accounts : List Account) (start : ℕ) where
  pub pass-some :
      (i left : ℕ) {a : Account}
      → pass skip accounts start i left ≡ some a
      → In a accounts × (skip a ≡ false)
  unfolding pass
  pass-some i zero h = cc
  pass-some i (suc left) h = elim (visit-some skip _ _ h) [
    | inl (found, kept) ↦ (get_elem?-In accounts (slot accounts start i) found, kept)
    | inr later ↦ pass-some (i + 1) left later
  ]

  -- A pass that finds nothing has skipped the account of each of its rounds.
  pub pass-none :
      (i left : ℕ)
      → 0 < length accounts
      → pass skip accounts start i left ≡ none
      → (j : ℕ) (b : Account) → i ≤ j
      → j < i + left
      → get_elem? accounts (slot accounts start j) ≡ some b
      → skip b ≡ true
  pass-none i zero pos h j b lo hi e = absurd (omega arith)
  pass-none i (suc left) pos h j b lo hi e =
      let (c, found) = slot_account accounts start i pos in
      let (skipped, rest) =
        visit-none skip c (pass skip accounts start (i + 1) left)
          (rw (← found) (unfold pass in h)) in
      elim (ℕ_discrete i j) [
        | yes same ↦
            let agree : some c ≡ some b =
              sym found ∙ ap (λ (t : ℕ). get_elem? accounts (slot accounts start t)) same ∙ e in
            let equal : c ≡ b = cc in subst (λ (x : Account). skip x ≡ true) equal skipped
        | no other ↦ pass-none (i + 1) left pos rest j b (omega arith) (omega arith) e
      ]

  -- A pass over all rounds that finds nothing has skipped every account.
  pub pass-none_all :
      start + length accounts ≤ 2 ^ 64
      → pass skip accounts start 0 (length accounts) ≡ none
      → (b : Account) → In b accounts
      → skip b ≡ true
  pass-none_all room h b m =
      let (k, lt, e) = In-index m in
      let (j, below, same) = slot_covers accounts start k room lt in
      pass-none 0 (length accounts) (omega arith) h j b (omega arith) (omega arith)
        (ap (get_elem? accounts) same ∙ e)
