-- ===== src/Upstream/Bearer.antt =====
-- When `bare_token` of src/upstream.rs cuts a token between two characters.
use codex_proxy_rs.Base.{
  ℕ, zero, suc, ◌-◌, ◌≤◌, ◌<◌, ◌≡◌, refl, ap, ◌∙◌, Bool, true, false, [], ◌∷◌, ◌++◌, Option, none,
  some, Str, ◌==◌, nat_eq, if◌then◌else◌, Bool-cases, inl, inr, arith, codes, All, All-reverse,
  trim, trim_start, trim_end, drop_while, is_white, byte_len, char_len, length, subst,
  to_ascii_lowercase, text_eq, leb,
}
use codex_proxy_rs.Upstream.{split_at, strip_bearer, bare_token}

abbrev pub IsAscii : Str → Type 0
IsAscii s = All (λ c. c < 128) s

drop_while-IsAscii : (p : ℕ → Bool) (s : Str) → IsAscii s → IsAscii (drop_while p s)
unfolding drop_while
drop_while-IsAscii p [] h = tt
drop_while-IsAscii p (c ∷ s) h = elim (Bool-cases (p c)) [
  | inl dropped ↦ rw dropped (drop_while-IsAscii p s h.1)
  | inr kept ↦ rw kept h
]

trim-IsAscii : (s : Str) → IsAscii s → IsAscii (trim s)
unfolding trim trim_start trim_end
trim-IsAscii s h =
    let front = drop_while-IsAscii is_white s h in
    All-reverse (λ (c : ℕ). c < 128) _
      (drop_while-IsAscii is_white _ (All-reverse (λ (c : ℕ). c < 128) _ front))

ascii_len : (c : ℕ) → c < 128 → char_len c ≡ 1
unfolding char_len
ascii_len c h = ground arith

split_at-step :
    (n c : ℕ) (s : Str)
    → c < 128
    → split_at (suc n) (c ∷ s)
      ≡ (elim (split_at n s) [ none ↦ none | some p ↦ some (c ∷ p.0, p.1) ])
unfolding split_at
split_at-step n c s h =
    let one = ascii_len c h in
    let less : suc n - 1 ≡ n = omega arith in
    let more : (suc n == 0) ≡ false = ground arith in
    let enough : leb 1 (suc n) ≡ true = ground arith in rw (one, less, more, enough) refl

-- A text of ASCII can be cut after any number of its bytes.
split_at-IsAscii :
    (n : ℕ) (s : Str) → IsAscii s → n ≤ byte_len s → (p : Str × Str) × (split_at n s ≡ some p)
unfolding split_at byte_len
split_at-IsAscii zero [] h fits = (([], []), refl)
split_at-IsAscii (suc n) [] h fits = absurd (omega arith)
split_at-IsAscii zero (c ∷ s) h fits = (([], c ∷ s), refl)
split_at-IsAscii (suc n) (c ∷ s) h fits =
    let one = ascii_len c h.0 in
    let (p, e) = split_at-IsAscii n s h.1 (omega (arith, one)) in
    (
      (c ∷ p.0, p.1),
      split_at-step n c s h.0
          ∙ ap
              (λ (o : Option (Str × Str)). elim o as (λ _. Option (Str × Str)) [
                | none ↦ none
                | some q ↦ some (c ∷ q.0, q.1)
              ])
              e,
    )

-- A token of ASCII has a bare form: the cut of seven bytes does not panic.
pub bare_token-IsAscii : (s : Str) → IsAscii s → (t : Str) × (bare_token s ≡ some t)
unfolding bare_token
bare_token-IsAscii s h = elim (Bool-cases (leb 7 (byte_len (trim s)))) [
  | inr short ↦ (trim s, rw short refl)
  | inl long ↦
      let (p, e) = split_at-IsAscii 7 (trim s) (trim-IsAscii s h) (ground arith) in
      (
        if to_ascii_lowercase p.0 == codes "bearer " then trim p.1 else trim s,
        rw long (ap (strip_bearer (trim s)) e),
      )
]

-- A cut one byte into a character of several bytes fails.
split_at-none :
    (head : Str) (g : ℕ) (rest : Str)
    → IsAscii head
    → 128 ≤ g
    → split_at (suc (length head)) (head ++ g ∷ rest) ≡ none
unfolding split_at char_len
split_at-none [] g rest h wide = ground arith
split_at-none (c ∷ head) g rest h wide =
    split_at-step (suc (length head)) c (head ++ g ∷ rest) h.0
    ∙ ap
        (λ (o : Option (Str × Str)). elim o as (λ _. Option (Str × Str)) [
          | none ↦ none
          | some q ↦ some (c ∷ q.0, q.1)
        ])
        (split_at-none head g rest h.1 wide)

byte_len-wide :
    (head : Str) (g : ℕ) (rest : Str) → 128 ≤ g → suc (length head) ≤ byte_len (head ++ g ∷ rest)
unfolding byte_len char_len
byte_len-wide [] g rest wide = ground arith
byte_len-wide (c ∷ head) g rest wide = ground (arith, byte_len-wide head g rest wide)

-- A token of six ASCII characters, one that is not ASCII and any others, with no white space to
-- trim, makes the cut of `bare_token` panic.
pub bare_token-panics :
    (head : Str) (g : ℕ) (rest : Str)
    → length head ≡ 6
    → IsAscii head
    → 128 ≤ g
    → trim (head ++ g ∷ rest) ≡ head ++ g ∷ rest
    → bare_token (head ++ g ∷ rest) ≡ none
unfolding bare_token
bare_token-panics head g rest six ascii wide whole =
    let long : leb 7 (byte_len (head ++ g ∷ rest)) ≡ true =
      ground (arith, byte_len-wide head g rest wide) in
    let cut : split_at 7 (head ++ g ∷ rest) ≡ none =
      subst (λ n. split_at (suc n) (head ++ g ∷ rest) ≡ none) six
        (split_at-none head g rest ascii wide) in
    rw (whole, long, cut) refl
