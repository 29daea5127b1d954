-- ===== src/Sse/Trim.antt =====
-- What `[u8]::trim_ascii`, as src/relay.rs uses it, leaves of a text.
use Prim.Native.Nat.{ℕ}
use mathlib.Core.List.{reverse, reverse-append, reverse-reverse}
use codex_proxy_rs.Base.{
  true, [], ◌∷◌, ◌++◌, Bytes, ◌≡◌, ◌⊎◌, ◌↔◌, refl, sym, ap, ◌∙◌, All, All-reverse, Bool-cases, inl,
  inr, arith, nat_eq,
}
use codex_proxy_rs.Sse.{is_ascii_white, trim_ascii_start, trim_ascii}

-- A blank, a tab, a line feed, a form feed or a carriage return.
abbrev pub IsBlank : ℕ → Type 0
IsBlank b = (b ≡ 32) ⊎ ((b ≡ 9) ⊎ ((b ≡ 10) ⊎ ((b ≡ 12) ⊎ (b ≡ 13))))

is_ascii_white_iff : (b : ℕ) → (is_ascii_white b ≡ true) ↔ IsBlank b
unfolding is_ascii_white
is_ascii_white_iff b = ((λ h. ground arith), (λ h. ground arith))

-- `s` with blanks around it.
abbrev pub Pads : Bytes → Bytes → Type 0
Pads s padded =
    (before : Bytes) × (after : Bytes) × All IsBlank before
    × All IsBlank after
    × (padded ≡ before ++ (s ++ after))

split_start :
    (s : Bytes) → (before : Bytes) × All IsBlank before × (s ≡ before ++ trim_ascii_start s)
unfolding trim_ascii_start
split_start [] = ([], tt, refl)
split_start (b ∷ s) = elim (Bool-cases (is_ascii_white b)) [
  | inl white ↦
      let (before, blank, e) = split_start s in
      rw white (b ∷ before, ((is_ascii_white_iff b).0 white, blank), ap (λ (t : Bytes). b ∷ t) e)
  | inr black ↦ rw black ([], tt, refl)
]

trim_ascii_start-append :
    (before s : Bytes) → All IsBlank before → trim_ascii_start (before ++ s) ≡ trim_ascii_start s
unfolding trim_ascii_start
trim_ascii_start-append [] s blank = refl
trim_ascii_start-append (b ∷ before) s (white, blank) =
    rw ((is_ascii_white_iff b).1 white) (trim_ascii_start-append before s blank)

-- Every text is its trimmed text with blanks around it.
pub trim_ascii-Pads : (s : Bytes) → Pads (trim_ascii s) s
unfolding trim_ascii
trim_ascii-Pads s =
    let t = trim_ascii_start s in
    let (before, blank, e) = split_start s in
    let (after, blank', e') = split_start (reverse t) in
    let ends : t ≡ trim_ascii s ++ reverse after =
      sym (reverse-reverse t)
      ∙ (ap reverse e' ∙ reverse-append after (trim_ascii_start (reverse t))) in
    (
      before,
      reverse after,
      blank,
      All-reverse IsBlank after blank',
      e ∙ ap (λ (u : Bytes). before ++ u) ends,
    )

-- A text that neither begins nor ends with a blank is what is left of it with blanks around it.
pub Pads-trim_ascii :
    (s padded : Bytes)
    → ((t : Bytes) → trim_ascii_start (s ++ t) ≡ s ++ t)
    → trim_ascii_start (reverse s) ≡ reverse s
    → Pads s padded
    → trim_ascii padded ≡ s
unfolding trim_ascii
Pads-trim_ascii s padded first last (before, after, blank, blank', e) =
    rw
      (
        e,
        trim_ascii_start-append before (s ++ after) blank,
        first after,
        reverse-append s after,
        trim_ascii_start-append (reverse after) (reverse s) (All-reverse IsBlank after blank'),
        last,
      )
      (reverse-reverse s)
