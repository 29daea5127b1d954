-- ===== src/Conversation/Payload.antt =====
-- Reading back the text that src/conversation.rs hashes for the head of a conversation.
use codex_proxy_rs.Base.{
  ℕ, zero, suc, ◌+◌, ◌*◌, ◌-◌, ◌/◌, ◌%◌, ◌<◌, ◌≤◌, [], ◌∷◌, ◌++◌, Str, ◌≡◌, ◌≢◌, refl, sym, ap, ◌∙◌,
  All, codes, byte_len, char_len, ltb, if-both, arith, Bool-cases, inl, inr,
}
use codex_proxy_rs.Conversation.{decimal, decimal_from, head_payload}

append_cancel : (p : Str) {x y : Str} → p ++ x ≡ p ++ y → x ≡ y
append_cancel [] e = e
append_cancel (c ∷ p) e = append_cancel p cc

char_len_positive : (c : ℕ) → 1 ≤ char_len c
unfolding char_len
char_len_positive c = ground arith

-- Two texts of the same length in bytes that begin the same text are the same.
split_length :
    (a c : Str) {x y : Str} → byte_len a ≡ byte_len c → a ++ x ≡ c ++ y → (a ≡ c) × (x ≡ y)
unfolding byte_len
split_length [] [] n e = (refl, e)
split_length [] (k ∷ c) n e = let p = char_len_positive k in absurd (omega arith)
split_length (k ∷ a) [] n e = let p = char_len_positive k in absurd (omega arith)
split_length (k ∷ a) (j ∷ c) {x} {y} n e =
    let same : k ≡ j = cc in
    let rest : a ++ x ≡ c ++ y = cc in
    let lengths : char_len k ≡ char_len j = ap char_len same in
    let (p, q) = split_length a c (omega arith) rest in (cc, q)

-- Two texts without a colon that are followed by one are the same, and so is what follows.
split_colon :
    (a c : Str) {x y : Str}
    → All (λ k. k ≢ b':') a
    → All (λ k. k ≢ b':') c
    → a ++ (b':' ∷ x) ≡ c ++ (b':' ∷ y)
    → (a ≡ c) × (x ≡ y)
split_colon [] [] h g e = (refl, cc)
split_colon [] (k ∷ c) h (n, g) e = absurd (n cc)
split_colon (k ∷ a) [] (n, h) g e = absurd (n cc)
split_colon (k ∷ a) (j ∷ c) {x} {y} (n, h) (m, g) e =
    let rest : a ++ (b':' ∷ x) ≡ c ++ (b':' ∷ y) = cc in
    let (p, q) = split_colon a c h g rest in (cc, q)

-- The number that digits stand for, after those that stand for `acc`.
value : ℕ → Str → ℕ
value acc [] = acc
value acc (c ∷ s) = value (acc * 10 + (c - b'0')) s

value-decimal_from :
    (fuel n : ℕ) (out : Str) → n < fuel → value 0 (decimal_from fuel n out) ≡ value n out
unfolding decimal_from value
value-decimal_from zero n out lt = absurd (omega arith)
value-decimal_from (suc fuel) n out lt = elim (Bool-cases (ltb n 10)) [
  | inl small ↦ rw small (ap (λ k. value k out) (ground arith))
  | inr big ↦ rw big (
      value-decimal_from fuel (n / 10) ((b'0' + n % 10) ∷ out) (ground arith)
      ∙ ap (λ k. value k out) (ground arith))
]

decimal_injective : (n m : ℕ) → decimal n ≡ decimal m → n ≡ m
unfolding decimal value
decimal_injective n m e =
    sym (value-decimal_from (suc n) n [] (omega arith))
    ∙ (ap (value 0) e ∙ value-decimal_from (suc m) m [] (omega arith))

decimal_from_digits :
    (fuel n : ℕ) (out : Str)
    → All (λ k. k ≢ b':') out
    → All (λ k. k ≢ b':') (decimal_from fuel n out)
unfolding decimal_from
decimal_from_digits zero n out h = h
decimal_from_digits (suc fuel) n out h =
    let digit : b'0' + n % 10 ≢ b':' = λ e. omega arith in
    if-both (All (λ k. k ≢ b':')) (ltb n 10) (digit, h)
      (decimal_from_digits fuel (n / 10) ((b'0' + n % 10) ∷ out) (digit, h))

decimal_digits : (n : ℕ) → All (λ k. k ≢ b':') (decimal n)
unfolding decimal
decimal_digits n = decimal_from_digits (suc n) n [] tt

-- The text hashed for a conversation's head determines the head: two heads with the same text have
-- the same instructions and the same first user text, whatever line feeds or colons stand in them.
pub head_payload_injective :
    (instructions first instructions' first' : Str)
    → head_payload instructions first ≡ head_payload instructions' first'
    → (instructions ≡ instructions') × (first ≡ first')
unfolding head_payload codes
head_payload_injective instructions first instructions' first' e =
    let (counts, tail) =
      split_colon (decimal (byte_len instructions)) (decimal (byte_len instructions'))
        (decimal_digits (byte_len instructions)) (decimal_digits (byte_len instructions'))
        (append_cancel (codes "instructions:") e) in
    let (same, tail') =
      split_length instructions instructions' (decimal_injective _ _ counts) tail in
    let (_, firsts) =
      split_colon (decimal (byte_len first)) (decimal (byte_len first'))
        (decimal_digits (byte_len first)) (decimal_digits (byte_len first'))
        (append_cancel (codes "\nfirst_user:") tail') in
    (same, firsts)
