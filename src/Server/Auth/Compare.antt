-- ===== src/Server/Auth/Compare.antt =====
-- The comparison in constant time of src/server/middleware.rs is equality of the bytes.
use Prim.Native.Nat.{bit_or, bit_xor, bit_or-bitwise, bit_xor-bitwise, digits, differ, max}
use codex_proxy_rs.Base.{
  ℕ, zero, suc, ◌/◌, ◌%◌, ◌≤◌, ◌≡◌, refl, ap, sym, ◌∙◌, ◌↔◌, true, ◌&&◌, [], ◌∷◌, Bytes, length,
  ◌==◌, nat_eq, arith,
}
use codex_proxy_rs.Server.Auth.{fold_bytes}

differ-zero : (x y : ℕ) → differ x y ≡ 0 → x ≡ y
differ-zero zero y h = omega (arith, h)
differ-zero (suc x) zero h = absurd (omega (arith, h))
differ-zero (suc x) (suc y) h = omega (arith, differ-zero x y h)

differ_self : (x : ℕ) → differ x x ≡ 0
differ_self zero = refl
differ_self (suc x) = differ_self x

xor_digits-zero : (n a b : ℕ) → a ≤ n → digits (λ b. b) differ n a b ≡ 0 → a ≡ b
xor_digits-zero zero zero b le h = omega (arith, h)
xor_digits-zero zero (suc a) b le h = absurd (omega arith)
xor_digits-zero (suc n) zero b le h = omega (arith, h)
xor_digits-zero (suc n) (suc a) b le h =
    let rest : digits (λ b. b) differ n (suc a / 2) (b / 2) ≡ 0 = omega (arith, h) in
    let last : differ (suc a % 2) (b % 2) ≡ 0 = omega (arith, h) in
    omega (
      arith,
      xor_digits-zero n (suc a / 2) (b / 2) (omega arith) rest,
      differ-zero (suc a % 2) (b % 2) last,
    )

xor_digits_self : (n a : ℕ) → a ≤ n → digits (λ b. b) differ n a a ≡ 0
xor_digits_self zero zero le = refl
xor_digits_self zero (suc a) le = absurd (omega arith)
xor_digits_self (suc n) zero le = refl
xor_digits_self (suc n) (suc a) le =
    omega (arith, xor_digits_self n (suc a / 2) (omega arith), differ_self (suc a % 2))

bit_xor-zero : (a b : ℕ) → bit_xor a b ≡ 0 → a ≡ b
bit_xor-zero a b h = xor_digits-zero a a b (omega arith) (sym (bit_xor-bitwise a b) ∙ h)

bit_xor_self : (a : ℕ) → bit_xor a a ≡ 0
bit_xor_self a = bit_xor-bitwise a a ∙ xor_digits_self a a (omega arith)

or_digits-zero : (n a b : ℕ) → a ≤ n → digits (λ b. b) max n a b ≡ 0 → (a ≡ 0) × (b ≡ 0)
or_digits-zero zero zero b le h = (refl, h)
or_digits-zero zero (suc a) b le h = absurd (omega arith)
or_digits-zero (suc n) zero b le h = (refl, h)
or_digits-zero (suc n) (suc a) b le h =
    let rest : digits (λ b. b) max n (suc a / 2) (b / 2) ≡ 0 = omega (arith, h) in
    let (left, right) = or_digits-zero n (suc a / 2) (b / 2) (omega arith) rest in
    absurd (omega (arith, h, left))

bit_or-zero : (a b : ℕ) → bit_or a b ≡ 0 → (a ≡ 0) × (b ≡ 0)
bit_or-zero a b h = or_digits-zero a a b (omega arith) (sym (bit_or-bitwise a b) ∙ h)

fold_bytes-zero :
    (acc : ℕ) (xs ys : Bytes)
    → length xs ≡ length ys
    → fold_bytes acc xs ys ≡ 0
    → (acc ≡ 0) × (xs ≡ ys)
unfolding fold_bytes
fold_bytes-zero acc [] [] same h = (h, refl)
fold_bytes-zero acc [] (y ∷ ys) same h = absurd (omega (arith, same))
fold_bytes-zero acc (x ∷ xs) [] same h = absurd (omega (arith, same))
fold_bytes-zero acc (x ∷ xs) (y ∷ ys) same h =
    let (both, rest) = fold_bytes-zero (bit_or acc (bit_xor x y)) xs ys (omega (arith, same)) h in
    let (start, last) = bit_or-zero acc (bit_xor x y) both in
    let equal = bit_xor-zero x y last in (start, cc)

fold_bytes_self : (xs : Bytes) → fold_bytes 0 xs xs ≡ 0
unfolding fold_bytes
fold_bytes_self [] = refl
fold_bytes_self (x ∷ xs) = rw (bit_xor_self x) (fold_bytes_self xs)

-- Two byte strings of the same length fold to zero exactly when they are equal.
pub fold_bytes_iff :
    (xs ys : Bytes) → ((length xs == length ys && fold_bytes 0 xs ys == 0) ≡ true) ↔ (xs ≡ ys)
fold_bytes_iff xs ys = (
  λ h.
      let same : length xs ≡ length ys = ground arith in
      let none : fold_bytes 0 xs ys ≡ 0 = ground arith in (fold_bytes-zero 0 xs ys same none).1,
  λ e.
      let same = ap length e in
      let none : fold_bytes 0 xs ys ≡ 0 = ap (fold_bytes 0 xs) (sym e) ∙ fold_bytes_self xs in
      ground (arith, same, none),
)
