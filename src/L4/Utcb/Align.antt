-- ===== src/L4/Utcb/Align.antt =====
-- `align_offset`: what the mask computes.
use l4rerust.Base.{
  ℕ, zero, suc, ◌+◌, ◌-◌, ◌*◌, ◌/◌, ◌%◌, ◌^◌, ◌≤◌, ◌<◌, bit_and, ◌≡◌, ap, ap₂, sym, arith, ◌∙◌,
}
use l4rerust.Base.Bits.{double_pow, bit_and_mask, bit_and_shifted}
use native.Mathlib.Nat.{
  mod-eq_of_lt, mod-lt, div-add-mod', mul-mod_left, mul-le-mul_right, lt_of_mul-lt-mul_right,
  one-le-pow, pow-suc,
}
use l4rerust.L4.Utcb.{Layout, align_offset, complement}

-- Alignments are powers of two, and Rust allows none above 2 ^ 29.
pub record IsLayout (t : Layout) : Type 0 where
  pub exponent : ℕ
  pub is_power : t.align ≡ 2 ^ exponent
  pub bounded : exponent ≤ 29

pow_split : (j k : ℕ) → 2 ^ j * 2 ^ k ≡ 2 ^ (j + k)
pow_split j zero = let e : j + 0 ≡ j = omega arith in rw e (omega arith)
pow_split j (suc k) =
    let e : j + suc k ≡ suc (j + k) = omega arith in
    rw e (omega (arith, double_pow (2 ^ j) k, pow-suc 2 (j + k), pow_split j k))

pred_mul : (a b : ℕ) → (a - 1) * b ≡ a * b - b
pred_mul zero b = omega arith
pred_mul (suc a) b =
    let e : suc a - 1 ≡ a = omega arith in
    let d : suc a * b ≡ b + a * b = omega arith in rw e (rw d (omega arith))

-- The quotient of a word has the bits that are left.
quotient_fits : (k x : ℕ) → k ≤ 64 → x < 2 ^ 64 → x / 2 ^ k < 2 ^ (64 - k)
quotient_fits k x small h =
    let e : 64 - k + k ≡ 64 = omega arith in
    let whole : 2 ^ (64 - k) * 2 ^ k ≡ 2 ^ 64 = pow_split (64 - k) k ∙ ap (λ n. 2 ^ n) e in
    lt_of_mul-lt-mul_right (2 ^ k) (omega (arith, whole, one-le-pow k 2))

-- The mask clears the `k` low bits of a word.
clear_low : (k x : ℕ) → k ≤ 64 → x < 2 ^ 64 → bit_and x (complement (2 ^ k - 1)) ≡ x / 2 ^ k * 2 ^ k
clear_low k x small h =
    let j = 64 - k in
    let e : j + k ≡ 64 = omega arith in
    let whole : 2 ^ j * 2 ^ k ≡ 2 ^ 64 = pow_split j k ∙ ap (λ n. 2 ^ n) e in
    let mask : complement (2 ^ k - 1) ≡ (2 ^ j - 1) * 2 ^ k =
      omega (arith, whole, pred_mul (2 ^ j) (2 ^ k), one-le-pow k 2) in
    let parts : x ≡ x / 2 ^ k * 2 ^ k + x % 2 ^ k = omega (arith, one-le-pow k 2) in
    ap₂ bit_and parts mask
    ∙ bit_and_shifted k (x / 2 ^ k) (x % 2 ^ k) (2 ^ j - 1) (omega (arith, one-le-pow k 2))
    ∙ ap (λ q. q * 2 ^ k) (bit_and_mask j (x / 2 ^ k) ∙ mod-eq_of_lt (quotient_fits k x small h))

-- Aligned up: the number of whole alignments that `off` needs.
pub align_offset_lem :
    (t : Layout) (off : ℕ)
    → (l : IsLayout t) → off + t.align ≤ 2 ^ 64
    → align_offset t off ≡ (off + t.align - 1) / t.align * t.align
unfolding align_offset
align_offset_lem t off l fits =
    let positive : 1 ≤ t.align = omega (arith, l.is_power, one-le-pow l.exponent 2) in
    let x = off + t.align - 1 in
    let small : x % 2 ^ 64 ≡ x = omega arith in
    ap₂ bit_and small (ap (λ a. complement (a - 1)) l.is_power)
    ∙ clear_low l.exponent x (omega (arith, l.bounded)) (omega arith)
    ∙ ap (λ a. x / a * a) (sym l.is_power)

-- Between a number and `a - 1` above it there is one multiple of `a`.
least : (a x m r : ℕ) → 0 < a → x < m + a → m % a ≡ 0 → r ≡ x / a * a → r ≤ m
least a x m r positive near whole e =
    let split : (m / a + 1) * a ≡ m / a * a + a = omega arith in
    let below : x / a < m / a + 1 =
      lt_of_mul-lt-mul_right a (omega (arith, split, div-add-mod' x a, div-add-mod' m a)) in
    omega (arith, e, mul-le-mul_right {m = x / a} {n = m / a} a (omega arith), div-add-mod' m a)

-- `align_offset` gives the least multiple of the alignment that is not below the offset.
pub align_offset-least :
    (t : Layout) (off : ℕ)
    → IsLayout t
    → off + t.align ≤ 2 ^ 64
    → (off ≤ align_offset t off)
      × (align_offset t off % t.align ≡ 0)
      × ((m : ℕ) → off ≤ m → m % t.align ≡ 0 → align_offset t off ≤ m)
align_offset-least t off l fits =
    let positive : 0 < t.align = omega (arith, l.is_power, one-le-pow l.exponent 2) in
    let x = off + t.align - 1 in
    let e = align_offset_lem t off l fits in
    (
      omega (arith, e, div-add-mod' x t.align, mod-lt x positive),
      ap (λ r. r % t.align) e ∙ mul-mod_left (x / t.align) t.align,
      λ m above whole. least t.align x m _ positive (omega arith) whole e,
    )
