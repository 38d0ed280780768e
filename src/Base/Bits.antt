-- ===== src/Base/Bits.antt =====
-- `&` and `|` on words, as arithmetic: low masks, aligned masks and fields that do not overlap.
use Prim.Native.Nat.{
  ℕ, zero, suc, ◌+◌, ◌-◌, ◌*◌, ◌/◌, ◌%◌, ◌^◌, ◌≤◌, ◌<◌, min, max, digits, bitwise, bit_and, bit_or,
  bit_and-bitwise, bit_or-bitwise,
}
use mathlib.Core.Path.{◌≡◌, refl, ap, sym, ◌∙◌}
use native.Mathlib.Omega.{arith}
use native.Mathlib.Nat.{le_refl, pow-suc, pow-succ', one-le-pow, div-div-eq-div-mul}

-- The native operations mean a recursion on binary digits with fuel; any fuel that is enough gives
-- the same number.
module _ (alone : ℕ → ℕ) (join : ℕ → ℕ → ℕ) where
  enough_fuel : (m n a b : ℕ) → a ≤ m → a ≤ n → digits alone join m a b ≡ digits alone join n a b
  enough_fuel zero zero a b p q = refl
  enough_fuel zero (suc n) zero b p q = refl
  enough_fuel zero (suc n) (suc a) b p q = absurd (omega arith)
  enough_fuel (suc m) zero zero b p q = refl
  enough_fuel (suc m) zero (suc a) b p q = absurd (omega arith)
  enough_fuel (suc m) (suc n) zero b p q = refl
  enough_fuel (suc m) (suc n) (suc a) b p q =
      rw (enough_fuel m n (suc a / 2) (b / 2) (omega arith) (omega arith))

  lowest_digit :
      (a b : ℕ)
      → bitwise alone join (suc a) b
        ≡ bitwise alone join (suc a / 2) (b / 2) * 2 + join (suc a % 2) (b % 2)
  lowest_digit a b =
      omega (arith, enough_fuel a (suc a / 2) (suc a / 2) (b / 2) (omega arith) (le_refl _))

bit_and_digit : (a b : ℕ) → bit_and a b ≡ bit_and (a / 2) (b / 2) * 2 + min (a % 2) (b % 2)
bit_and_digit zero b = simp bit_and-bitwise (omega arith)
bit_and_digit (suc a) b = simp bit_and-bitwise (lowest_digit (λ y. 0) min a b)

bit_or_digit : (a b : ℕ) → bit_or a b ≡ bit_or (a / 2) (b / 2) * 2 + max (a % 2) (b % 2)
bit_or_digit zero b = simp bit_or-bitwise (omega arith)
bit_or_digit (suc a) b = simp bit_or-bitwise (lowest_digit (λ y. y) max a b)

and_zero_below : (n a : ℕ) → a ≤ n → bit_and a 0 ≡ 0
and_zero_below n zero h = refl
and_zero_below zero (suc a) h = absurd (omega arith)
and_zero_below (suc n) (suc a) h =
    omega (arith, bit_and_digit (suc a) 0, and_zero_below n (suc a / 2) (omega arith))

pub bit_and-zero : (a : ℕ) → bit_and a 0 ≡ 0
bit_and-zero a = and_zero_below a a (le_refl a)

or_zero_below : (n a : ℕ) → a ≤ n → bit_or a 0 ≡ a
or_zero_below n zero h = refl
or_zero_below zero (suc a) h = absurd (omega arith)
or_zero_below (suc n) (suc a) h =
    omega (arith, bit_or_digit (suc a) 0, or_zero_below n (suc a / 2) (omega arith))

pub bit_or-zero : (a : ℕ) → bit_or a 0 ≡ a
bit_or-zero a = or_zero_below a a (le_refl a)

zero-bit_or : (a : ℕ) → bit_or 0 a ≡ a
zero-bit_or a = simp bit_or-bitwise (omega arith)

pub double_pow : (q k : ℕ) → q * 2 ^ suc k ≡ 2 * (q * 2 ^ k)
double_pow q k = omega (arith, ap (λ (t : ℕ). q * t) (pow-suc 2 k))

-- The bits below a mask `m << k` play no part.
pub bit_and_shifted :
    (k q r m : ℕ) → r < 2 ^ k → bit_and (q * 2 ^ k + r) (m * 2 ^ k) ≡ bit_and q m * 2 ^ k
bit_and_shifted zero q r m h =
    let e : q * 1 + r ≡ q = omega arith in
    let d : m * 1 ≡ m = omega arith in rw e (rw d (omega arith))
bit_and_shifted (suc k) q r m h = ground (
  arith,
  bit_and_digit (q * 2 ^ suc k + r) (m * 2 ^ suc k),
  double_pow q k,
  double_pow m k,
  double_pow (bit_and q m) k,
  pow-suc 2 k,
  bit_and_shifted k q (r / 2) m (omega (arith, pow-suc 2 k)),
)

mask_fields : (k q r : ℕ) → r < 2 ^ k → bit_and (q * 2 ^ k + r) (2 ^ k - 1) ≡ r
mask_fields zero q r h = rw bit_and-zero (omega arith)
mask_fields (suc k) q r h = ground (
  arith,
  bit_and_digit (q * 2 ^ suc k + r) (2 ^ suc k - 1),
  double_pow q k,
  pow-suc 2 k,
  one-le-pow k 2,
  mask_fields k q (r / 2) (omega (arith, pow-suc 2 k)),
)

-- A mask of `k` low bits is the remainder.
pub bit_and_mask : (k a : ℕ) → bit_and a (2 ^ k - 1) ≡ a % 2 ^ k
bit_and_mask k a = ground (arith, one-le-pow k 2, mask_fields k (a / 2 ^ k) (a % 2 ^ k))

-- `(q << k) | r` and `r | (q << k)`
pub bit_or_low : (k q r : ℕ) → r < 2 ^ k → bit_or (q * 2 ^ k) r ≡ q * 2 ^ k + r
bit_or_low zero q r h = ground (arith, bit_or-zero q)
bit_or_low (suc k) q r h = ground (
  arith,
  bit_or_digit (q * 2 ^ suc k) r,
  double_pow q k,
  bit_or_low k q (r / 2) (omega (arith, pow-suc 2 k)),
)

pub bit_or_high : (k q r : ℕ) → r < 2 ^ k → bit_or r (q * 2 ^ k) ≡ q * 2 ^ k + r
bit_or_high zero q r h = ground (arith, zero-bit_or q)
bit_or_high (suc k) q r h = ground (
  arith,
  bit_or_digit r (q * 2 ^ suc k),
  double_pow q k,
  pow-suc 2 k,
  bit_or_high k q (r / 2) (omega (arith, pow-suc 2 k)),
)

-- `|` with a value shifted by `k` leaves the `k` low bits.
pub bit_or_shifted :
    (k q r m : ℕ) → r < 2 ^ k → bit_or (q * 2 ^ k + r) (m * 2 ^ k) ≡ bit_or q m * 2 ^ k + r
bit_or_shifted zero q r m h =
    let e : q * 1 + r ≡ q = omega arith in
    let d : m * 1 ≡ m = omega arith in rw e (rw d (omega arith))
bit_or_shifted (suc k) q r m h = ground (
  arith,
  bit_or_digit (q * 2 ^ suc k + r) (m * 2 ^ suc k),
  double_pow q k,
  double_pow m k,
  double_pow (bit_or q m) k,
  pow-suc 2 k,
  bit_or_shifted k q (r / 2) m (omega (arith, pow-suc 2 k)),
)

shift_more : (a k : ℕ) → a / 2 ^ suc k ≡ a / 2 / 2 ^ k
shift_more a k = ap (λ (n : ℕ). a / n) (pow-succ' 2 k) ∙ sym (div-div-eq-div-mul a 2 (2 ^ k))

-- Each bit of `&` is the least of the two bits.
pub bit_and_bit : (k a b : ℕ) → bit_and a b / 2 ^ k % 2 ≡ min (a / 2 ^ k % 2) (b / 2 ^ k % 2)
bit_and_bit zero a b = omega (arith, bit_and_digit a b)
bit_and_bit (suc k) a b = rw (shift_more (bit_and a b) k) (
    rw (shift_more a k) (
      rw (shift_more b k) (
        let half : bit_and a b / 2 ≡ bit_and (a / 2) (b / 2) = omega (arith, bit_and_digit a b) in
        rw half (bit_and_bit k (a / 2) (b / 2)))))
