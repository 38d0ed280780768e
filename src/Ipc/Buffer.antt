-- ===== src/Ipc/Buffer.antt =====
-- Laws of the helpers of `Ipc` that move bytes through the buffer registers.
use l4rerust.Base.{
  ℕ, zero, suc, ◌/◌, ◌^◌, ◌≤◌, ◌<◌, ◌≡◌, List, min, arith, length, take, drop, length-append,
  length-take, length-drop, take-append,
}
use native.Mathlib.Nat.{pow-suc}
use l4rerust.Base.Word.{from_le_bytes, to_le_bytes}
use l4rerust.Ipc.{Utcb, br_write_bytes, br_read_bytes, br_data_bytes}

-- The payload holds the buffer registers behind the first.
abbrev pub HasPayload : ℕ → Utcb → Type 0
HasPayload br_words u = length u.payload ≡ br_data_bytes br_words

module _ (br_words : ℕ) (bytes : List ℕ) (u : Utcb) where
  pub len-br_write_bytes : (br_write_bytes br_words bytes u).len ≤ br_data_bytes br_words
  unfolding br_write_bytes
  len-br_write_bytes = omega arith

  pub br_write_bytes-HasPayload :
      HasPayload br_words u → HasPayload br_words (br_write_bytes br_words bytes u)
  unfolding br_write_bytes
  br_write_bytes-HasPayload h =
      let n = min (length bytes) (br_data_bytes br_words) in
      omega (
        arith,
        length-append (take n bytes) (drop n u.payload),
        length-take n bytes,
        length-drop n u.payload,
      )

  -- What one side writes the other reads, cut to what fits.
  pub br_read_bytes-br_write_bytes :
      br_read_bytes br_words (br_write_bytes br_words bytes u)
      ≡ take (min (length bytes) (br_data_bytes br_words)) bytes
  unfolding br_write_bytes br_read_bytes
  br_read_bytes-br_write_bytes =
      let n = min (length bytes) (br_data_bytes br_words) in
      take-append (take n bytes) (drop n u.payload) _ (omega (arith, length-take n bytes))

pub length-br_read_bytes :
    (br_words : ℕ) (u : Utcb) → length (br_read_bytes br_words u) ≤ br_data_bytes br_words
unfolding br_read_bytes
length-br_read_bytes br_words u =
    omega (arith, length-take (min u.len (br_data_bytes br_words)) u.payload)

-- A number of `n` bytes comes back from its bytes.
pub from_le_bytes-to_le_bytes : (n x : ℕ) → x < 256 ^ n → from_le_bytes (to_le_bytes n x) ≡ x
unfolding from_le_bytes to_le_bytes
from_le_bytes-to_le_bytes zero x h = omega arith
from_le_bytes-to_le_bytes (suc n) x h =
    omega
      (arith, pow-suc 256 n, from_le_bytes-to_le_bytes n (x / 256) (omega (arith, pow-suc 256 n)))
