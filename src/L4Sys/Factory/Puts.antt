-- ===== src/L4Sys/Factory/Puts.antt =====
-- Two writes to the message registers, of a header and of bytes behind it, and what is read of them.
use l4rerust.Base.{
  ℕ, zero, suc, ◌+◌, ◌*◌, ◌/◌, ◌%◌, ◌^◌, ◌≤◌, ◌<◌, ◌≡◌, ap, sym, ◌∙◌, List, [], ◌∷◌, length, take,
  drop, take-take, arith,
}
use l4rerust.Base.Ranges.{
  write_at, read_at, length-write_at, read_at-write_at, take-write_at, read_at-front,
  read_at-write_at_before,
}
use l4rerust.Base.Word.{from_le_bytes, to_le_bytes}
use l4rerust.Ipc.Buffer.{from_le_bytes-to_le_bytes}
use l4rerust.L4.Utcb.Bounds.{length-to_le_bytes}
use l4rerust.L4Sys.Factory.{word_count}

-- The receiver reads the header at a word, its type and the bytes behind it, and goes on behind them.
abbrev pub varg_header : ℕ → List ℕ → ℕ
varg_header i m = from_le_bytes (read_at m (i * 8) 8)

abbrev pub varg : ℕ → List ℕ → ℕ × List ℕ
varg i m = (varg_header i m % 2 ^ 16, read_at m ((i + 1) * 8) (varg_header i m / 2 ^ 16))

abbrev pub next_varg : ℕ → List ℕ → ℕ
next_varg i m = i + 1 + word_count (varg_header i m / 2 ^ 16)

abbrev pub read_vargs : ℕ → ℕ → List ℕ → List (ℕ × List ℕ)
read_vargs zero i m = []
read_vargs (suc n) i m = varg i m ∷ read_vargs n (next_varg i m) m

-- Two writes, of a header and of what follows it, and what is read from any memory with the same
-- front.
abbrev pub put : ℕ → ℕ → List ℕ → List ℕ → List ℕ
put w h bytes m = write_at (write_at m (w * 8) (to_le_bytes 8 h)) ((w + 1) * 8) bytes

module _ (w h : ℕ) (bytes m : List ℕ) (room : (w + 1) * 8 + length bytes ≤ length m) where
  m1 : List ℕ
  m1 = write_at m (w * 8) (to_le_bytes 8 h)

  length-m1 : length m1 ≡ length m
  unfolding m1
  length-m1 = length-write_at m (to_le_bytes 8 h) (w * 8) (omega (arith, length-to_le_bytes 8 h))

  pub length-put : length (put w h bytes m) ≡ length m
  unfolding m1
  length-put = length-write_at m1 bytes ((w + 1) * 8) (omega (arith, length-m1)) ∙ length-m1

  pub take-put : take (w * 8) (put w h bytes m) ≡ take (w * 8) m
  unfolding m1
  take-put =
      take-write_at m1 bytes ((w + 1) * 8) (w * 8) (omega arith) (omega (arith, length-m1))
      ∙ take-write_at m (to_le_bytes 8 h) (w * 8) (w * 8) (omega arith) (omega arith)

  module _ (m' : List ℕ) (n : ℕ) (same : take n m' ≡ take n (put w h bytes m)) where
    pub header-put : h < 2 ^ 64 → (w + 1) * 8 ≤ n → varg_header w m' ≡ h
    unfolding m1
    header-put small le =
        ap from_le_bytes (
          read_at-front (put w h bytes m) m' n (w * 8) 8 same (omega arith)
          ∙ read_at-write_at_before m1 bytes ((w + 1) * 8) (w * 8) 8 (omega (arith, length-m1))
              (omega arith)
          ∙ ap (read_at m1 (w * 8)) (sym (length-to_le_bytes 8 h))
          ∙ read_at-write_at m (to_le_bytes 8 h) (w * 8) (omega (arith, length-to_le_bytes 8 h)))
        ∙ from_le_bytes-to_le_bytes 8 h (omega arith)

    pub payload-put :
        (len : ℕ)
        → len ≤ length bytes
        → (w + 1) * 8 + len ≤ n
        → read_at m' ((w + 1) * 8) len ≡ take len bytes
    unfolding m1
    payload-put len le far =
        read_at-front (put w h bytes m) m' n ((w + 1) * 8) len same far
        ∙ sym (take-take len (length bytes) (drop ((w + 1) * 8) (put w h bytes m)) le)
        ∙ ap (take len) (read_at-write_at m1 bytes ((w + 1) * 8) (omega (arith, length-m1)))
