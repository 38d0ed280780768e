-- ===== src/Base/Ranges.antt =====
-- Ranges of a list: what is written over them and read from them.
use Prim.Native.Nat.{ℕ, ◌+◌, ◌-◌, ◌≤◌}
use mathlib.Core.Path.{◌≡◌, refl, ap, sym, ◌∙◌}
use mathlib.Core.List.{List, ◌++◌, append_assoc}
use native.Mathlib.Omega.{arith}
use l4rerust.Base.Lists.{
  length, take, drop, length-append, length-take, length-drop, take-append, drop-append,
  take-append_le, take-take, take-drop, drop-append_ge, drop-drop,
}

module _ {ℓ} {A : Type ℓ} where
  -- The elements `bs` over those of `m` from `i` on.
  abbrev pub write_at : List A → ℕ → List A → List A
  write_at m i bs = take i m ++ bs ++ drop (i + length bs) m

  abbrev pub read_at : List A → ℕ → ℕ → List A
  read_at m i n = take n (drop i m)

  pub length-write_at :
      (m bs : List A) (i : ℕ) → i + length bs ≤ length m → length (write_at m i bs) ≡ length m
  length-write_at m bs i h = omega (
    arith,
    length-append (take i m ++ bs) (drop (i + length bs) m),
    length-append (take i m) bs,
    length-take i m,
    length-drop (i + length bs) m,
  )

  -- The bytes of a range that was written.
  pub read_at-write_at :
      (m bs : List A) (i : ℕ)
      → i + length bs ≤ length m
      → read_at (write_at m i bs) i (length bs) ≡ bs
  read_at-write_at m bs i h =
      let front : i ≡ length (take i m) = omega (arith, length-take i m) in
      let rest = drop (i + length bs) m in
      ap (λ xs. take (length bs) (drop i xs)) (append_assoc (take i m) bs rest)
      ∙ ap (take (length bs)) (drop-append (take i m) (bs ++ rest) i front)
      ∙ take-append bs rest (length bs) refl

  -- What lies before a range stays.
  pub take-write_at :
      (m bs : List A) (i n : ℕ) → n ≤ i → i ≤ length m → take n (write_at m i bs) ≡ take n m
  take-write_at m bs i n le h =
      ap (take n) (append_assoc (take i m) bs (drop (i + length bs) m))
      ∙ take-append_le n (take i m) (bs ++ drop (i + length bs) m) (omega (arith, length-take i m))
      ∙ take-take n i m le

  -- A range apart from the one that was written.
  pub read_at-write_at_before :
      (m bs : List A) (i o n : ℕ)
      → i + length bs ≤ length m
      → o + n ≤ i
      → read_at (write_at m i bs) o n ≡ read_at m o n
  read_at-write_at_before m bs i o n fits h =
      take-drop o n (write_at m i bs)
      ∙ ap (drop o) (take-write_at m bs i (o + n) h (omega arith))
      ∙ sym (take-drop o n m)

  pub read_at-write_at_behind :
      (m bs : List A) (i o n : ℕ)
      → i + length bs ≤ length m
      → i + length bs ≤ o
      → read_at (write_at m i bs) o n ≡ read_at m o n
  read_at-write_at_behind m bs i o n fits h =
      let rest = drop (i + length bs) m in
      let front : length (take i m ++ bs) ≡ i + length bs =
        omega (arith, length-append (take i m) bs, length-take i m) in
      ap (take n) (
        drop-append_ge o (take i m ++ bs) rest (omega arith)
        ∙ drop-drop (o - length (take i m ++ bs)) (i + length bs) m
        ∙ ap (λ k. drop k m) (omega arith))

  -- What is read depends on the front up to its end.
  pub read_at-front :
      (m m' : List A) (n i k : ℕ)
      → take n m' ≡ take n m
      → i + k ≤ n
      → read_at m' i k ≡ read_at m i k
  read_at-front m m' n i k e le =
      take-drop i k m'
      ∙ ap (drop i)
          (sym (take-take (i + k) n m' le) ∙ ap (take (i + k)) e ∙ take-take (i + k) n m le)
      ∙ sym (take-drop i k m)
