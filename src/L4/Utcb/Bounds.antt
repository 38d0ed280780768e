-- ===== src/L4/Utcb/Bounds.antt =====
-- No call on the registers leaves them: the offset stays inside and no byte behind the end is
-- written, whatever sequence of calls is made.
use l4rerust.Base.{
  Bool, false, All, ℕ, zero, suc, ◌+◌, ◌*◌, ◌/◌, ◌^◌, ◌≤◌, ltb, leb, ◌≡◌, ◌⊎◌, inl, inr, refl,
  arith, List, [], ◌∷◌, length, Option, ap, ◌∙◌, both, Option-cases,
}
use l4rerust.Base.Ranges.{write_at, read_at, length-write_at}
use l4rerust.Base.Word.{to_le_bytes, from_le_bytes}
use l4rerust.L4.Codes.{GenericErr}
use l4rerust.L4.Error.{generic, Utf8Error, ok, err}
use l4rerust.L4.Utcb.{
  limit, is_negative, Layout, usize, byte, Registers, end_of, write, read, skip, write_elements,
  write_slice, write_str, read_elements, read_counted, read_slice, read_text, read_str, reset,
  without_nul, Outcome, and_then, granted, text_of,
}

pub length-to_le_bytes : (n x : ℕ) → length (to_le_bytes n x) ≡ n
unfolding to_le_bytes
length-to_le_bytes zero x = refl
length-to_le_bytes (suc n) x = ap suc (length-to_le_bytes n (x / 256))

-- A range is granted only if it lies in the buffer.
pub end_of-cases :
    (buf_size : ℕ) (e : GenericErr) (start n : ℕ)
    → (end_of buf_size e start n ≡ err (generic e))
      ⊎ ((end_of buf_size e start n ≡ ok (start + n)) × (start + n ≤ buf_size))
unfolding end_of
end_of-cases buf_size e start n = ground arith

-- The memory has the size of the registers, and the offset lies in it.
pub record IsBounded (buf_size : ℕ) (r : Registers) : Type 0 where
  pub sized : length r.base ≡ buf_size
  pub inside : r.offset ≤ buf_size

-- The calls of the type, with their arguments.
pub data Call : Type 0 where
  writes : Layout → List ℕ → Call
  reads : Layout → Call
  skips : Layout → Call
  writes_slice : Bool → Layout → Layout → ℕ → List ℕ → Call
  reads_slice : Bool → Layout → Layout → Call
  writes_str : List ℕ → Call
  reads_str : Call
  resets : Call

-- A value has the size of its type.
unfoldable pub IsSized : Call → Type 0
IsSized (writes t val) = length val ≡ t.size
IsSized (writes_slice signed len t n bytes) = length bytes ≡ n * t.size
IsSized _ = Unit {0}

-- To show something of what is done with a range: it holds without the range, and with it if it
-- lies in the buffer.
pub granted_lem :
    {A : Type 0} (P : Outcome A → Type 0) (buf_size : ℕ) (e : GenericErr) (start n : ℕ)
    (r : Registers) (f : ℕ → Outcome A)
    → P (err (generic e), r)
    → (start + n ≤ buf_size → P (f (start + n)))
    → P (granted (end_of buf_size e start n) r f)
granted_lem P buf_size e start n r f refused given = elim (end_of-cases buf_size e start n) [
  | inl same ↦ rw same refused
  | inr (same, inside) ↦ rw same (given inside)
]

module _ (buf_size : ℕ) where
  -- The registers after a call are in their bounds.
  Safe : {A : Type 0} → Outcome A → Type 0
  Safe o = IsBounded buf_size o.1

  moved :
      (r : Registers) (end : ℕ)
      → IsBounded buf_size r
      → end ≤ buf_size
      → IsBounded buf_size (record r { offset = end })
  moved r end b h = record { sized = b.sized; inside = h }

  written :
      (r : Registers) (bs : List ℕ) (start n : ℕ)
      → IsBounded buf_size r
      → length bs ≡ n
      → start + n ≤ buf_size
      → IsBounded buf_size (record { base = write_at r.base start bs; offset = start + n })
  written r bs start n b fits h = record {
    sized = length-write_at r.base bs start (omega (arith, b.sized)) ∙ b.sized;
    inside = h;
  }

  write-IsBounded :
      (t : Layout) (val : List ℕ) (r : Registers)
      → length val ≡ t.size
      → IsBounded buf_size r
      → Safe (write buf_size t val r)
  unfolding write Safe
  write-IsBounded t val r fits b =
      granted_lem Safe buf_size _ _ t.size r _ b (written r val _ t.size b fits)

  read-IsBounded : (t : Layout) (r : Registers) → IsBounded buf_size r → Safe (read buf_size t r)
  unfolding read Safe
  read-IsBounded t r b = granted_lem Safe buf_size _ _ t.size r _ b (moved r _ b)

  skip-IsBounded : (t : Layout) (r : Registers) → IsBounded buf_size r → Safe (skip buf_size t r)
  unfolding skip Safe
  skip-IsBounded t r b = granted_lem Safe buf_size _ _ t.size r _ b (moved r _ b)

  and_then-IsBounded :
      {A B : Type 0} (o : Outcome A) (f : A → Registers → Outcome B)
      → Safe o
      → ((a : A) (r : Registers) → IsBounded buf_size r → Safe (f a r))
      → Safe (and_then o f)
  unfolding Safe
  and_then-IsBounded (ok a, r) f b next = next a r b
  and_then-IsBounded (err e, r) f b next = b

  write_elements-IsBounded :
      (t : Layout) (n : ℕ) (bytes : List ℕ) (r : Registers)
      → length bytes ≡ n * t.size
      → IsBounded buf_size r
      → Safe (write_elements buf_size t n bytes r)
  unfolding write_elements Safe
  write_elements-IsBounded t n bytes r fits b =
      both Safe (leb (2 ^ 64) (n * t.size)) _ _ b
        (granted_lem Safe buf_size _ _ (n * t.size) r _ b (written r bytes _ (n * t.size) b fits))

  write_slice-IsBounded :
      (signed : Bool) (len t : Layout) (n : ℕ) (bytes : List ℕ) (r : Registers)
      → length bytes ≡ n * t.size
      → IsBounded buf_size r
      → Safe (write_slice buf_size signed len t n bytes r)
  unfolding write_slice Safe
  write_slice-IsBounded signed len t n bytes r fits b =
      both Safe (ltb n (limit signed len)) _ _
        (and_then-IsBounded _ _ (write-IsBounded len _ r (length-to_le_bytes len.size n) b)
          (λ _ r b. write_elements-IsBounded t n bytes r fits b))
        b

  read_elements-IsBounded :
      (t : Layout) (n : ℕ) (r : Registers)
      → IsBounded buf_size r
      → Safe (read_elements buf_size t n r)
  unfolding read_elements Safe
  read_elements-IsBounded t n r b = both Safe (leb (2 ^ 64) n) _ _ b (
      both Safe (leb (2 ^ 64) (n * t.size)) _ _ b
        (granted_lem Safe buf_size _ _ (n * t.size) r _ b (moved r _ b)))

  read_counted-IsBounded :
      (signed : Bool) (len t : Layout) (n : ℕ) (r : Registers)
      → IsBounded buf_size r
      → Safe (read_counted buf_size signed len t n r)
  unfolding read_counted Safe
  read_counted-IsBounded signed len t n r b =
      both Safe (is_negative signed len n) _ _ b (read_elements-IsBounded t n r b)

  read_slice-IsBounded :
      (signed : Bool) (len t : Layout) (r : Registers)
      → IsBounded buf_size r
      → Safe (read_slice buf_size signed len t r)
  unfolding read_slice Safe
  read_slice-IsBounded signed len t r b =
      and_then-IsBounded _ _ (read-IsBounded len r b)
        (λ bytes r b. read_counted-IsBounded signed len t (from_le_bytes bytes) r b)

  module _ (from_utf8 : List ℕ → Option Utf8Error) where
    text_of-IsBounded :
        (bytes : List ℕ) (end : ℕ) (r : Registers)
        → IsBounded buf_size r
        → end ≤ buf_size
        → Safe (text_of buf_size from_utf8 bytes end r)
    unfolding text_of Safe
    text_of-IsBounded bytes end r b h = elim (Option-cases (from_utf8 bytes)) [
      | inl e ↦ rw (e, text_of) (moved r end b h)
      | inr (u, e) ↦ rw (e, text_of) b
    ]

    read_text-IsBounded :
        (n : ℕ) (r : Registers) → IsBounded buf_size r → Safe (read_text buf_size from_utf8 n r)
    unfolding read_text Safe
    read_text-IsBounded n r b =
        granted_lem Safe buf_size GenericErr.out_of_bounds r.offset n r
          (λ end. text_of buf_size from_utf8 (without_nul (read_at r.base r.offset n)) end r) b
          (text_of-IsBounded _ _ r b)

    read_str-IsBounded :
        (r : Registers) → IsBounded buf_size r → Safe (read_str buf_size from_utf8 r)
    unfolding read_str
    read_str-IsBounded r b =
        and_then-IsBounded (read buf_size usize r)
          (λ bytes r. read_text buf_size from_utf8 (from_le_bytes bytes) r)
          (read-IsBounded usize r b) (λ bytes r b. read_text-IsBounded (from_le_bytes bytes) r b)

    -- The registers after one call.
    unfoldable pub after : Call → Registers → Registers
    after (writes t val) r = (write buf_size t val r).1
    after (reads t) r = (read buf_size t r).1
    after (skips t) r = (skip buf_size t r).1
    after (writes_slice signed len t n bytes) r = (write_slice buf_size signed len t n bytes r).1
    after (reads_slice signed len t) r = (read_slice buf_size signed len t r).1
    after (writes_str val) r = (write_str buf_size val r).1
    after reads_str r = (read_str buf_size from_utf8 r).1
    after resets r = reset r

    unfoldable pub after_all : List Call → Registers → Registers
    after_all [] r = r
    after_all (c ∷ cs) r = after_all cs (after c r)

    after-IsBounded :
        (c : Call) (r : Registers)
        → IsSized c
        → IsBounded buf_size r
        → IsBounded buf_size (after c r)
    unfolding after IsSized write_str reset Safe
    after-IsBounded (writes t val) r s b = write-IsBounded t val r s b
    after-IsBounded (reads t) r s b = read-IsBounded t r b
    after-IsBounded (skips t) r s b = skip-IsBounded t r b
    after-IsBounded (writes_slice signed len t n bytes) r s b =
        write_slice-IsBounded signed len t n bytes r s b
    after-IsBounded (reads_slice signed len t) r s b = read_slice-IsBounded signed len t r b
    after-IsBounded (writes_str val) r s b =
        write_slice-IsBounded false usize byte (length val) val r (omega arith) b
    after-IsBounded reads_str r s b = read_str-IsBounded r b
    after-IsBounded resets r s b = moved r 0 b (omega arith)

    -- Whatever calls are made with values of the size of their types, the ones that fail included:
    -- the memory keeps its size, so no byte behind it was written, and the offset stays in it.
    pub after_all-IsBounded :
        (cs : List Call) (r : Registers)
        → All IsSized cs
        → IsBounded buf_size r
        → IsBounded buf_size (after_all cs r)
    unfolding after_all
    after_all-IsBounded [] r s b = b
    after_all-IsBounded (c ∷ cs) r (s, ss) b =
        after_all-IsBounded cs (after c r) ss (after-IsBounded c r s b)
