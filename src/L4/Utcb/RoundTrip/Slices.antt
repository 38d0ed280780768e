-- ===== src/L4/Utcb/RoundTrip/Slices.antt =====
-- Slices and strings written to the registers are read back from them.
use l4rerust.Base.{
  Bool, true, if_false, ℕ, ◌+◌, ◌*◌, ◌^◌, ◌≤◌, ◌<◌, leb, ◌≡◌, refl, ap, ap₂, All, lt→ltb, false,
  sym, ◌∙◌, arith, inl, inr, List, [], ◌∷◌, length,
}
use l4rerust.Base.Word.{to_le_bytes, from_le_bytes}
use l4rerust.Ipc.Buffer.{from_le_bytes-to_le_bytes}
use l4rerust.Base.Ranges.{read_at}
use l4rerust.L4.Codes.{GenericErr}
use l4rerust.L4.Error.{generic, ok, err}
use l4rerust.L4.Utcb.{
  limit, is_negative, Layout, Registers, align_offset, end_of, write, read, Outcome, and_then,
  write_elements, write_slice, read_elements, read_counted, read_slice,
}
use l4rerust.L4.Utcb.Align.{IsLayout}
use l4rerust.L4.Utcb.Bounds.{IsBounded, length-to_le_bytes, end_of-cases}
use l4rerust.L4.Utcb.RoundTrip.{
  Field, IsField, Fits, write_all, read_all, read_all-write_all, granted_range,
}

-- `n` elements one after the other, as one type.
abbrev pub array : Layout → ℕ → Layout
array t n = record { size = n * t.size; align = t.align }

-- A slice is its length and its elements.
abbrev pub slice_fields : Layout → Layout → ℕ → List ℕ → List Field
slice_fields len t n bytes =
    record { layout = len; value = to_le_bytes len.size n }
    ∷ record { layout = array t n; value = bytes }
    ∷ []

-- A call that succeeded, taken apart.
pub and_then_ok :
    {A B : Type 0} (o : Outcome A) (f : A → Registers → Outcome B) (b : B) (r' : Registers)
    → and_then o f ≡ (ok b, r')
    → (a : A) × (r : Registers) × (o ≡ (ok a, r)) × (f a r ≡ (ok b, r'))
and_then_ok (ok a, r) f b r' e = (a, r, refl, e)
and_then_ok (err x, r) f b r' e = absurd cc

two_values :
    {v w a b : List ℕ} {vs : List (List ℕ)} {r₂ r₃ r' : Registers}
    → (◌≡◌ {A = Outcome (List (List ℕ))} (ok (v ∷ vs), r₂) (ok (a ∷ b ∷ []), r'))
    → (◌≡◌ {A = Outcome (List (List ℕ))} (ok (w ∷ []), r₃) (ok vs, r₂))
    → (v ≡ a) × (w ≡ b) × (r₃ ≡ r')
two_values whole last = (cc, cc, cc)

pub and_then_done : (o : Outcome (Unit {0})) → and_then o (λ _ r. (ok tt, r)) ≡ o
and_then_done (ok tt, r) = refl
and_then_done (err x, r) = refl

pub and_then_cong :
    {A B : Type 0} (o : Outcome A) (f g : A → Registers → Outcome B)
    → ((a : A) (r : Registers) → f a r ≡ g a r)
    → and_then o f ≡ and_then o g
and_then_cong (ok a, r) f g same = same a r
and_then_cong (err x, r) f g same = refl

no_overflow : (n : ℕ) → n < 2 ^ 64 → leb (2 ^ 64) n ≡ false
no_overflow n h = ground arith

-- A length below the limit is one of the bytes, and its bytes are not those of a negative number.
below_limit :
    (signed : Bool) (t : Layout) (n : ℕ)
    → n < limit signed t
    → (n < 256 ^ t.size) × (is_negative signed t n ≡ false)
below_limit true t n h = (omega (arith, h), ground (arith, h))
below_limit false t n h = (h, refl)

module _ (buf_size : ℕ) (small : buf_size ≤ 2 ^ 32) where
  array_lem :
      (t : Layout) (n : ℕ) (bytes : List ℕ) (r : Registers)
      → n * t.size ≤ buf_size
      → write_elements buf_size t n bytes r ≡ write buf_size (array t n) bytes r
  unfolding write_elements write align_offset
  array_lem t n bytes r h = rw (no_overflow (n * t.size) (omega arith)) refl

  pub write_slice-fields :
      (signed : Bool) (len t : Layout) (n : ℕ) (bytes : List ℕ) (r : Registers)
      → n < limit signed len
      → n * t.size ≤ buf_size
      → write_slice buf_size signed len t n bytes r
        ≡ write_all buf_size (slice_fields len t n bytes) r
  unfolding write_slice write_all
  write_slice-fields signed len t n bytes r fits h = rw (lt→ltb n (limit signed len) fits) (
      and_then_cong (write buf_size len (to_le_bytes len.size n) r) _ _
        (λ _ r. array_lem t n bytes r h ∙ sym (and_then_done _)))

  read_elements-array :
      (t : Layout) (n : ℕ) (bytes : List ℕ) (r r' : Registers)
      → n < 2 ^ 64
      → read buf_size (array t n) r ≡ (ok bytes, r')
      → read_elements buf_size t n r ≡ (ok (n, bytes), r')
  unfolding read_elements read end_of align_offset
  read_elements-array t n bytes r r' h e =
      let start = align_offset t r.offset in
      elim (end_of-cases buf_size GenericErr.msg_too_long start (n * t.size)) [
        | inl refused ↦
            let failed : read buf_size (array t n) r ≡ (err (generic GenericErr.msg_too_long), r) =
              rw (refused, read) refl in
            absurd cc
        | inr (given, inside) ↦
            let done : read buf_size (array t n) r ≡ (
              ok (read_at r.base start (n * t.size)),
              record r { offset = start + n * t.size },
            ) =
              rw (given, read) refl in
            let same : read_at r.base start (n * t.size) ≡ bytes = cc in
            let after : record r { offset = start + n * t.size } ≡ r' = cc in
            rw (no_overflow n h) (
              rw (no_overflow (n * t.size) (omega arith)) (
                rw (granted_range buf_size small GenericErr.out_of_bounds start (n * t.size) inside)
                  (ap₂ (λ b r. (ok (n, b), r)) same after)))
      ]

  -- Two reads in a row, taken apart.
  pub two_reads :
      (t u : Layout) (a b : List ℕ) (r r' : Registers)
      → read_all buf_size (t ∷ u ∷ []) r ≡ (ok (a ∷ b ∷ []), r')
      → (r₁ : Registers) × (read buf_size t r ≡ (ok a, r₁)) × (read buf_size u r₁ ≡ (ok b, r'))
  unfolding read_all
  two_reads t u a b r r' e =
      let (v, r₁, first, rest) = and_then_ok (read buf_size t r) _ _ _ e in
      let (vs, r₂, tail, whole) = and_then_ok _ _ _ _ rest in
      let (w, r₃, second, last) = and_then_ok (read buf_size u r₁) _ _ _ tail in
      let (first_value, second_value, end) = two_values whole last in
      (
        r₁,
        first ∙ ap (λ v. (ok v, r₁)) first_value,
        second ∙ ap₂ (λ w r. (ok w, r)) second_value end,
      )

  read_counted_positive :
      (signed : Bool) (len t : Layout) (n : ℕ) (r : Registers)
      → is_negative signed len n ≡ false
      → read_counted buf_size signed len t n r ≡ read_elements buf_size t n r
  unfolding read_counted
  read_counted_positive signed len t n r positive = if_false (is_negative signed len n) _ _ positive

  -- A slice that fits in the registers: writing it succeeds, and reading a slice from the same offset
  -- gives its length and its bytes and ends where the writing ended.
  pub read_slice-write_slice :
      (signed : Bool) (len t : Layout) (n : ℕ) (bytes : List ℕ) (r : Registers)
      → IsLayout len
      → IsLayout t
      → n < limit signed len
      → n < 2 ^ 64
      → length bytes ≡ n * t.size
      → IsBounded buf_size r
      → Fits buf_size (slice_fields len t n bytes) r.offset
      → (r' : Registers) × (write_slice buf_size signed len t n bytes r ≡ (ok tt, r'))
        × (read_slice buf_size signed len t (record r' { offset = r.offset }) ≡ (ok (n, bytes), r'))
  unfolding read_slice Fits
  read_slice-write_slice signed len t n bytes r l m countable small_count sized b fits =
      let fields : All IsField (slice_fields len t n bytes) = (
        record { sized = length-to_le_bytes len.size n; aligned = l },
        (
          record {
            sized = sized;
            aligned = record { exponent = m.exponent; is_power = m.is_power; bounded = m.bounded };
          },
          tt,
        ),
      ) in
      let (r', done, back) =
        read_all-write_all buf_size small (slice_fields len t n bytes) r fields b fits in
      let (r₁, first, second) = two_reads len (array t n) _ _ _ _ back in
      let (representable, positive) = below_limit signed len n countable in
      let count = from_le_bytes-to_le_bytes len.size n representable in
      (
        r',
        write_slice-fields signed len t n bytes r countable (omega (arith, fits.1.0)) ∙ done,
        ap (λ o. and_then o (λ bytes r. read_counted buf_size signed len t (from_le_bytes bytes) r))
              first
            ∙ ap (λ k. read_counted buf_size signed len t k r₁) count
            ∙ read_counted_positive signed len t n r₁ positive
            ∙ read_elements-array t n bytes r₁ r' small_count second,
      )
