-- ===== src/L4/Utcb/RoundTrip.antt =====
-- What is written to the registers is read back from them.
pub mod Slices
pub mod Strings
use l4rerust.Base.{
  ℕ, zero, suc, ◌+◌, ◌-◌, ◌*◌, ◌^◌, ◌≤◌, ◌<◌, min, ltb, leb, if◌then◌else◌, ◌≡◌, refl, ap, ap₂, sym,
  ◌∙◌, arith, All, List, [], ◌∷◌, ◌++◌, map, length, take, drop, take-append, drop-append,
  take-append_le, take-take, take-drop, length-append, length-take, append_assoc,
}
use native.Mathlib.Nat.{pow-le-pow_right}
use l4rerust.Base.Ranges.{write_at, read_at, length-write_at, read_at-write_at, take-write_at}
use l4rerust.L4.Codes.{GenericErr}
use l4rerust.L4.Error.{Result, ok, err}
use l4rerust.L4.Utcb.{
  Layout, Registers, align_offset, end_of, write, read, Outcome, and_then, granted,
}
use l4rerust.L4.Utcb.Align.{IsLayout, align_offset-least}
use l4rerust.L4.Utcb.Bounds.{IsBounded}

-- A value of a type.
pub record Field : Type 0 where
  pub layout : Layout
  pub value : List ℕ

pub record IsField (f : Field) : Type 0 where
  pub sized : length f.value ≡ f.layout.size
  pub aligned : IsLayout f.layout

-- Values written one after the other, and values of the given types read one after the other, as the
-- generated code does for the arguments of a call.
unfoldable pub write_all : ℕ → List Field → Registers → Outcome (Unit {0})
write_all buf_size [] r = (ok tt, r)
write_all buf_size (f ∷ fs) r =
    and_then (write buf_size f.layout f.value r) (λ _ r. write_all buf_size fs r)

unfoldable pub read_all : ℕ → List Layout → Registers → Outcome (List (List ℕ))
read_all buf_size [] r = (ok [], r)
read_all buf_size (t ∷ ts) r =
    and_then (read buf_size t r)
      (λ val r. and_then (read_all buf_size ts r) (λ vals r. (ok (val ∷ vals), r)))

-- The ranges of the values, from an offset on, lie in the registers.
unfoldable pub Fits : ℕ → List Field → ℕ → Type 0
Fits buf_size [] off = Unit {0}
Fits buf_size (f ∷ fs) off =
    let end = align_offset f.layout off + f.layout.size in (end ≤ buf_size) × Fits buf_size fs end

module _ (buf_size : ℕ) (small : buf_size ≤ 2 ^ 32) where
  pub granted_range :
      (e : GenericErr) (start n : ℕ)
      → start + n ≤ buf_size
      → end_of buf_size e start n ≡ ok (start + n)
  unfolding end_of
  granted_range e start n h = ground arith

  -- A value that fits is written to its range.
  pub write-fits :
      (t : Layout) (val : List ℕ) (r : Registers)
      → align_offset t r.offset + t.size ≤ buf_size
      → write buf_size t val r ≡ (
        ok tt,
        record {
          base = write_at r.base (align_offset t r.offset) val;
          offset = align_offset t r.offset + t.size;
        },
      )
  unfolding write
  write-fits t val r h =
      rw (granted_range GenericErr.msg_too_long (align_offset t r.offset) t.size h) refl

  -- And its range is what a read at the same offset gives.
  pub read-fits :
      (t : Layout) (r : Registers)
      → align_offset t r.offset + t.size ≤ buf_size
      → read buf_size t r ≡ (
        ok (read_at r.base (align_offset t r.offset) t.size),
        record r { offset = align_offset t r.offset + t.size },
      )
  unfolding read
  read-fits t r h =
      rw (granted_range GenericErr.msg_too_long (align_offset t r.offset) t.size h) refl

  above : (t : Layout) (off : ℕ) → IsLayout t → off ≤ buf_size → off ≤ align_offset t off
  above t off l h =
      let fits : 2 ^ l.exponent ≤ 2 ^ 29 = pow-le-pow_right {n = 2} (omega arith) l.bounded in
      (align_offset-least t off l (omega (arith, l.is_power))).0

  -- What `write_all` leaves at the end, and what is then read, from where it began, from any memory
  -- with the same bytes up to the end.
  pub record Written (fs : List Field) (r r' : Registers) : Type 0 where
    pub done : write_all buf_size fs r ≡ (ok tt, r')
    pub same_size : length r'.base ≡ length r.base
    pub same_front : take r.offset r'.base ≡ take r.offset r.base
    pub onward : (r.offset ≤ r'.offset) × (r'.offset ≤ buf_size)
    pub back :
        (m : List ℕ)
        → take r'.offset m ≡ take r'.offset r'.base
        → read_all buf_size (map Field.layout fs) (record { base = m; offset = r.offset })
          ≡ (ok (map Field.value fs), record { base = m; offset = r'.offset })

  -- A value is read from any memory that has the front that writing it left.
  read-written :
      (m m' : List ℕ) (start n : ℕ) (val : List ℕ)
      → length val ≡ n
      → start + n ≤ length m
      → take (start + n) m' ≡ take (start + n) (write_at m start val)
      → read_at m' start n ≡ val
  read-written m m' start n val sized inside same =
      take-drop start n m'
      ∙ ap (drop start) same
      ∙ sym (take-drop start n (write_at m start val))
      ∙ ap (read_at (write_at m start val) start) (sym sized)
      ∙ read_at-write_at m val start (omega arith)

  pub written_lem :
      (fs : List Field) (r : Registers)
      → All IsField fs
      → IsBounded buf_size r
      → Fits buf_size fs r.offset
      → (r' : Registers) × Written fs r r'
  unfolding write_all read_all Fits
  written_lem [] r fields b fits = (
    r,
    record {
      done = refl;
      same_size = refl;
      same_front = refl;
      onward = (omega arith, b.inside);
      back = λ m e. refl;
    },
  )
  written_lem (f ∷ fs) r (field, fields) b (inside, fits) =
      let t = f.layout in
      let start = align_offset t r.offset in
      let low = above t r.offset field.aligned b.inside in
      let r1 : Registers = record {
        base = write_at r.base start f.value;
        offset = start + t.size;
      } in
      let sized : length r1.base ≡ length r.base =
        length-write_at r.base f.value start (omega (arith, b.sized, field.sized)) in
      let b1 : IsBounded buf_size r1 = record { sized = sized ∙ b.sized; inside = inside } in
      let (r', w) = written_lem fs r1 fields b1 fits in
      let value : (m : List ℕ)
          → take r'.offset m ≡ take r'.offset r'.base
          → read_at m start t.size ≡ f.value =
        λ m e. read-written r.base m start t.size f.value field.sized (omega (arith, b.sized)) (
          sym (take-take r1.offset r'.offset m w.onward.0)
          ∙ ap (take r1.offset) e
          ∙ take-take r1.offset r'.offset r'.base w.onward.0
          ∙ w.same_front) in
      (
        r',
        record {
          done =
              ap (λ o. and_then o (λ _ r. write_all buf_size fs r)) (write-fits t f.value r inside)
              ∙ w.done;
          same_size = w.same_size ∙ sized;
          same_front =
              sym (take-take r.offset r1.offset r'.base (omega arith))
              ∙ ap (take r.offset) w.same_front
              ∙ take-take r.offset r1.offset r1.base (omega arith)
              ∙ take-write_at r.base f.value start r.offset low (omega (arith, b.sized));
          onward = (omega (arith, w.onward.0), w.onward.1);
          back = λ m e.
              ap
                (λ o. and_then o (λ val r.
                  and_then (read_all buf_size (map Field.layout fs) r)
                    (λ vals r. (ok (val ∷ vals), r))))
                (read-fits t (record { base = m; offset = r.offset }) inside)
              ∙ ap (λ o. and_then o (λ vals r. (ok (read_at m start t.size ∷ vals), r)))
                  (w.back m e)
              ∙ ap (λ val. (ok (val ∷ map Field.value fs), record { base = m; offset = r'.offset }))
                  (value m e);
        },
      )

  -- Values that fit in the registers, of lawful types and sizes: writing them one after the other
  -- succeeds, and reading their types one after the other from the same offset gives them back and
  -- ends where the writing ended.
  pub read_all-write_all :
      (fs : List Field) (r : Registers)
      → All IsField fs
      → IsBounded buf_size r
      → Fits buf_size fs r.offset
      → (r' : Registers) × (write_all buf_size fs r ≡ (ok tt, r'))
        × (read_all buf_size (map Field.layout fs) (record r' { offset = r.offset })
            ≡ (ok (map Field.value fs), r'))
  read_all-write_all fs r fields b fits =
      let (r', w) = written_lem fs r fields b fits in (r', w.done, w.back r'.base refl)
