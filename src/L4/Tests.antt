-- ===== src/L4/Tests.antt =====
-- Runs of the l4 framework on concrete values.
mod Loops
mod Calls
use l4rerust.Base.{
  Bool, false, if◌then◌else◌, ℕ, ◌+◌, ◌*◌, ◌/◌, ◌%◌, ◌^◌, ◌≤◌, ◌≡◌, ◌≢◌, refl, ap, ap₂, arith,
  Option, none, some, is_some, true, inl, inr, List, [], ◌∷◌, length, replicate, bit_and, bit_or,
  map,
}
use l4rerust.Base.Int.{pos, negsuc}
use l4rerust.L4.Error.{Result, ok, err, Error, Utf8Error, invalid_cap}
use l4rerust.L4.Utcb.{
  Layout, usize, byte, Registers, align_offset, write, read, write_slice, read_slice, untyped_words,
  words, write_item, end_of,
}
use l4rerust.L4.Utcb.Align.{IsLayout, align_offset-least}
use l4rerust.L4.Utcb.Bounds.{
  IsBounded, Call, writes, reads, skips, writes_slice, reads_slice, writes_str, reads_str, resets,
  IsSized, after_all, after_all-IsBounded,
}
use l4rerust.L4.Utcb.RoundTrip.{Field, IsField, Fits, write_all, read_all, read_all-write_all}
use l4rerust.L4.Utcb.RoundTrip.Slices.{read_slice-write_slice}
use l4rerust.L4.Utcb.Words.{MrCall, writes_item, after_mr, after_mr_all, IsAligned}
use l4rerust.L4.MsgTag.{MsgTag, new, label, words as tag_words, items, flags, set_label}
use l4rerust.L4.MsgTag.Fields.{FitsLabel, fields-new}

abbrev u32 : Layout
u32 = record { size = 4; align = 4 }

u32-IsLayout : IsLayout u32
u32-IsLayout = record { exponent = 2; is_power = refl; bounded = omega arith }

byte-IsLayout : IsLayout byte
byte-IsLayout = record { exponent = 0; is_power = refl; bounded = omega arith }

-- Registers of 32 bytes.
abbrev fresh : Registers
fresh = record { base = replicate 32 0; offset = 0 }

fresh-IsBounded : IsBounded 32 fresh
fresh-IsBounded = record { sized = refl; inside = omega arith }

-- A byte and a u32, which is aligned to the offset 4.
abbrev byte_and_u32 : List Field
byte_and_u32 =
    record { layout = byte; value = 7 ∷ [] }
    ∷ record { layout = u32; value = 1 ∷ 2 ∷ 3 ∷ 4 ∷ [] }
    ∷ []

align_offset-least_example :
    (5 ≤ align_offset u32 5)
    × (align_offset u32 5 % 4 ≡ 0)
    × ((m : ℕ) → 5 ≤ m → m % 4 ≡ 0 → align_offset u32 5 ≤ m)
align_offset-least_example = align_offset-least u32 5 u32-IsLayout (omega arith)

read_all-write_all_example :
    (r' : Registers) × (write_all 32 byte_and_u32 fresh ≡ (ok tt, r'))
    × (read_all 32 (byte ∷ u32 ∷ []) (record r' { offset = 0 })
        ≡ (ok ((7 ∷ []) ∷ (1 ∷ 2 ∷ 3 ∷ 4 ∷ []) ∷ []), r'))
unfolding Fits align_offset
read_all-write_all_example =
    read_all-write_all 32 (omega arith) byte_and_u32 fresh
      (
        record { sized = refl; aligned = byte-IsLayout },
        (record { sized = refl; aligned = u32-IsLayout }, tt),
      )
      fresh-IsBounded (omega arith, (omega arith, tt))

read_slice-write_slice_example :
    (r' : Registers) × (write_slice 32 true u32 byte 3 (5 ∷ 6 ∷ 7 ∷ []) fresh ≡ (ok tt, r'))
    × (read_slice 32 true u32 byte (record r' { offset = 0 }) ≡ (ok (3, 5 ∷ 6 ∷ 7 ∷ []), r'))
unfolding Fits align_offset
read_slice-write_slice_example =
    read_slice-write_slice 32 (omega arith) true u32 byte 3 (5 ∷ 6 ∷ 7 ∷ []) fresh u32-IsLayout
      byte-IsLayout (omega arith) (omega arith) refl fresh-IsBounded
      (omega arith, (omega arith, tt))

-- Writes until the registers are full, a reset and reads.
abbrev calls : List Call
calls =
    writes usize (replicate 8 1)
    ∷ writes_str (104 ∷ 105 ∷ [])
    ∷ writes_slice false u32 usize 2 (replicate 16 3)
    ∷ resets
    ∷ skips usize
    ∷ reads_str
    ∷ reads usize
    ∷ reads_slice true u32 byte
    ∷ []

after_all-IsBounded_example : IsBounded 32 (after_all 32 (λ bytes. none) calls fresh)
unfolding IsSized
after_all-IsBounded_example =
    after_all-IsBounded 32 (λ bytes. none) calls fresh
      (refl, (tt, (refl, (tt, (tt, (tt, (tt, (tt, tt)))))))) fresh-IsBounded
