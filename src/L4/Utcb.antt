-- ===== src/L4/Utcb.antt =====
-- The cursor over the message and buffer registers of crates/l4/utcb.rs. The registers are a list
-- of bytes, a type is its size and alignment, and a value is its bytes in memory.
pub mod Align
pub mod Bounds
pub mod RoundTrip
pub mod Words
use l4rerust.Base.{
  Bool, true, false, ◌&&◌, ℕ, zero, suc, ◌+◌, ◌-◌, ◌*◌, ◌/◌, ◌%◌, ◌^◌, bit_and, Option, none, some,
  List, [], ◌∷◌, ◌++◌, length, take, drop, ltb, leb, ◌==◌, if◌then◌else◌,
}
use l4rerust.Base.Ranges.{write_at, read_at}
use l4rerust.Base.Word.{from_le_bytes, to_le_bytes}
use l4rerust.L4.Codes.{GenericErr}
use l4rerust.L4.Error.{Error, generic, invalid_encoding, Utf8Error, Result, ok, err}

-- `size_of::<T>()` and `align_of::<T>()`
pub record Layout : Type 0 where
  pub size : ℕ
  pub align : ℕ

abbrev pub usize : Layout
usize = record { size = 8; align = 8 }

abbrev pub byte : Layout
byte = record { size = 1; align = 1 }

-- What is above all values of an integer type of this size, signed or not
abbrev pub limit : Bool → Layout → ℕ
limit signed t = if signed then 256 ^ t.size / 2 else 256 ^ t.size

-- Whether the bytes of `n` are those of a negative number of the type.
abbrev pub is_negative : Bool → Layout → ℕ → Bool
is_negative signed t n = signed && leb (limit true t) n

-- `base` is the memory that the pointer of the source points to.
pub record Registers : Type 0 where
  pub base : List ℕ
  pub offset : ℕ

-- `!x` of a usize
abbrev pub complement : ℕ → ℕ
complement x = 2 ^ 64 - 1 - x

unfoldable pub align_offset : Layout → ℕ → ℕ
align_offset t off = bit_and ((off + t.align - 1) % 2 ^ 64) (complement (t.align - 1))

-- `checked_add` and the test against `BUF_SIZE`: the end of a range of bytes, or the error.
unfoldable pub end_of : ℕ → GenericErr → ℕ → ℕ → Result ℕ
end_of buf_size e start n =
    if leb (2 ^ 64) (start + n)
    then err (generic e)
    else if ltb buf_size (start + n)
    then err (generic e)
    else ok (start + n)

-- A result and the registers after the call; `?` hands on an error with the registers as they are.
abbrev pub Outcome : Type 0 → Type 0
Outcome A = Result A × Registers

abbrev pub and_then : {A B : Type 0} → Outcome A → (A → Registers → Outcome B) → Outcome B
and_then (ok a, r) f = f a r
and_then (err e, r) f = (err e, r)

-- What is done with the end of a range, if it is granted.
abbrev pub granted : {A : Type 0} → Result ℕ → Registers → (ℕ → Outcome A) → Outcome A
granted (ok end) r f = f end
granted (err e) r f = (err e, r)

-- `buf_size` is `U::BUF_SIZE`.
module _ (buf_size : ℕ) where
  unfoldable pub write : Layout → List ℕ → Registers → Outcome (Unit {0})
  write t val r =
      let start = align_offset t r.offset in
      granted (end_of buf_size GenericErr.msg_too_long start t.size) r
        (λ end. (ok tt, record { base = write_at r.base start val; offset = end }))

  unfoldable pub read : Layout → Registers → Outcome (List ℕ)
  read t r =
      let start = align_offset t r.offset in
      granted (end_of buf_size GenericErr.msg_too_long start t.size) r
        (λ end. (ok (read_at r.base start t.size), record r { offset = end }))

  unfoldable pub skip : Layout → Registers → Outcome (Unit {0})
  skip t r =
      granted (end_of buf_size GenericErr.msg_too_long (align_offset t r.offset) t.size) r
        (λ end. (ok tt, record r { offset = end }))

  -- `write_slice` after the length has been written; the elements are given by their bytes.
  unfoldable pub write_elements : Layout → ℕ → List ℕ → Registers → Outcome (Unit {0})
  write_elements t n bytes r =
      let start = align_offset t r.offset in
      if leb (2 ^ 64) (n * t.size)
      then (err (generic GenericErr.msg_too_long), r)
      else granted (end_of buf_size GenericErr.msg_too_long start (n * t.size)) r
          (λ end. (ok tt, record { base = write_at r.base start bytes; offset = end }))

  -- The slice is given by its length and its bytes. A length that the integer type `Len`, signed or
  -- not, cannot hold is an invalid argument.
  unfoldable pub write_slice : Bool → Layout → Layout → ℕ → List ℕ → Registers → Outcome (Unit {0})
  write_slice signed len t n bytes r =
      if ltb n (limit signed len)
      then and_then (write len (to_le_bytes len.size n) r) (λ _ r. write_elements t n bytes r)
      else (err (generic GenericErr.invalid_arg), r)

  unfoldable pub write_str : List ℕ → Registers → Outcome (Unit {0})
  write_str val r = write_slice false usize byte (length val) val r

  -- `read_slice` after the length has been read: the view of `n` elements, as its bytes.
  unfoldable pub read_elements : Layout → ℕ → Registers → Outcome (ℕ × List ℕ)
  read_elements t n r =
      let start = align_offset t r.offset in
      if leb (2 ^ 64) n
      then (err (generic GenericErr.invalid_arg), r)
      else if leb (2 ^ 64) (n * t.size)
      then (err (generic GenericErr.out_of_bounds), r)
      else granted (end_of buf_size GenericErr.out_of_bounds start (n * t.size)) r
          (λ end. (ok (n, read_at r.base start (n * t.size)), record r { offset = end }))

  -- A length that is negative is an invalid argument.
  unfoldable pub read_counted : Bool → Layout → Layout → ℕ → Registers → Outcome (ℕ × List ℕ)
  read_counted signed len t n r =
      if is_negative signed len n
      then (err (generic GenericErr.invalid_arg), r)
      else read_elements t n r

  unfoldable pub read_slice : Bool → Layout → Layout → Registers → Outcome (ℕ × List ℕ)
  read_slice signed len t r =
      and_then (read len r) (λ bytes r. read_counted signed len t (from_le_bytes bytes) r)

-- `slice[..usable]`: the bytes without a 0 at their end.
unfoldable pub without_nul : List ℕ → List ℕ
without_nul [] = []
without_nul (b ∷ []) = if b == 0 then [] else b ∷ []
without_nul (b ∷ c ∷ bs) = b ∷ without_nul (c ∷ bs)

-- `from_utf8` is that of the core library: `none` if the bytes are valid.
module _ (buf_size : ℕ) (from_utf8 : List ℕ → Option Utf8Error) where
  -- The offset is moved only behind valid text.
  unfoldable pub text_of : List ℕ → ℕ → Registers → Outcome (List ℕ)
  text_of bytes end r = elim (from_utf8 bytes) [
    | some e ↦ (err (invalid_encoding (some e)), r)
    | none ↦ (ok bytes, record r { offset = end })
  ]

  -- `read_str` after the length has been read.
  unfoldable pub read_text : ℕ → Registers → Outcome (List ℕ)
  read_text len r =
      granted (end_of buf_size GenericErr.out_of_bounds r.offset len) r
        (λ end. text_of (without_nul (read_at r.base r.offset len)) end r)

  unfoldable pub read_str : Registers → Outcome (List ℕ)
  read_str r = and_then (read buf_size usize r) (λ bytes r. read_text (from_le_bytes bytes) r)

unfoldable pub words : Registers → ℕ
words r = (r.offset / 8 + (if r.offset % 8 == 0 then 0 else 1)) % 2 ^ 32

unfoldable pub reset : Registers → Registers
reset r = record r { offset = 0 }

-- The message registers with the number of items written.
pub record UtcbMr : Type 0 where
  pub regs : Registers
  pub items : ℕ

-- A written item is counted.
abbrev pub count_item : ℕ → Outcome (Unit {0}) → Result (Unit {0}) × UtcbMr
count_item n (ok _, r) = (ok tt, record { regs = r; items = (n + 1) % 2 ^ 32 })
count_item n (err e, r) = (err e, record { regs = r; items = n })

unfoldable pub write_item : ℕ → Layout → List ℕ → UtcbMr → Result (Unit {0}) × UtcbMr
write_item buf_size t val m = count_item m.items (write buf_size t val m.regs)

-- The untyped words; `none` is the panic of the subtraction.
unfoldable pub untyped_words : UtcbMr → Option ℕ
untyped_words m =
    if leb (m.items * 2) (words m.regs) then some (words m.regs - m.items * 2) else none

unfoldable pub reset_mr : UtcbMr → UtcbMr
reset_mr m = record { regs = reset m.regs; items = 0 }

-- `UtcbBr::words`, the number of items in the buffer registers
unfoldable pub br_words : Registers → ℕ
br_words r = words r / 2
