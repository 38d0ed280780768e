-- ===== src/L4Sys/Factory.antt =====
-- The arguments of a factory call in crates/l4-sys/factory.rs. The message registers are bytes, the
-- lowest of a word first; `data_size` is `L4_UTCB_GENERIC_DATA_SIZE`, the length of the array of
-- message registers, and what lies behind the array follows in the list. `none` is the panic of an
-- index out of it.
pub mod Words
pub mod Puts
pub mod Adding
pub mod Arguments
pub mod Create
mod Tests
use l4rerust.Base.{
  ℕ, ◌+◌, ◌-◌, ◌*◌, ◌/◌, ◌%◌, ◌^◌, Bool, true, false, Option, none, some, List, [], ◌∷◌, ◌++◌,
  length, ltb, if◌then◌else◌, bit_and, bit_or,
}
use l4rerust.Base.Ranges.{write_at}
use l4rerust.Base.Word.{to_le_bytes}
use l4rerust.L4.MsgTag.{MsgTag, words}

-- The constants of the enum `L4_varg_type` of the C headers.
pub record VargTypes : Type 0 where
  pub nil : ℕ
  pub umword : ℕ
  pub mword : ℕ
  pub string : ℕ
  pub fpage : ℕ

-- A message tag and the memory from the message registers on.
abbrev pub Message : Type 0
Message = MsgTag × List ℕ

-- `tag.raw = (tag.raw & !0x3f) | (w & 0x3f)`
unfoldable pub set_words : ℕ → MsgTag → MsgTag
set_words w t = record { raw = bit_or (bit_and t.raw (2 ^ 64 - 1 - 0x3f)) (bit_and w 0x3f) }

-- The words that so many bytes take.
abbrev pub word_count : ℕ → ℕ
word_count len = (len + 8 - 1) / 8

module _ (data_size : ℕ) where
  -- `mr!(v[i] = x)`
  unfoldable pub set_word : ℕ → ℕ → List ℕ → Option (List ℕ)
  set_word i x m = if ltb i data_size then some (write_at m (i * 8) (to_le_bytes 8 x)) else none

  -- Bytes from word `i` on, whose address is taken by an index.
  unfoldable pub copy_bytes : ℕ → List ℕ → List ℕ → Option (List ℕ)
  copy_bytes i bytes m = if ltb i data_size then some (write_at m (i * 8) bytes) else none

  abbrev pub and_then : Option (List ℕ) → (List ℕ → Option (List ℕ)) → Option (List ℕ)
  and_then none f = none
  and_then (some m) f = f m

  abbrev pub done : ℕ → MsgTag → Option (List ℕ) → Option (Bool × Message)
  done w t none = none
  done w t (some m) = some (true, (set_words w t, m))

  -- The body that `add_int_u`, `add_uint_u` and `add_fpage_u` share.
  unfoldable pub add_word : ℕ → ℕ → Message → Option (Bool × Message)
  add_word ty d (t, m) =
      let w = words t in
      if ltb data_size (w + 2)
      then some (false, (t, m))
      else done (w + 2) t
          (and_then (set_word w (bit_or ty (8 * 2 ^ 16)) m) (λ m. set_word (w + 1) d m))

  abbrev pub add_int : VargTypes → ℕ → Message → Option (Bool × Message)
  add_int types d s = add_word types.mword d s

  abbrev pub add_uint : VargTypes → ℕ → Message → Option (Bool × Message)
  add_uint types d s = add_word types.umword d s

  abbrev pub add_fpage : VargTypes → ℕ → Message → Option (Bool × Message)
  add_fpage types raw s = add_word types.fpage raw s

  unfoldable pub add_nil : VargTypes → Message → Option (Bool × Message)
  add_nil types (t, m) =
      let w = words t in
      if ltb data_size (w + 1)
      then some (false, (t, m))
      else done (w + 1) t (set_word w types.nil m)

  -- The body that `add_cstr_u` and `add_str_u` share, which copy the text with a 0 behind it.
  unfoldable pub add_text : VargTypes → List ℕ → Message → Option (Bool × Message)
  add_text types text (t, m) =
      let w = words t in
      let len = length text in
      let next = w + 1 + word_count len in
      if ltb data_size next
      then some (false, (t, m))
      else done next t (
          and_then (set_word w (bit_or types.string (len * 2 ^ 16 % 2 ^ 64)) m)
            (λ m. copy_bytes (w + 1) (text ++ 0 ∷ []) m))
