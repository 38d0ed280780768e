-- ===== src/L4/MsgTag.antt =====
-- The message tag of crates/l4/ipc/mod.rs, and `msgtag` of crates/l4-sys/ipc_basic.rs that makes
-- one. The raw value is given by its bits, as a number below 2 ^ 64.
pub mod Fields
pub mod Errors
use l4rerust.Base.{
  ℕ, ◌+◌, ◌-◌, ◌*◌, ◌/◌, ◌%◌, ◌^◌, ◌≤◌, ◌<◌, bit_and, bit_or, Bool, Option, none, some, ltb, ◌==◌,
  not, if◌then◌else◌, ◌≡◌,
}
use l4rerust.Base.Int.{ℤ, pos, negsuc, is_neg}
use l4rerust.Base.Word.{as_u64}
use l4rerust.L4.Codes.{Consts}
use l4rerust.L4.Error.{Error, Result, ok, err, from_ipc, from_tag_u}

pub record MsgTag : Type 0 where
  pub raw : ℕ

-- `raw >> 16` of a signed word, rounding down.
abbrev shifted : ℕ → ℤ
shifted w = if ltb w (2 ^ 63) then pos (w / 2 ^ 16) else negsuc ((2 ^ 64 - 1 - w) / 2 ^ 16)

-- `(l << 16)` as a word
abbrev high_part : ℤ → ℕ
high_part l = as_u64 l * 2 ^ 16 % 2 ^ 64

-- The result of `msgtag(label, words, items, flags)`.
unfoldable pub new : ℤ → ℕ → ℕ → ℕ → MsgTag
new label words items flags = record {
  raw =
      bit_or
        (bit_or (bit_or (high_part label) (bit_and words 0x3f))
          (bit_and items 0x3f * 2 ^ 6 % 2 ^ 32))
        (bit_and flags 0xf000);
}

unfoldable pub label : MsgTag → ℤ
label t = shifted t.raw

unfoldable pub words : MsgTag → ℕ
words t = bit_and t.raw 0x3f

unfoldable pub items : MsgTag → ℕ
items t = bit_and (t.raw / 2 ^ 6) 0x3f

unfoldable pub flags : MsgTag → ℕ
flags t = bit_and (t.raw % 2 ^ 32) 0xf000

unfoldable pub set_label : ℤ → MsgTag → MsgTag
set_label l t = record { raw = bit_or (bit_and t.raw 0x0ffff) (high_part l) }

-- The constant L4_MSGTAG_ERROR of the C headers is the parameter `error_flag`.
unfoldable pub has_error : ℕ → MsgTag → Bool
has_error error_flag t = not (bit_and t.raw error_flag == 0)

-- `none` is the panic of `Error::from_ipc`; `tcr` is what the foreign `l4_ipc_error` returns.
unfoldable pub result : Consts → ℕ → ℕ → MsgTag → Option (Result MsgTag)
result k error_flag tcr t =
    if has_error error_flag t
    then some (err (from_tag_u k tcr))
    else if is_neg (label t)
    then elim (from_ipc k (label t)) [ none ↦ none | some e ↦ some (err e) ]
    else some (ok t)
