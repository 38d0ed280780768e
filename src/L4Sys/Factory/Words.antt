-- ===== src/L4Sys/Factory/Words.antt =====
-- The words that the functions of crates/l4-sys/factory.rs write: the tag and the header of an
-- argument.
use l4rerust.Base.{ℕ, ◌+◌, ◌-◌, ◌*◌, ◌/◌, ◌%◌, ◌^◌, ◌<◌, bit_and, bit_or, ◌≡◌, ap, ap₂, ◌∙◌, arith}
use l4rerust.Base.Bits.{bit_and_shifted, bit_and_mask, bit_or_low, bit_or_high}
use l4rerust.L4.MsgTag.{MsgTag, words}
use l4rerust.L4.MsgTag.Fields.{words_lem}
use l4rerust.L4Sys.Factory.{set_words}

-- The number of words is set, and the bits above it stay.
raw-set_words :
    (w : ℕ) (t : MsgTag) → (set_words w t).raw ≡ t.raw / 2 ^ 6 % 2 ^ 58 * 2 ^ 6 + w % 2 ^ 6
unfolding set_words
raw-set_words w t =
    let split : t.raw ≡ t.raw / 2 ^ 6 * 2 ^ 6 + t.raw % 2 ^ 6 = omega arith in
    let high : bit_and t.raw (2 ^ 64 - 1 - 0x3f) ≡ t.raw / 2 ^ 6 % 2 ^ 58 * 2 ^ 6 =
      ap (λ x. bit_and x (2 ^ 64 - 1 - 0x3f)) split
      ∙ bit_and_shifted 6 (t.raw / 2 ^ 6) (t.raw % 2 ^ 6) (2 ^ 58 - 1) (omega arith)
      ∙ ap (λ x. x * 2 ^ 6) (bit_and_mask 58 (t.raw / 2 ^ 6)) in
    ap₂ bit_or high (bit_and_mask 6 w)
    ∙ bit_or_low 6 (t.raw / 2 ^ 6 % 2 ^ 58) (w % 2 ^ 6) (omega arith)

pub words-set_words : (w : ℕ) (t : MsgTag) → w < 64 → words (set_words w t) ≡ w
words-set_words w t h = omega (arith, words_lem (set_words w t), raw-set_words w t)

pub rest-set_words :
    (w : ℕ) (t : MsgTag) → t.raw < 2 ^ 64 → (set_words w t).raw / 2 ^ 6 ≡ t.raw / 2 ^ 6
rest-set_words w t h = omega (arith, raw-set_words w t)

-- The type in the low half-word, and the number of bytes above it.
pub header : (ty len : ℕ) → ty < 2 ^ 16 → bit_or ty (len * 2 ^ 16) ≡ len * 2 ^ 16 + ty
header ty len h = bit_or_high 16 len ty h
