-- ===== src/L4/MsgTag/Fields.antt =====
-- The fields of a message tag do not overlap.
use l4rerust.Base.{ℕ, ◌+◌, ◌*◌, ◌/◌, ◌%◌, ◌^◌, ◌<◌, bit_and, bit_or, ◌≡◌, ap, ap₂, arith, ◌∙◌}
use l4rerust.Base.Int.{ℤ, pos, negsuc}
use l4rerust.Base.Word.{as_u64}
use l4rerust.Base.Bits.{bit_and_mask, bit_and_shifted, bit_or_low, bit_or_high, bit_or_shifted}
use l4rerust.L4.MsgTag.{MsgTag, high_part, shifted, new, label, words, items, flags, set_label}

-- The flags are bits 12 to 15.
and_flags : (f : ℕ) → bit_and f 0xf000 ≡ f / 2 ^ 12 % 16 * 2 ^ 12
and_flags f =
    let e : f ≡ f / 2 ^ 12 * 2 ^ 12 + f % 2 ^ 12 = omega arith in
    ap (λ x. bit_and x 0xf000) e
    ∙ bit_and_shifted 12 (f / 2 ^ 12) (f % 2 ^ 12) 15 (omega arith)
    ∙ ap (λ x. x * 2 ^ 12) (bit_and_mask 4 (f / 2 ^ 12))

-- Fields of 6, 6, 4 and 48 bits are joined by `|`.
join_fields :
    (h w i f : ℕ)
    → w < 64
    → i < 64
    → f < 16
    → bit_or (bit_or (bit_or (h * 2 ^ 16) w) (i * 2 ^ 6)) (f * 2 ^ 12)
      ≡ h * 2 ^ 16 + w + i * 64 + f * 4096
join_fields h w i f hw hi hf =
    ap (λ x. bit_or (bit_or x (i * 2 ^ 6)) (f * 2 ^ 12)) (bit_or_low 16 h w (omega arith))
    ∙ ap (λ x. bit_or (bit_or x (i * 2 ^ 6)) (f * 2 ^ 12)) {x = h * 2 ^ 16 + w}
        {y = h * 2 ^ 10 * 2 ^ 6 + w} (omega arith)
    ∙ ap (λ x. bit_or x (f * 2 ^ 12)) (bit_or_shifted 6 (h * 2 ^ 10) w i hw)
    ∙ ap (λ x. bit_or (x * 2 ^ 6 + w) (f * 2 ^ 12)) (bit_or_low 10 h i (omega arith))
    ∙ ap (λ x. bit_or x (f * 2 ^ 12)) {x = (h * 2 ^ 10 + i) * 2 ^ 6 + w}
        {y = h * 2 ^ 4 * 2 ^ 12 + (i * 64 + w)} (omega arith)
    ∙ bit_or_shifted 12 (h * 2 ^ 4) (i * 64 + w) f (omega arith)
    ∙ ap (λ x. x * 2 ^ 12 + (i * 64 + w)) (bit_or_low 4 h f hf)
    ∙ omega arith

pub high-part : (l : ℤ) → high_part l ≡ as_u64 l % 2 ^ 48 * 2 ^ 16
high-part l = omega arith

-- A tag is the sum of its fields.
pub raw-new :
    (l : ℤ) (w i f : ℕ)
    → (new l w i f).raw ≡ as_u64 l % 2 ^ 48 * 2 ^ 16 + w % 64 + i % 64 * 64 + f / 2 ^ 12 % 16 * 4096
unfolding new
raw-new l w i f = ground (
  arith,
  bit_and_mask 6 w,
  bit_and_mask 6 i,
  and_flags f,
  join_fields (as_u64 l % 2 ^ 48) (w % 64) (i % 64) (f / 2 ^ 12 % 16) (omega arith) (omega arith)
      (omega arith),
)

-- A label of 48 bits, sign included.
unfoldable pub FitsLabel : ℤ → Type 0
FitsLabel (pos n) = n < 2 ^ 47
FitsLabel (negsuc n) = n < 2 ^ 47

shifted_back :
    (l : ℤ) (rest : ℕ)
    → FitsLabel l
    → rest < 2 ^ 16
    → shifted (as_u64 l % 2 ^ 48 * 2 ^ 16 + rest) ≡ l
unfolding FitsLabel
shifted_back (pos n) rest fits h = ground arith
shifted_back (negsuc n) rest fits h = ground arith

-- The fields as digits of the raw value.
pub words_lem : (t : MsgTag) → words t ≡ t.raw % 64
unfolding words
words_lem t = bit_and_mask 6 t.raw

items_lem : (t : MsgTag) → items t ≡ t.raw / 64 % 64
unfolding items
items_lem t = bit_and_mask 6 (t.raw / 64)

flags_lem : (t : MsgTag) → flags t ≡ t.raw / 4096 % 16 * 4096
unfolding flags
flags_lem t = and_flags (t.raw % 2 ^ 32) ∙ omega arith

-- `t.raw & 0x0ffff | l << 16`
raw-set_label :
    (l : ℤ) (t : MsgTag) → (set_label l t).raw ≡ as_u64 l % 2 ^ 48 * 2 ^ 16 + t.raw % 2 ^ 16
unfolding set_label
raw-set_label l t =
    ap₂ bit_or (bit_and_mask 16 t.raw) (high-part l)
    ∙ bit_or_high 16 (as_u64 l % 2 ^ 48) (t.raw % 2 ^ 16) (omega arith)

-- The accessors give what `new` was called with: the label if it has 48 bits, the numbers of words
-- and items if they are below 64, and of the flags the bits of the mask 0xf000.
pub fields-new :
    (l : ℤ) (w i f : ℕ)
    → FitsLabel l
    → w < 64
    → i < 64
    → (label (new l w i f) ≡ l)
      × (words (new l w i f) ≡ w)
      × (items (new l w i f) ≡ i)
      × (flags (new l w i f) ≡ bit_and f 0xf000)
unfolding label
fields-new l w i f fits hw hi =
    let e = raw-new l w i f in
    (
      ap shifted e
          ∙ ap shifted
              {y = as_u64 l % 2 ^ 48 * 2 ^ 16 + (w % 64 + i % 64 * 64 + f / 2 ^ 12 % 16 * 4096)}
              (omega arith)
          ∙ shifted_back l _ fits (omega arith),
      omega (arith, words_lem (new l w i f), e),
      omega (arith, items_lem (new l w i f), e),
      omega (arith, flags_lem (new l w i f), and_flags f, e),
    )

-- Setting the label of a tag leaves its words, items and flags, and reading it gives what was set.
pub fields-set_label :
    (l : ℤ) (t : MsgTag)
    → FitsLabel l
    → (label (set_label l t) ≡ l)
      × (words (set_label l t) ≡ words t)
      × (items (set_label l t) ≡ items t)
      × (flags (set_label l t) ≡ flags t)
unfolding label
fields-set_label l t fits =
    let e = raw-set_label l t in
    (
      ap shifted e ∙ shifted_back l _ fits (omega arith),
      omega (arith, words_lem (set_label l t), words_lem t, e),
      omega (arith, items_lem (set_label l t), items_lem t, e),
      omega (arith, flags_lem (set_label l t), flags_lem t, e),
    )
