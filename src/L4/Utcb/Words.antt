-- ===== src/L4/Utcb/Words.antt =====
-- The numbers of words and items that a message is sent with.
use native.Mathlib.Nat.{pow-le-pow_right}
use l4rerust.Base.{
  ℕ, ◌+◌, ◌-◌, ◌*◌, ◌/◌, ◌^◌, ◌≤◌, ◌<◌, leb, ◌≡◌, refl, arith, All, true, some, List, [], ◌∷◌,
}
use l4rerust.L4.Codes.{GenericErr}
use l4rerust.L4.Utcb.{
  Layout, Registers, UtcbMr, Outcome, align_offset, write, read, skip, words, write_item,
  count_item, untyped_words, reset_mr, reset,
}
use l4rerust.L4.Utcb.Align.{IsLayout, align_offset-least}
use l4rerust.L4.Utcb.Bounds.{granted_lem}

-- `SndFlexPage`, two words
abbrev pub flex_page : Layout
flex_page = record { size = 16; align = 8 }

flex_page-IsLayout : IsLayout flex_page
flex_page-IsLayout = record { exponent = 3; is_power = refl; bounded = omega arith }

-- Calls on the message registers, an item being a flex page.
pub data MrCall : Type 0 where
  writes_item : List ℕ → MrCall
  writes : Layout → List ℕ → MrCall
  reads : Layout → MrCall
  skips : Layout → MrCall
  resets : MrCall

unfoldable pub IsAligned : MrCall → Type 0
IsAligned (writes t _) = IsLayout t
IsAligned (reads t) = IsLayout t
IsAligned (skips t) = IsLayout t
IsAligned _ = Unit {0}

-- Every item counted has its two words before the offset.
pub record IsCounted (buf_size : ℕ) (m : UtcbMr) : Type 0 where
  pub inside : m.regs.offset ≤ buf_size
  pub room : 16 * m.items ≤ m.regs.offset

-- The machine words up to the offset, the last one begun included.
pub words_lem : (r : Registers) → r.offset < 2 ^ 32 → words r ≡ (r.offset + 7) / 8
unfolding words
words_lem r h = ground arith

module _ (buf_size : ℕ) (small : buf_size < 2 ^ 32) where
  aligned_above : (t : Layout) (off : ℕ) → IsLayout t → off ≤ buf_size → off ≤ align_offset t off
  aligned_above t off l h =
      let fits : 2 ^ l.exponent ≤ 2 ^ 29 = pow-le-pow_right {n = 2} (omega arith) l.bounded in
      (align_offset-least t off l (omega (arith, l.is_power))).0

  -- After a call the offset is further on, in the registers.
  Onward : {A : Type 0} → ℕ → Outcome A → Type 0
  Onward off o = (o.1.offset ≤ buf_size) × (off ≤ o.1.offset)

  write-Onward :
      (t : Layout) (val : List ℕ) (r : Registers)
      → IsLayout t
      → r.offset ≤ buf_size
      → Onward r.offset (write buf_size t val r)
  unfolding write Onward
  write-Onward t val r l h =
      granted_lem (Onward r.offset) buf_size _ _ t.size r _ (h, omega arith)
        (λ fits. (fits, omega (arith, aligned_above t r.offset l h)))

  read-Onward :
      (t : Layout) (r : Registers)
      → IsLayout t
      → r.offset ≤ buf_size
      → Onward r.offset (read buf_size t r)
  unfolding read Onward
  read-Onward t r l h =
      granted_lem (Onward r.offset) buf_size _ _ t.size r _ (h, omega arith)
        (λ fits. (fits, omega (arith, aligned_above t r.offset l h)))

  skip-Onward :
      (t : Layout) (r : Registers)
      → IsLayout t
      → r.offset ≤ buf_size
      → Onward r.offset (skip buf_size t r)
  unfolding skip Onward
  skip-Onward t r l h =
      granted_lem (Onward r.offset) buf_size _ _ t.size r _ (h, omega arith)
        (λ fits. (fits, omega (arith, aligned_above t r.offset l h)))

  -- The state after one call.
  unfoldable pub after_mr : MrCall → UtcbMr → UtcbMr
  after_mr (writes_item val) m = (write_item buf_size flex_page val m).1
  after_mr (writes t val) m = record m { regs = (write buf_size t val m.regs).1 }
  after_mr (reads t) m = record m { regs = (read buf_size t m.regs).1 }
  after_mr (skips t) m = record m { regs = (skip buf_size t m.regs).1 }
  after_mr resets m = reset_mr m

  unfoldable pub after_mr_all : List MrCall → UtcbMr → UtcbMr
  after_mr_all [] m = m
  after_mr_all (c ∷ cs) m = after_mr_all cs (after_mr c m)

  write_item-IsCounted :
      (val : List ℕ) (m : UtcbMr)
      → IsCounted buf_size m
      → IsCounted buf_size (write_item buf_size flex_page val m).1
  unfolding write_item write
  write_item-IsCounted val m c =
      let low = aligned_above flex_page m.regs.offset flex_page-IsLayout c.inside in
      granted_lem (λ o. IsCounted buf_size (count_item m.items o).1) buf_size
        GenericErr.msg_too_long (align_offset flex_page m.regs.offset) 16 m.regs _ c
        (λ fits. record { inside = fits; room = omega (arith, low, c.room) })

  after_mr-IsCounted :
      (c : MrCall) (m : UtcbMr)
      → IsAligned c
      → IsCounted buf_size m
      → IsCounted buf_size (after_mr c m)
  unfolding after_mr IsAligned Onward reset_mr reset
  after_mr-IsCounted (writes_item val) m a c = write_item-IsCounted val m c
  after_mr-IsCounted (writes t val) m a c =
      let (inside, on) = write-Onward t val m.regs a c.inside in
      record { inside = inside; room = omega (arith, c.room) }
  after_mr-IsCounted (reads t) m a c =
      let (inside, on) = read-Onward t m.regs a c.inside in
      record { inside = inside; room = omega (arith, c.room) }
  after_mr-IsCounted (skips t) m a c =
      let (inside, on) = skip-Onward t m.regs a c.inside in
      record { inside = inside; room = omega (arith, c.room) }
  after_mr-IsCounted resets m a c = record { inside = omega arith; room = omega arith }

  after_mr_all-IsCounted :
      (cs : List MrCall) (m : UtcbMr)
      → All IsAligned cs
      → IsCounted buf_size m
      → IsCounted buf_size (after_mr_all cs m)
  unfolding after_mr_all
  after_mr_all-IsCounted [] m a c = c
  after_mr_all-IsCounted (call ∷ calls) m (a, rest) c =
      after_mr_all-IsCounted calls (after_mr call m) rest (after_mr-IsCounted call m a c)

  counted_words :
      (m : UtcbMr)
      → IsCounted buf_size m
      → (n : ℕ) × (untyped_words m ≡ some n) × (n + 2 * m.items ≡ (m.regs.offset + 7) / 8)
  unfolding untyped_words
  counted_words m c =
      let e = words_lem m.regs (omega (arith, c.inside)) in
      let enough : leb (m.items * 2) (words m.regs) ≡ true = ground (arith, e, c.room) in
      (words m.regs - m.items * 2, rw (enough, untyped_words) refl, omega (arith, e, c.room))

  -- After any calls on message registers that were just set up, the subtraction of the number of
  -- untyped words does not panic, and the untyped words with two words for each item are the machine
  -- words up to the offset, the last one begun included.
  untyped_words-after_mr_all :
      (calls : List MrCall) (base : List ℕ)
      → All IsAligned calls
      → let m =
          after_mr_all calls (record { regs = record { base = base; offset = 0 }; items = 0 }) in
        (n : ℕ) × (untyped_words m ≡ some n) × (n + 2 * m.items ≡ (m.regs.offset + 7) / 8)
  untyped_words-after_mr_all calls base aligned =
      counted_words _ (
        after_mr_all-IsCounted calls _ aligned
          (record { inside = omega arith; room = omega arith }))
