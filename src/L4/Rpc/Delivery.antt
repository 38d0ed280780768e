-- ===== src/L4/Rpc/Delivery.antt =====
-- A call of the generated code, from the client through the server and back.
use l4rerust.Base.{
  ℕ, ◌+◌, ◌*◌, ◌/◌, ◌^◌, ◌≤◌, ◌<◌, ◌≡◌, refl, ap, sym, ◌∙◌, List, ◌∷◌, length, take, map, take-take,
  arith,
}
use l4rerust.Base.Int.{pos}
use l4rerust.Base.Word.{as_i32, from_le_bytes, to_le_bytes}
use l4rerust.L4.Error.{ok, err}
use l4rerust.L4.Utcb.{Layout, Registers, Outcome, and_then, read}
use l4rerust.L4.Utcb.Words.{words_lem}
use l4rerust.L4.Utcb.{words as words_of}
use l4rerust.L4.Utcb.RoundTrip.{Field, read_all, Written}
use l4rerust.L4.Rpc.{mr_bytes}

-- What the kernel's copy of `n` words does, for registers of the same size.
pub record CopiesWords (transfer : ℕ → List ℕ → List ℕ → List ℕ) : Type 0 where
  pub same_size :
      (n : ℕ) (from to : List ℕ)
      → n * 8 ≤ length from
      → length from ≡ length to
      → length (transfer n from to) ≡ length to
  pub copied :
      (n : ℕ) (from to : List ℕ)
      → n * 8 ≤ length from
      → length from ≡ length to
      → take (n * 8) (transfer n from to) ≡ take (n * 8) from

-- The bytes of an `i32` that is not negative.
pub i32_back : (n : ℕ) → n < 2 ^ 31 → as_i32 (from_le_bytes (to_le_bytes 4 n)) ≡ pos n
unfolding from_le_bytes to_le_bytes
i32_back n h = ground arith

pub and_then-ok :
    {A B : Type 0} (o : Outcome A) (f : A → Registers → Outcome B) (b : B) (r : Registers)
    → and_then o f ≡ (ok b, r)
    → (a : A) × (r1 : Registers) × (o ≡ (ok a, r1)) × (f a r1 ≡ (ok b, r))
and_then-ok (ok a, r1) f b r h = (a, r1, refl, h)
and_then-ok (err e, r1) f b r h = absurd cc

-- The first of several values that are read.
pub read_first :
    (buf_size : ℕ) (t : Layout) (ts : List Layout) (r r' : Registers) (v : List ℕ)
    (vs : List (List ℕ))
    → read_all buf_size (t ∷ ts) r ≡ (ok (v ∷ vs), r')
    → (r1 : Registers) × (read buf_size t r ≡ (ok v, r1)) × (read_all buf_size ts r1 ≡ (ok vs, r'))
unfolding read_all
read_first buf_size t ts r r' v vs h =
    let (a, r1, first, rest) = and_then-ok (read buf_size t r) _ (v ∷ vs) r' h in
    let (b, r2, second, end) = and_then-ok (read_all buf_size ts r1) _ (v ∷ vs) r' rest in
    (r1, cc, cc)

pub in_registers : (data_size : ℕ) → data_size < 64 → mr_bytes data_size ≤ 2 ^ 32
in_registers data_size small = omega arith

module _ (data_size : ℕ) (small : data_size < 64) (transfer : ℕ → List ℕ → List ℕ → List ℕ)
    (copies : CopiesWords transfer) where
  -- What was written from the start on has arrived in the registers of the other side, in so many
  -- words.
  pub record Passed (fs : List Field) (r : Registers) (to : List ℕ) : Type 0 where
    pub few : words_of r ≤ data_size
    pub read_there :
        read_all
          (mr_bytes data_size)
          (map Field.layout fs)
          (record { base = transfer (words_of r) r.base to; offset = 0 })
        ≡ (
          ok (map Field.value fs),
          record { base = transfer (words_of r) r.base to; offset = r.offset },
        )

  pub Passed-Written :
      (fs : List Field) (base to : List ℕ) (r : Registers)
      → length base ≡ mr_bytes data_size
      → length to ≡ mr_bytes data_size
      → Written
          (mr_bytes data_size)
          (in_registers data_size small)
          fs
          (record { base = base; offset = 0 })
          r
      → Passed fs r to
  Passed-Written fs base to r sized sized_to w =
      let e : words_of r ≡ (r.offset + 7) / 8 = words_lem r (omega (arith, w.onward.1)) in
      let few : words_of r ≤ data_size = omega (arith, e, w.onward.1) in
      let below : r.offset ≤ words_of r * 8 = omega (arith, e) in
      let here : length r.base ≡ mr_bytes data_size = w.same_size ∙ sized in
      let m = transfer (words_of r) r.base to in
      record {
        few = few;
        read_there = w.back m (
            sym (take-take r.offset (words_of r * 8) m below)
            ∙ ap (take r.offset) (
                copies.copied (words_of r) r.base to (omega (arith, here, few))
                  (here ∙ sym sized_to))
            ∙ take-take r.offset (words_of r * 8) r.base below);
      }
