-- ===== src/L4/Serialise/Optional.antt =====
-- Options through the registers.
use l4rerust.Base.{
  ℕ, ◌^◌, ◌≤◌, ◌≡◌, refl, ap, sym, ◌∙◌, arith, All, Option, none, some, is_some, true, List, [],
  ◌∷◌, length,
}
use l4rerust.L4.Error.{ok}
use l4rerust.L4.Utcb.{Layout, Registers, Outcome, and_then, write, read}
use l4rerust.L4.Utcb.Align.{IsLayout}
use l4rerust.L4.Utcb.Bounds.{IsBounded}
use l4rerust.L4.Utcb.RoundTrip.{Field, IsField, Fits, write_all, read_all-write_all}
use l4rerust.L4.Utcb.RoundTrip.Slices.{two_reads, and_then_ok, and_then_cong, and_then_done}
use l4rerust.L4.Serialise.{bool, write_option, read_option}

bool-IsLayout : IsLayout bool
bool-IsLayout = record { exponent = 0; is_power = refl; bounded = omega arith }

abbrev pub some_fields : Layout → List ℕ → List Field
some_fields t val =
    record { layout = t; value = val } ∷ record { layout = bool; value = 1 ∷ [] } ∷ []

module _ (buf_size : ℕ) (small : buf_size ≤ 2 ^ 32) where
  -- A present value that fits comes back as itself.
  pub read_option-write_option :
      (t : Layout) (val : List ℕ) (r : Registers)
      → IsLayout t
      → length val ≡ t.size
      → IsBounded buf_size r
      → Fits buf_size (some_fields t val) r.offset
      → (r' : Registers) × (write_option buf_size t (some val) r ≡ (ok tt, r'))
        × (read_option buf_size t (record r' { offset = r.offset }) ≡ (ok (some val), r'))
  unfolding write_option read_option write_all
  read_option-write_option t val r l sized b fits =
      let fields : All IsField (some_fields t val) = (
        record {
          sized = sized;
          aligned = record { exponent = l.exponent; is_power = l.is_power; bounded = l.bounded };
        },
        (record { sized = refl; aligned = bool-IsLayout }, tt),
      ) in
      let (r', done, back) =
        read_all-write_all buf_size small (some_fields t val) r fields b fits in
      let (r₁, first, second) = two_reads buf_size small t bool _ _ _ _ back in
      (
        r',
        and_then_cong (write buf_size t val r) _ _ (λ _ r. sym (and_then_done _)) ∙ done,
        ap (λ o. and_then o (λ val r. and_then (read buf_size bool r) (λ _ r. (ok (some val), r))))
              first
            ∙ ap (λ o. and_then o (λ _ r. (ok (some val), r))) second,
      )

present :
    (val : List ℕ) (o : Option (List ℕ)) (r r' : Registers)
    → (◌≡◌ {A = Outcome (Option (List ℕ))} (ok (some val), r) (ok o, r'))
    → is_some o ≡ true
present val none r r' e = absurd cc
present val (some x) r r' e = refl

-- The flag is read and not looked at: whatever is in the registers, an absent value too, is read as
-- present, unless the reading fails.
read_option-some :
    (buf_size : ℕ) (t : Layout) (r r' : Registers) (o : Option (List ℕ))
    → read_option buf_size t r ≡ (ok o, r')
    → is_some o ≡ true
unfolding read_option
read_option-some buf_size t r r' o e =
    let (val, r₁, first, rest) = and_then_ok (read buf_size t r) _ _ _ e in
    let (flag, r₂, second, last) = and_then_ok (read buf_size bool r₁) _ _ _ rest in
    present val o r₂ r' last
