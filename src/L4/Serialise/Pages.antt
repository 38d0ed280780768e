-- ===== src/L4/Serialise/Pages.antt =====
-- Flex pages take their capabilities from the buffers, one after the other.
use l4rerust.Base.{
  ℕ, ◌+◌, bit_and, ◌≡◌, refl, ap, sym, ◌∙◌, Option, none, some, List, get_elem?, Option-cases, inl,
  inr,
}
use l4rerust.Base.Word.{from_le_bytes}
use l4rerust.L4.Error.{ok, err}
use l4rerust.L4.Utcb.{Registers, Outcome, read}
use l4rerust.L4.Buffers.{BufferAccess}
use l4rerust.L4.Serialise.{SndFlexPage, Fpages, Reading, with_value, take_page, read_page, u64}

-- A page made of the capability at the pointer, and the pointer moved on by one.
pub record Taken (k : Fpages) (br : List ℕ) (a : BufferAccess) (p : SndFlexPage) (a' : BufferAccess)
    : Type 0 where
  pub index : ℕ
  pub cap : ℕ
  pub rights : ℕ
  pub at : a.ptr ≡ some index
  pub slot : get_elem? br index ≡ some cap
  pub page : p.fpage ≡ k.obj_fpage cap rights
  pub next : a'.ptr ≡ some (index + 1)

same_taken :
    {p q : SndFlexPage} {r r' : Registers} {a a' : BufferAccess}
    → (◌≡◌ {A = Option (Reading SndFlexPage)} (some (ok p, r, a)) (some (ok q, r', a')))
    → (p ≡ q) × (a ≡ a')
same_taken e = (cc, cc)

module _ (k : Fpages) (br : List ℕ) (p : SndFlexPage) (r' : Registers) (a' : BufferAccess) where
  with_value_ok :
      (a : BufferAccess) (o : Outcome (List ℕ)) (f : ℕ → Registers → Option (Reading SndFlexPage))
      → with_value a o f ≡ some (ok p, r', a')
      → (n : ℕ) × (r : Registers) × (f n r ≡ some (ok p, r', a'))
  with_value_ok a (ok bytes, r) f e = (from_le_bytes bytes, r, e)
  with_value_ok a (err x, r) f e = absurd cc

  take_page-Taken :
      (description fp_raw : ℕ) (r : Registers) (q : Option ℕ)
      → take_page k br description fp_raw r (record { ptr = q }) ≡ some (ok p, r', a')
      → Taken k br (record { ptr = q }) p a'
  unfolding take_page
  take_page-Taken description fp_raw r none e = absurd cc
  take_page-Taken description fp_raw r (some i) e = elim (Option-cases (get_elem? br i)) [
    | inl nothing ↦
        let failed : take_page k br description fp_raw r (record { ptr = some i }) ≡ none =
          rw (nothing, take_page) refl in
        absurd cc
    | inr (cap, found) ↦
        let rights = bit_and (bit_and fp_raw 0xff) k.all_rights in
        let made : SndFlexPage = record {
          description = description;
          fpage = k.obj_fpage cap rights;
        } in
        let after : BufferAccess = record { ptr = some (i + 1) } in
        let done : take_page k br description fp_raw r (record { ptr = some i })
            ≡ some (ok made, r, after) =
          rw (found, take_page) refl in
        let (page, next) = same_taken (sym done ∙ e) in
        record {
          index = i;
          cap = cap;
          rights = rights;
          at = refl;
          slot = found;
          page = sym (ap SndFlexPage.fpage page);
          next = sym (ap BufferAccess.ptr next);
        }
  ]

  -- A flex page that is read holds the capability at the pointer into the buffers, and the next one
  -- is taken from the slot behind it.
  read_page-Taken :
      (buf_size : ℕ) (r : Registers) (a : BufferAccess)
      → read_page buf_size k br r a ≡ some (ok p, r', a')
      → Taken k br a p a'
  unfolding read_page
  read_page-Taken buf_size r a e =
      let (description, r₁, rest) = with_value_ok a (read buf_size u64 r) _ e in
      let (fp_raw, r₂, last) = with_value_ok a (read buf_size u64 r₁) _ rest in
      take_page-Taken description fp_raw r₂ a.ptr last
