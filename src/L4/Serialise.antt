-- ===== src/L4/Serialise.antt =====
-- What crates/l4/ipc/serialise.rs reads and writes beside plain values: options, flex pages and
-- capabilities.
pub mod Optional
pub mod Pages
use l4rerust.Base.{
  ℕ, ◌+◌, ◌-◌, ◌*◌, ◌%◌, ◌^◌, bit_and, bit_or, Option, none, some, List, [], ◌∷◌, ◌++◌, get_elem?,
}
use l4rerust.Base.Word.{from_le_bytes, to_le_bytes}
use l4rerust.L4.Error.{Result, ok, err, invalid_state}
use l4rerust.L4.Utcb.{
  Layout, Registers, UtcbMr, Outcome, and_then, write, read, skip, write_item, complement,
}
use l4rerust.L4.Buffers.{BufferAccess}
use l4rerust.L4.Utcb.Words.{flex_page}

abbrev pub bool : Layout
bool = record { size = 1; align = 1 }

abbrev pub u64 : Layout
u64 = record { size = 8; align = 8 }

module _ (buf_size : ℕ) where
  -- `Option<T>`: the value, or its room, and a flag behind it.
  unfoldable pub write_option : Layout → Option (List ℕ) → Registers → Outcome (Unit {0})
  write_option t none r = and_then (skip buf_size t r) (λ _ r. write buf_size bool (0 ∷ []) r)
  write_option t (some val) r =
      and_then (write buf_size t val r) (λ _ r. write buf_size bool (1 ∷ []) r)

  unfoldable pub read_option : Layout → Registers → Outcome (Option (List ℕ))
  read_option t r =
      and_then (read buf_size t r)
        (λ val r. and_then (read buf_size bool r) (λ _ r. (ok (some val), r)))

pub record SndFlexPage : Type 0 where
  pub description : ℕ
  pub fpage : ℕ

-- What the C headers and the C library give for flex pages: the constant L4_ITEM_MAP, all bits of
-- `FpageRights`, and the raw value of `l4_obj_fpage(cap, 0, rights)`.
pub record Fpages : Type 0 where
  pub item_map : ℕ
  pub all_rights : ℕ
  pub obj_fpage : ℕ → ℕ → ℕ

-- `SndFlexPage::new`; a map type is its number.
unfoldable pub new : Fpages → ℕ → ℕ → Option ℕ → SndFlexPage
new k fpage snd_base mt = record {
  description =
      bit_or (bit_or k.item_map (bit_and snd_base (complement 0 * 2 ^ 10 % 2 ^ 64)))
        (elim mt [ none ↦ 0 | some v ↦ v ]);
  fpage = fpage;
}

-- `SndFlexPage::from_cap`
unfoldable pub from_cap : Fpages → ℕ → ℕ → Option ℕ → SndFlexPage
from_cap k cap rights mt = new k (k.obj_fpage cap rights) 0 mt

unfoldable pub bytes_of : SndFlexPage → List ℕ
bytes_of p = to_le_bytes 8 p.description ++ to_le_bytes 8 p.fpage

unfoldable pub write_page : ℕ → SndFlexPage → UtcbMr → Result (Unit {0}) × UtcbMr
write_page buf_size p m = write_item buf_size flex_page (bytes_of p) m

-- `Cap<T>`'s `write`, with all rights.
unfoldable pub write_cap : ℕ → Fpages → ℕ → UtcbMr → Result (Unit {0}) × UtcbMr
write_cap buf_size k cap m = write_page buf_size (from_cap k cap k.all_rights none) m

-- A result, the registers and the pointer into the buffers.
abbrev pub Reading : Type 0 → Type 0
Reading A = Result A × Registers × BufferAccess

-- The page with the capability at the pointer; `none` is a pointer behind the buffers `br`.
unfoldable pub take_page :
    Fpages → List ℕ → ℕ → ℕ → Registers → BufferAccess → Option (Reading SndFlexPage)
take_page k br description fp_raw r a = elim a.ptr [
  | none ↦ some (err (invalid_state "missing capability for flex page"), r, a)
  | some i ↦ elim (get_elem? br i) [
    | none ↦ none
    | some cap ↦
        let rights = bit_and (bit_and fp_raw 0xff) k.all_rights in
        some (
          ok (record { description = description; fpage = k.obj_fpage cap rights }),
          r,
          record { ptr = some (i + 1) },
        )
  ]
]

-- What is done with a value that was read, if it was.
abbrev pub with_value :
    {A : Type 0}
    → BufferAccess
    → Outcome (List ℕ)
    → (ℕ → Registers → Option (Reading A))
    → Option (Reading A)
with_value a (ok bytes, r) f = f (from_le_bytes bytes) r
with_value a (err e, r) f = some (err e, r, a)

unfoldable pub read_page :
    ℕ → Fpages → List ℕ → Registers → BufferAccess → Option (Reading SndFlexPage)
read_page buf_size k br r a = with_value a (read buf_size u64 r) (λ description r.
    with_value a (read buf_size u64 r) (λ fp_raw r. take_page k br description fp_raw r a))
