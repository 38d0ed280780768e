-- ===== src/L4/Buffers.antt =====
-- The receive buffers of crates/l4/ipc/types.rs. The calls of the C library and the constants of its
-- headers are parameters. An index out of bounds is a panic, `none`.
pub mod Slots
pub mod Passing
use Prim.Native.String.{String}
use l4rerust.Base.{
  ℕ, zero, suc, ◌+◌, ◌-◌, ◌%◌, ◌^◌, ◌≤◌, ◌<◌, bit_and, bit_or, Bool, true, false, not, Option, none,
  some, List, [], ◌∷◌, ◌++◌, length, take, drop, set, replicate, get_elem?, ltb, leb, ◌==◌,
  if◌then◌else◌, ◌≡◌,
}
use l4rerust.Base.Int.{ℤ, pos}
use l4rerust.L4.Codes.{GenericErr}
use l4rerust.L4.Error.{Error, generic, invalid_arg, invalid_state, Result, ok, err}

-- The constants of the C headers.
pub record CapConsts : Type 0 where
  pub invalid_cap_bit : ℕ
  pub cap_mask : ℕ
  pub single_cap : ℕ
  pub local_id : ℕ

-- `l4re_util_cap_alloc`, on the state of what it allocates from
pub record CapAlloc : Type 1 where
  pub World : Type 0
  pub cap_alloc : World → ℕ × World

pub record BufferManager : Type 0 where
  pub caps : ℕ
  pub cap_flags : ℕ
  pub br : List ℕ

-- `size` is the parameter N.
abbrev pub new : CapConsts → ℕ → BufferManager
new k size = record { caps = 0; cap_flags = k.local_id; br = replicate size 0 }

module _ (k : CapConsts) (os : CapAlloc) where
  -- What a call leaves: its result, the manager, and the allocator.
  abbrev pub Left : Type 0
  Left = Result (Unit {0}) × BufferManager × os.World

  -- `self.br[self.caps] = cap | ..; self.caps += 1`
  abbrev pub keep_cap : ℕ → BufferManager → BufferManager
  keep_cap cap m = record m {
    caps = m.caps + 1;
    br = set m.br m.caps (bit_or (bit_or cap k.single_cap) m.cap_flags);
  }

  -- The loop of `alloc_capslots`; the number is `cap_demand - self.caps`.
  unfoldable pub alloc_loop : ℕ → BufferManager → os.World → Option Left
  alloc_loop zero m w = some (ok tt, m, w)
  alloc_loop (suc n) m w =
      let (cap, w') = os.cap_alloc w in
      let rest = alloc_loop n (keep_cap cap m) w' in
      if not (bit_and cap k.invalid_cap_bit == 0)
      then some (err (generic GenericErr.no_mem), m, w')
      else if ltb m.caps (length m.br)
      then rest
      else none

  -- `self.br[self.caps] = 0`, unless the loop has failed
  unfoldable pub terminate : Left → Option Left
  terminate (ok _, m, w) =
      if ltb m.caps (length m.br)
      then some (ok tt, record m { br = set m.br m.caps 0 }, w)
      else none
  terminate (err e, m, w) = some (err e, m, w)

  -- The sum of the demand is one of bytes, and so is the size it is compared with.
  unfoldable pub alloc_capslots : ℕ → BufferManager → os.World → Option Left
  alloc_capslots cap_demand m w =
      if leb (length m.br % 2 ^ 8) ((cap_demand + 3) % 2 ^ 8)
      then some (err (invalid_arg "Capability slot demand too large" (some (pos cap_demand))), m, w)
      else elim (alloc_loop (cap_demand - m.caps) m w) [ none ↦ none | some left ↦ terminate left ]

-- A capability is its index.
unfoldable pub rcv_cap : CapConsts → ℕ → BufferManager → Option (Result ℕ)
rcv_cap k index m =
    if ltb index m.caps
    then elim (get_elem? m.br index) [ none ↦ none | some cap ↦ some (ok (bit_and cap k.cap_mask)) ]
    else some (err (invalid_arg "Index not allocated" (some (pos index))))

unfoldable pub set_rcv_cap_flags : ℕ → BufferManager → Result (Unit {0}) × BufferManager
set_rcv_cap_flags flags m = if m.cap_flags == 0 then (ok tt, record m { cap_flags = flags }) else (
  err (invalid_state "Unable to set buffer flags when capabilities were already allocated"),
  m,
)

unfoldable pub caps_used : BufferManager → ℕ
caps_used m = m.caps

unfoldable pub max_slots : BufferManager → ℕ
max_slots m = length m.br % 2 ^ 32

-- The buffer registers of the UTCB: the descriptor and the registers.
pub record BufRegs : Type 0 where
  pub bdr : ℕ
  pub regs : List ℕ

-- `copy_from_slice` of the first registers; `none` is the panic if one of the slices is too short.
unfoldable pub setup_wait : BufferManager → BufRegs → Option BufRegs
setup_wait m b =
    if leb m.caps (length b.regs)
    then if leb m.caps (length m.br)
      then some (record { bdr = 0; regs = take m.caps m.br ++ drop m.caps b.regs })
      else none
    else none

-- A pointer into the buffers of a manager, by its index; `Bufferless` has none.
pub record BufferAccess : Type 0 where
  pub ptr : Option ℕ

unfoldable pub access_buffers : BufferManager → BufferAccess
access_buffers m = record { ptr = some 0 }

-- The capability at the pointer, and the access after the call. `none` is the panic of `unwrap`, or a
-- pointer behind the buffers.
unfoldable pub rcv_cap_unchecked : List ℕ → BufferAccess → Option (ℕ × BufferAccess)
rcv_cap_unchecked br a = elim a.ptr [
  | none ↦ none
  | some i ↦ elim (get_elem? br i) [ none ↦ none | some cap ↦ some (cap, record { ptr = some i }) ]
]

-- `Bufferless`, which allocates nothing
unfoldable pub bufferless_alloc_capslots : ℕ → Result (Unit {0})
bufferless_alloc_capslots cap_demand =
    if cap_demand == 0 then ok tt else err (invalid_arg "buffer allocation not permitted" none)

unfoldable pub bufferless_rcv_cap : ℕ → Result ℕ
bufferless_rcv_cap index = err (invalid_arg "No buffers allocated" none)

abbrev pub bufferless_access : BufferAccess
bufferless_access = record { ptr = none }

-- `BufStr`: the buffer and the length of the string in it.
pub record BufStr : Type 0 where
  pub buffer : List ℕ
  pub used : ℕ

unfoldable pub new_str : List ℕ → List ℕ → Result BufStr
new_str target input =
    if ltb (length target) (length input)
    then err (generic GenericErr.msg_too_long)
    else ok (record { buffer = input ++ drop (length input) target; used = length input })

unfoldable pub get : ℕ → BufStr → Option ℕ
get i s = get_elem? s.buffer i

unfoldable pub set_byte : ℕ → ℕ → BufStr → Option (Unit {0}) × BufStr
set_byte i v s =
    if ltb i (length s.buffer) then (some tt, record s { buffer = set s.buffer i v }) else (none, s)

-- `as_ref`
unfoldable pub as_str : BufStr → List ℕ
as_str s = take s.used s.buffer
