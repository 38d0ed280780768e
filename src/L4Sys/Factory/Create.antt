-- ===== src/L4Sys/Factory/Create.antt =====
-- The calls of crates/l4-sys/factory.rs that create an object, and the map items of
-- crates/l4-sys/cap.rs. The kernel and the C library are parameters.
pub mod Gate
use l4rerust.Base.{
  ℕ, ◌*◌, ◌^◌, ◌%◌, Bool, Option, none, some, List, set, ◌==◌, if◌then◌else◌, bit_and, bit_or,
}
use l4rerust.Base.Int.{ℤ, pos}
use l4rerust.Base.Word.{as_u64}
use l4rerust.L4.MsgTag.{MsgTag, new, label, words, flags}
use l4rerust.L4Sys.Factory.{VargTypes, Message, set_word, add_uint, add_fpage}

infixl 5 ◌>>=◌
abbrev pub ◌>>=◌ : {A B : Type 0} → Option A → (A → Option B) → Option B
none >>= f = none
some a >>= f = f a

-- The constants of the C headers, and `l4_obj_fpage` of the C library.
pub record Consts : Type 0 where
  pub types : VargTypes
  pub proto_factory : ℤ
  pub proto_task : ℤ
  pub proto_thread : ℤ
  pub proto_irq_sender : ℤ
  pub proto_vm : ℤ
  pub invalid_cap_bit : ℕ
  pub single_cap : ℕ
  pub control_mask : ℕ
  pub item_map : ℕ
  pub fpage_rwx : ℕ
  pub obj_fpage : ℕ → ℕ → ℕ → ℕ

-- The message registers with what lies behind them, and the buffer registers.
pub record Regs : Type 0 where
  pub mr : List ℕ
  pub bdr : ℕ
  pub br : List ℕ

unfoldable pub map_control : Consts → ℕ → ℕ → ℕ → ℕ
map_control k snd_base cache grant =
    bit_or (bit_or (bit_or (bit_and snd_base k.control_mask) (cache * 2 ^ 4 % 2 ^ 64)) k.item_map)
      grant

abbrev pub map_obj_control : Consts → ℕ → ℕ → ℕ
map_obj_control k snd_base grant = map_control k snd_base 0 grant

module _ (k : Consts) (data_size : ℕ) {W : Type 0}
    (ipc_call : ℕ → MsgTag → Regs → W → MsgTag × Regs × W) where
  -- The tag of the answer, the registers and the world after the call; `none` is a panic.
  abbrev pub Created : Type 0
  Created = Option (MsgTag × Regs × W)

  unfoldable pub create_start : ℤ → ℕ → Regs → Option (MsgTag × Regs)
  create_start protocol target r = set_word data_size 0 (as_u64 protocol) r.mr >>= λ m. some (
    new k.proto_factory 1 0 0,
    record { mr = m; bdr = 0; br = set r.br 0 (bit_or target k.single_cap) },
  )

  abbrev pub create_commit : ℕ → MsgTag → Regs → W → Created
  create_commit factory tag r w = some (ipc_call factory tag r w)

  unfoldable pub create : ℕ → ℤ → ℕ → Regs → W → Created
  create factory protocol target r w =
      create_start protocol target r >>= λ s. create_commit factory s.0 s.1 w

  abbrev pub create_thread : ℕ → ℕ → Regs → W → Created
  create_thread factory target r w = create factory k.proto_thread target r w

  abbrev pub create_irq : ℕ → ℕ → Regs → W → Created
  create_irq factory target r w = create factory k.proto_irq_sender target r w

  abbrev pub create_vm : ℕ → ℕ → Regs → W → Created
  create_vm factory target r w = create factory k.proto_vm target r w

  -- An argument goes to the message; whether it had room is not looked at.
  abbrev pub with_arg : (Message → Option (Bool × Message)) → MsgTag × Regs → Option (MsgTag × Regs)
  with_arg add s = add (s.0, s.1.mr) >>= λ a. some (a.1.0, record s.1 { mr = a.1.1 })

  unfoldable pub create_task : ℕ → ℕ → ℕ → Regs → W → Created
  create_task factory target utcb_area r w =
      create_start k.proto_task target r
      >>= with_arg (add_fpage data_size k.types utcb_area)
      >>= λ s. create_commit factory s.0 s.1 w

  unfoldable pub create_factory : ℕ → ℕ → ℕ → Regs → W → Created
  create_factory factory target limit r w =
      create_start k.proto_factory target r >>= with_arg (add_uint data_size k.types limit) >>= λ s.
      create_commit factory s.0 s.1 w

  -- The item that maps the thread, in the words 3 and 4.
  abbrev pub with_thread : ℕ → MsgTag × Regs → Option (ℕ × MsgTag × Regs)
  with_thread thread_cap s =
      let mapped : Option (ℕ × MsgTag × Regs) =
        set_word data_size 3 (map_obj_control k 0 0) s.1.mr
        >>= (λ m. set_word data_size 4 (k.obj_fpage thread_cap 0 k.fpage_rwx) m)
        >>= λ m. some (1, s.0, record s.1 { mr = m }) in
      if bit_and thread_cap k.invalid_cap_bit == 0 then mapped else some (0, s.0, s.1)

  unfoldable pub create_gate : ℕ → ℕ → ℕ → ℕ → Regs → W → Created
  create_gate factory target thread_cap gate_label r w =
      create_start (pos 0) target r
      >>= with_arg (add_uint data_size k.types gate_label)
      >>= with_thread thread_cap
      >>= λ s. create_commit factory (new (label s.1) (words s.1) s.0 (flags s.1)) s.2 w
