-- ===== src/L4Sys/Factory/Tests.antt =====
-- Messages to the factory of crates/l4-sys/factory.rs.
use l4rerust.Base.{
  ℕ, ◌+◌, ◌*◌, ◌/◌, ◌^◌, ◌-◌, ◌≡◌, map, some, List, [], ◌∷◌, take, replicate, arith,
}
use l4rerust.Base.Int.{negsuc}
use l4rerust.L4.MsgTag.{MsgTag, words}
use l4rerust.L4.MsgTag.Fields.{FitsLabel}
use l4rerust.L4Sys.Factory.{VargTypes}
use l4rerust.L4Sys.Factory.Puts.{read_vargs}
use l4rerust.L4Sys.Factory.Adding.{Arg, int, uint, nil, text, IsTypes, view}
use l4rerust.L4Sys.Factory.Arguments.{add_all, read_vargs-add_all}
use l4rerust.L4Sys.Factory.Create.{Consts, Regs, create_gate}
use l4rerust.L4Sys.Factory.Create.Gate.{IsGateMessage, create_gate_lem}

abbrev types : VargTypes
types = record { nil = 0; umword = 1; mword = 129; string = 2; fpage = 3 }

types-IsTypes : IsTypes types
types-IsTypes = record {
  nil_small = omega arith;
  umword_small = omega arith;
  mword_small = omega arith;
  string_small = omega arith;
  fpage_small = omega arith;
}

-- One word, with label 5.
abbrev started : MsgTag
started = record { raw = 5 * 2 ^ 16 + 1 }

abbrev memory : List ℕ
memory = replicate 520 0

abbrev args : List Arg
args = uint 7 ∷ text (104 ∷ 105 ∷ []) ∷ nil ∷ int 9 ∷ []

read_vargs-add_all_example :
    (t' : MsgTag) × (m' : List ℕ) × (add_all 63 types args (started, memory) ≡ some (t', m'))
    × (read_vargs 4 (words started) m' ≡ map (view types) args)
    × (words t' ≡ words started + 7)
    × (t'.raw / 2 ^ 6 ≡ started.raw / 2 ^ 6)
    × (take (words started * 8) m' ≡ take (words started * 8) memory)
unfolding words
read_vargs-add_all_example =
    read_vargs-add_all 63 (omega arith) types types-IsTypes args started memory (omega arith)
      (omega arith) (omega arith, ((omega arith, omega arith), (omega arith, (omega arith, tt))))

abbrev consts : Consts
consts = record {
  types = types;
  proto_factory = negsuc 14;
  proto_task = negsuc 10;
  proto_thread = negsuc 11;
  proto_irq_sender = negsuc 20;
  proto_vm = negsuc 17;
  invalid_cap_bit = 2048;
  single_cap = 1;
  control_mask = 2 ^ 64 - 2 ^ 12;
  item_map = 8;
  fpage_rwx = 7;
  obj_fpage = λ cap order rights. cap + rights;
}

abbrev regs : Regs
regs = record { mr = memory; bdr = 3; br = 0 ∷ 0 ∷ [] }

-- A kernel that answers with the tag.
abbrev echo : ℕ → MsgTag → Regs → ℕ → MsgTag × Regs × ℕ
echo cap tag r calls = (tag, r, calls + 1)

kind_fits : FitsLabel (negsuc 14)
unfolding FitsLabel
kind_fits = omega arith

create_gate_lem_example :
    (tag : MsgTag) × (r' : Regs) × (create_gate consts 63 echo 4096 8192 12288 99 regs 0
      ≡ some (echo 4096 tag r' 0))
    × IsGateMessage consts types-IsTypes kind_fits 63
        (omega arith)
        (omega arith)
        echo
        12288
        99
        8192
        tag
        regs
        r'
create_gate_lem_example =
    create_gate_lem consts types-IsTypes kind_fits 63 (omega arith) (omega arith) echo 4096 8192
      12288 99 regs 0 (omega arith) (ground arith)
