-- ===== src/L4/Codes.antt =====
-- The enums of crates/l4/error.rs that `enumgenerator!` of crates/l4/types.rs makes of C constants,
-- and the conversions that it derives for them. The C constants stand in a header that is not part
-- of the repository, so the number of a variant is a parameter.
use l4rerust.Base.{
  ℕ, zero, suc, refl, get_elem?, Option, none, some, List, [], ◌∷◌, ◌==◌, if◌then◌else◌, ◌≡◌, ◌≢◌,
  ◌≤◌, arith,
}

pub data GenericErr : Type 0 where
  ok no_perm no_entity io no_dev_or_addr arg2_big try_again no_mem permission_denied : GenericErr
  invalid_mem_addr obj_busy already_exists no_dev invalid_arg no_space out_of_bounds : GenericErr
  name_too_long no_sys invalid_prot addr_not_avail max_err no_reply msg_too_short : GenericErr
  msg_too_long msg_invalid_cap ipc_r_low ipc_r_high : GenericErr

pub data TcrErr : Type 0 where
  ipc_error_mask send_err_mask not_existent recv_timeout send_timeout recv_canceled : TcrErr
  send_canceled remap_failed send_map_failed recv_send_pf_timeout send_send_pf_timeout : TcrErr
  recv_recv_pf_timeout send_recv_pf_timeout recv_abort send_abort recv_msg_cut : TcrErr
  send_msg_cut : TcrErr

abbrev pub generic_errs : List GenericErr
generic_errs =
    GenericErr.ok ∷ GenericErr.no_perm ∷ GenericErr.no_entity ∷ GenericErr.io
    ∷ GenericErr.no_dev_or_addr ∷ GenericErr.arg2_big ∷ GenericErr.try_again ∷ GenericErr.no_mem
    ∷ GenericErr.permission_denied ∷ GenericErr.invalid_mem_addr ∷ GenericErr.obj_busy
    ∷ GenericErr.already_exists ∷ GenericErr.no_dev ∷ GenericErr.invalid_arg ∷ GenericErr.no_space
    ∷ GenericErr.out_of_bounds ∷ GenericErr.name_too_long ∷ GenericErr.no_sys
    ∷ GenericErr.invalid_prot ∷ GenericErr.addr_not_avail ∷ GenericErr.max_err ∷ GenericErr.no_reply
    ∷ GenericErr.msg_too_short ∷ GenericErr.msg_too_long ∷ GenericErr.msg_invalid_cap
    ∷ GenericErr.ipc_r_low ∷ GenericErr.ipc_r_high ∷ []

abbrev tcr_errs : List TcrErr
tcr_errs =
    TcrErr.ipc_error_mask ∷ TcrErr.send_err_mask ∷ TcrErr.not_existent ∷ TcrErr.recv_timeout
    ∷ TcrErr.send_timeout ∷ TcrErr.recv_canceled ∷ TcrErr.send_canceled ∷ TcrErr.remap_failed
    ∷ TcrErr.send_map_failed ∷ TcrErr.recv_send_pf_timeout ∷ TcrErr.send_send_pf_timeout
    ∷ TcrErr.recv_recv_pf_timeout ∷ TcrErr.send_recv_pf_timeout ∷ TcrErr.recv_abort
    ∷ TcrErr.send_abort ∷ TcrErr.recv_msg_cut ∷ TcrErr.send_msg_cut ∷ []

-- The numbers that the C headers give to the variants.
pub record Consts : Type 0 where
  pub code : GenericErr → ℕ
  pub tcr_code : TcrErr → ℕ

-- Variants of one enum have different numbers, or rustc refuses it, and the codes of L4 are small.
pub record IsCodes (k : Consts) : Type 0 where
  pub distinct : (e f : GenericErr) → k.code e ≡ k.code f → e ≡ f
  pub small : (e : GenericErr) → k.code e ≤ 65535

-- The first variant with the number, in the order of the declaration.
abbrev first_with : {E : Type 0} → (E → ℕ) → ℕ → List E → Option E
first_with code n [] = none
first_with code n (e ∷ es) = if code e == n then some e else first_with code n es

-- `GenericErr::from_u64`
unfoldable pub from_u64 : Consts → ℕ → Option GenericErr
from_u64 k n = first_with k.code n generic_errs

-- `TcrErr::from_u64`
unfoldable pub tcr_from_u64 : Consts → ℕ → Option TcrErr
tcr_from_u64 k n = first_with k.tcr_code n tcr_errs

module _ {E : Type 0} (code : E → ℕ) (distinct : (e f : E) → code e ≡ code f → e ≡ f) where
  first_with_listed :
      (e : E) (es : List E) (i : ℕ) → get_elem? es i ≡ some e → first_with code (code e) es ≡ some e
  first_with_listed e [] i at = cc
  first_with_listed e (f ∷ es) zero at = ground arith
  first_with_listed e (f ∷ es) (suc i) at =
      ground (arith, distinct f e, first_with_listed e es i at)

-- Where a variant stands in the enum.
abbrev pub position : (e : GenericErr) → (i : ℕ) × (get_elem? generic_errs i ≡ some e)
position GenericErr.ok = (0, refl)
position GenericErr.no_perm = (1, refl)
position GenericErr.no_entity = (2, refl)
position GenericErr.io = (3, refl)
position GenericErr.no_dev_or_addr = (4, refl)
position GenericErr.arg2_big = (5, refl)
position GenericErr.try_again = (6, refl)
position GenericErr.no_mem = (7, refl)
position GenericErr.permission_denied = (8, refl)
position GenericErr.invalid_mem_addr = (9, refl)
position GenericErr.obj_busy = (10, refl)
position GenericErr.already_exists = (11, refl)
position GenericErr.no_dev = (12, refl)
position GenericErr.invalid_arg = (13, refl)
position GenericErr.no_space = (14, refl)
position GenericErr.out_of_bounds = (15, refl)
position GenericErr.name_too_long = (16, refl)
position GenericErr.no_sys = (17, refl)
position GenericErr.invalid_prot = (18, refl)
position GenericErr.addr_not_avail = (19, refl)
position GenericErr.max_err = (20, refl)
position GenericErr.no_reply = (21, refl)
position GenericErr.msg_too_short = (22, refl)
position GenericErr.msg_too_long = (23, refl)
position GenericErr.msg_invalid_cap = (24, refl)
position GenericErr.ipc_r_low = (25, refl)
position GenericErr.ipc_r_high = (26, refl)

-- A variant is found by its number.
pub from_u64-code : (k : Consts) → IsCodes k → (e : GenericErr) → from_u64 k (k.code e) ≡ some e
unfolding from_u64
from_u64-code k laws e =
    let (i, at) = position e in first_with_listed k.code laws.distinct e generic_errs i at

all_differ :
    (k : Consts) (n : ℕ)
    → ((e : GenericErr) → k.code e ≢ n)
    → (es : List GenericErr) → first_with k.code n es ≡ none
all_differ k n h [] = refl
all_differ k n h (e ∷ es) = ground (arith, h e, all_differ k n h es)

-- A number that no variant has is not found.
pub from_u64-none : (k : Consts) (n : ℕ) → ((e : GenericErr) → k.code e ≢ n) → from_u64 k n ≡ none
unfolding from_u64
from_u64-none k n h = all_differ k n h generic_errs
