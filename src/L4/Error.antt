-- ===== src/L4/Error.antt =====
-- crates/l4/error.rs: the error type, its IPC codes, and `Result`.
use Prim.Native.String.{String}
use l4rerust.Base.{ℕ, ◌+◌, ◌-◌, ◌^◌, Bool, Option, none, some, if◌then◌else◌}
use l4rerust.Base.Int.{ℤ, pos, negsuc, pos_part, neg_part, neg, eq_ℤ}
use l4rerust.Base.Word.{as_i64}
use l4rerust.L4.Codes.{GenericErr, TcrErr, Consts, from_u64, tcr_from_u64}

-- core::str::Utf8Error
pub record Utf8Error : Type 0 where
  pub valid_up_to : ℕ
  pub error_len : Option ℕ

pub data Error : Type 0 where
  generic : GenericErr → Error
  tcr : TcrErr → Error
  invalid_cap : Error
  invalid_arg : String → Option ℤ → Error
  invalid_state : String → Error
  unknown : ℤ → Error
  protocol : ℤ → Error
  invalid_encoding : Option Utf8Error → Error

pub data Result {ℓ} (A : Type ℓ) : Type ℓ where
  ok : A → Result A
  err : Error → Result A

abbrev invalid_cap_code : ℤ
invalid_cap_code = negsuc 65539

abbrev invalid_encoding_code : ℤ
invalid_encoding_code = negsuc 65540

-- Whether an integer is `i64::MIN`, for which `abs` and `* -1` overflow.
abbrev is_min : ℤ → Bool
is_min n = eq_ℤ n (negsuc (2 ^ 63 - 1))

-- `none` is the panic of `abs` on `i64::MIN`.
unfoldable pub from_ipc : Consts → ℤ → Option Error
from_ipc k n =
    if eq_ℤ n invalid_cap_code
    then some invalid_cap
    else if eq_ℤ n invalid_encoding_code
    then some (invalid_encoding none)
    else if is_min n
    then none
    else elim (from_u64 k (pos_part n + neg_part n)) [
      | some tc ↦ some (generic tc)
      | none ↦ some (unknown n)
    ]

-- `n * -1`, where `none` is the panic on `i64::MIN`.
abbrev pub negate : ℤ → Option ℤ
negate n = if is_min n then none else some (neg n)

unfoldable pub into_ipc_err : Consts → Error → Option ℤ
into_ipc_err k (generic e) = negate (pos (k.code e))
into_ipc_err k (tcr e) = negate (pos (k.tcr_code e))
into_ipc_err k invalid_cap = negate invalid_cap_code
into_ipc_err k (invalid_arg _ _) = negate (pos (k.code GenericErr.invalid_arg))
into_ipc_err k (invalid_state _) = negate (pos (k.code GenericErr.invalid_arg))
into_ipc_err k (invalid_encoding _) = negate invalid_encoding_code
into_ipc_err k (unknown n) = negate n
into_ipc_err k (protocol n) = negate n

-- `TcrErr::from_tag_u`; the argument is what the foreign `l4_ipc_error` returns.
unfoldable pub tcr_from_tag_u : Consts → ℕ → Result TcrErr
tcr_from_tag_u k n = elim (tcr_from_u64 k n) [ some tc ↦ ok tc | none ↦ err (unknown (as_i64 n)) ]

-- `Error::from_tag_u`
unfoldable pub from_tag_u : Consts → ℕ → Error
from_tag_u k n = elim (tcr_from_tag_u k n) [ ok e ↦ tcr e | err e ↦ e ]
