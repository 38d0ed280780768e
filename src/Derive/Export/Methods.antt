-- ===== src/Derive/Export/Methods.antt =====
-- The C++ method that crates/l4_derive/export.rs makes of a Rust one.
use l4rerust.Base.{
  ℕ, zero, suc, true, false, Option, none, some, List, [], ◌∷◌, ◌++◌, if◌then◌else◌, ltb,
}
use l4rerust.Base.Text.{codes}
use l4rerust.Derive.{
  Ty, FnArg, self_ref, self_value, inferred, ignored, captured, Method, Result, ok, err, panicked,
  ◌>>=◌,
}
use l4rerust.Derive.Export.Types.{contains, is_empty, Mapping, Uses, Translated, translate_type}

-- A name, and the names used after it.
pub record Named : Type 0 where
  pub name : List ℕ
  pub used : List (List ℕ)

abbrev pub used_now : List ℕ → List (List ℕ) → Named
used_now x used = record { name = x; used = x ∷ used }

-- The first of the next numbers that is not a name in use as a character. `97u8..` ends with the
-- overflow that taking 255 from it is.
unfoldable pub find_letter : ℕ → ℕ → List (List ℕ) → Result ℕ
find_letter zero n used = panicked
find_letter (suc fuel) n used =
    let rest = find_letter fuel (suc n) used in if contains (n ∷ []) used then rest else ok n

-- 97 to 254
abbrev pub letters : ℕ
letters = 158

unfoldable pub new_var : List (List ℕ) → Result Named
new_var used = find_letter letters 97 used >>= λ n. ok (used_now (n ∷ []) used)

-- The names that are used, the text and the sets so far.
pub record Rpc : Type 0 where
  pub cpp : List ℕ
  pub used_vars : List (List ℕ)
  pub sets : Uses

pub record Param : Type 0 where
  pub ident : List ℕ
  pub type_of : Ty

abbrev param : List ℕ → Ty → Param
param n ty = record { ident = n; type_of = ty }

-- `none` is an argument to go past.
unfoldable pub param_of : FnArg → Result (Option Param)
param_of (self_ref _) = ok none
param_of self_value = ok none
param_of (inferred r) = r >>= λ ty. ok (some (param [] ty))
param_of (ignored ty) = ok (some (param [] ty))
param_of (captured (some n) ty) = ok (some (param n ty))
param_of (captured none ty) = err (codes "Invalid argument type ")

unfoldable pub choose_name : List (List ℕ) → List ℕ → Result Named
choose_name used [] = new_var used
choose_name used (c ∷ cs) = ok (used_now (c ∷ cs) used)

abbrev pub comma : ℕ → List ℕ
comma idx = if ltb 1 idx then codes ", " else []

abbrev pub with_param : ℕ → Rpc → Named → Translated → Rpc
with_param idx rpc v t = record {
  cpp = rpc.cpp ++ comma idx ++ t.text ++ codes " " ++ v.name;
  used_vars = v.used;
  sets = t.uses;
}

unfoldable pub gen_param : List Mapping → ℕ → Rpc → Option Param → Result Rpc
gen_param ty_mappings idx rpc none = ok rpc
gen_param ty_mappings idx rpc (some p) = choose_name rpc.used_vars p.ident >>= λ v.
    translate_type ty_mappings false rpc.sets p.type_of >>= λ t. ok (with_param idx rpc v t)

unfoldable pub gen_params : List Mapping → ℕ → Rpc → List FnArg → Result Rpc
gen_params ty_mappings idx rpc [] = ok rpc
gen_params ty_mappings idx rpc (arg ∷ inputs) = param_of arg >>= λ p.
    gen_param ty_mappings idx rpc p >>= λ r. gen_params ty_mappings (suc idx) r inputs

abbrev pub with_result : Rpc → Named → Translated → Rpc
with_result rpc v t = record {
  cpp = rpc.cpp ++ codes ", " ++ t.text ++ codes "& " ++ v.name;
  used_vars = v.used;
  sets = t.uses;
}

unfoldable pub gen_translated : Rpc → Translated → Result Rpc
gen_translated rpc t =
    if is_empty t.text
    then ok (record rpc { sets = t.uses })
    else new_var rpc.used_vars >>= λ v. ok (with_result rpc v t)

unfoldable pub gen_output : List Mapping → Rpc → Option Ty → Result Rpc
gen_output ty_mappings rpc none = ok rpc
gen_output ty_mappings rpc (some ty) =
    translate_type ty_mappings true rpc.sets ty >>= λ t. gen_translated rpc t

abbrev pub rpc_start : Uses → Method → Rpc
rpc_start sets method = record {
  cpp = codes "  L4_INLINE_RPC(int, " ++ method.ident ++ codes ", (";
  used_vars = [];
  sets = sets;
}

abbrev pub closed : Rpc → Rpc
closed rpc = record rpc { cpp = rpc.cpp ++ codes "));" ++ 10 ∷ [] }

-- The text and the sets of the result; the names are those of the parameters, the last first.
unfoldable pub gen_cpp_rpc_method : List Mapping → Uses → Method → Result Rpc
gen_cpp_rpc_method ty_mappings sets method =
    gen_params ty_mappings 0 (rpc_start sets method) method.inputs >>= λ rpc.
    gen_output ty_mappings rpc method.output >>= λ r. ok (closed r)
