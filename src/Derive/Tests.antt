-- ===== src/Derive/Tests.antt =====
-- Interfaces and types given to the macros of crates/l4_derive.
use l4rerust.Base.{
  ℕ, ◌≤◌, ◌≡◌, refl, true, false, Option, none, some, List, [], ◌∷◌, ◌++◌, map, arith,
}
use l4rerust.Base.Text.{codes}
use l4rerust.Base.Int.{pos}
use l4rerust.L4.Error.{Result}
use l4rerust.L4.Utcb.{byte}
use l4rerust.L4.Rpc.{Arm, find_arm}
use l4rerust.Derive.{
  Ty, path, reference, no_args, angled, generic, end, lifetime, FnArg, self_ref, ignored, captured,
  Method, ok,
}
use l4rerust.Derive.Iface.{IfaceMethod, unnumbered, enumerate_iface_methods}
use l4rerust.Derive.Iface.Opcodes.{clean, arms_of, numbered_arm, find_arm-enumerate_iface_methods}
use l4rerust.Derive.Export.Types.{Uses, translate_type}
use l4rerust.Derive.Export.Methods.{
  used_now, new_var, gen_cpp_rpc_method, gen_params, gen_param, gen_output, gen_translated,
  param_of, choose_name, find_letter,
}
use l4rerust.Derive.Export.Fresh.{new_var_lem}
use l4rerust.Derive.Export.Letters.{outcome, written}
use l4rerust.Derive.Export.Names.{gen_cpp_rpc_method-written}
use l4rerust.Derive.Export.References.{is_settled}
use l4rerust.Derive.Export.Source.{opening, find, suffix, prefix, parse_external_iface}
use l4rerust.Derive.Export.Slice.{parse_external_iface_lem}
use l4rerust.Derive.Export.Types.{contains}

abbrev simple : List ℕ → Ty
simple n = path n no_args

abbrev u32 : Ty
u32 = simple (codes "u32")

abbrev method_of : List ℕ → List FnArg → Option Ty → Method
method_of name inputs output = record {
  ident = name;
  constness = false;
  inputs = self_ref true ∷ inputs;
  output = output;
  has_default = false;
  attrs = 1;
}

abbrev no_sets : Uses
no_sets = record { namespace_usg = []; includes = [] }

-- `fn foo(&mut self, u32, &Option<u32>) -> String`
abbrev foo : Method
foo =
    method_of (codes "foo")
      (ignored u32
        ∷ ignored (reference (path (codes "Option") (angled (generic (reference u32) end))))
        ∷ [])
      (some (simple (codes "String")))

-- `fn bar(&mut self, c: Cap)`
abbrev bar : Method
bar = method_of (codes "bar") (captured (some (codes "c")) (simple (codes "Cap")) ∷ []) none

abbrev arm : Method → Arm ℕ
arm m = record { opcode = 0; args = []; ret = byte; method = λ vals s. (Result.ok m.ident, s) }

find_arm-enumerate_iface_methods_example :
    (numbers : List IfaceMethod) × (arms : List (Arm ℕ)) × (enumerate_iface_methods
        (map unnumbered (foo ∷ bar ∷ []))
      ≡ ok numbers)
    × (arms_of arm numbers ≡ some arms)
    × (find_arm (pos 1) arms ≡ some (numbered_arm arm 1 (clean bar)))
find_arm-enumerate_iface_methods_example =
    find_arm-enumerate_iface_methods arm foo (bar ∷ []) 1 bar refl refl

new_var_lem_example :
    (n : ℕ) × (new_var (codes "a" ∷ []) ≡ ok (used_now (n ∷ []) (codes "a" ∷ [])))
    × (contains (n ∷ []) (codes "a" ∷ []) ≡ false)
    × (97 ≤ n)
    × (n ≤ 254)
new_var_lem_example = new_var_lem (codes "a" ∷ []) (omega arith)

gen_cpp_rpc_method-written_example :
    (outcome (gen_cpp_rpc_method [] no_sets foo) ≡ written [] no_sets foo)
    × (is_settled (written [] no_sets foo) ≡ true)
gen_cpp_rpc_method-written_example = gen_cpp_rpc_method-written [] no_sets foo refl (omega arith)

parse_external_iface_lem_example :
    parse_external_iface
      (codes "iface! {" ++ ((10 ∷ codes "trait A { }") ++ (10 ∷ 125 ∷ ([] ++ (10 ∷ [])))))
    ≡ ok (10 ∷ codes "trait A { }")
unfolding opening find suffix prefix
parse_external_iface_lem_example =
    parse_external_iface_lem (codes "iface! {") (codes "trait A { }") [] 10 10 10 refl refl refl

-- `fn foo(&mut self, u32)`, as in the tests of export.rs
unnamed_argument :
    gen_cpp_rpc_method [] no_sets (method_of (codes "foo") (ignored u32 ∷ []) none)
    ≡ ok (record {
      cpp = codes "  L4_INLINE_RPC(int, foo, (l4_uint32_t a));" ++ 10 ∷ [];
      used_vars = codes "a" ∷ [];
      sets = no_sets;
    })
unfolding gen_cpp_rpc_method gen_params gen_param gen_output param_of choose_name new_var
    find_letter translate_type
unnamed_argument = refl

-- A lifetime before a type: `Pair<'a, u32>` keeps a comma in front.
lifetime_comma :
    translate_type [] false no_sets (path (codes "Pair") (angled (lifetime (generic u32 end))))
    ≡ ok (record { text = codes "Pair<, l4_uint32_t>"; uses = no_sets })
unfolding translate_type
lifetime_comma = refl

-- `fn foo(&mut self) -> u32`: a comma before the first parameter
result_comma :
    gen_cpp_rpc_method [] no_sets (method_of (codes "foo") [] (some u32))
    ≡ ok (record {
      cpp = codes "  L4_INLINE_RPC(int, foo, (, l4_uint32_t& a));" ++ 10 ∷ [];
      used_vars = codes "a" ∷ [];
      sets = no_sets;
    })
unfolding gen_cpp_rpc_method gen_params gen_output gen_translated param_of gen_param new_var
    find_letter translate_type
result_comma = refl
