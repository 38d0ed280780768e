-- ===== src/Derive/Export/Interface.antt =====
-- The C++ interface that crates/l4_derive/export.rs writes.
use l4rerust.Base.{
  ℕ, zero, suc, ◌+◌, ◌-◌, ◌/◌, ◌%◌, Bool, true, false, ◌&&◌, ◌||◌, leb, ◌==◌, Option, none, some,
  List, [], ◌∷◌, ◌++◌, length, take, if◌then◌else◌, ltb,
}
use l4rerust.Base.Text.{codes}
use l4rerust.Derive.{Method, Result, ok, err, ◌>>=◌}
use l4rerust.Derive.Iface.{IfaceMethod, inner}
use l4rerust.Derive.Iface.Parse.{Expr, int_literal, other_literal, other_expr, Iface}
use l4rerust.Derive.Export.Types.{insert, Mapping, Uses}
use l4rerust.Derive.Export.Methods.{Rpc, gen_cpp_rpc_method}

-- What `gen_cpp_interface` reads of `ExportOptions`.
pub record ExportOptions : Type 0 where
  pub name : Option (List ℕ)
  pub protocol : Option ℕ
  pub type_mappings : List Mapping
  pub includes : List (List ℕ)

-- A number as it is printed; 20 digits are those of a number below 2 ^ 64.
abbrev pub digits : ℕ → ℕ → List ℕ → List ℕ
digits zero n acc = acc
digits (suc fuel) n acc =
    let more = digits fuel (n / 10) ((48 + n % 10) ∷ acc) in
    if ltb n 10 then (48 + n) ∷ acc else more

abbrev pub decimal : ℕ → List ℕ
decimal n = digits 20 n []

abbrev pub literal_protocol : Expr → Result ℕ
literal_protocol (int_literal n) = ok n
literal_protocol other_literal = err (codes "Protocol literal is not an integer")
literal_protocol other_expr =
    err (codes "No protocol specified and no protocol literal in interface definition.")

abbrev pub protocol_of : Option ℕ → Expr → Result ℕ
protocol_of (some x) e = ok x
protocol_of none e = literal_protocol e

abbrev pub name_of : Option (List ℕ) → List ℕ → List ℕ
name_of (some n) default_name = n
name_of none default_name = default_name

abbrev pub demand_text : ℕ → List ℕ
demand_text zero = []
demand_text (suc n) = codes ", L4::Type_info::Demand_t<" ++ decimal (suc n) ++ codes ">"

-- The text, the names of the methods with what stands behind them, and the sets.
pub record Written : Type 0 where
  pub cpp_iface : List ℕ
  pub rpcs : List ℕ
  pub sets : Uses

abbrev pub with_method : Written → Method → Rpc → Written
with_method w method rpc = record {
  cpp_iface = w.cpp_iface ++ rpc.cpp;
  rpcs = w.rpcs ++ method.ident ++ codes "_t, ";
  sets = rpc.sets;
}

unfoldable pub gen_methods : List Mapping → Written → List IfaceMethod → Result Written
gen_methods mappings w [] = ok w
gen_methods mappings w (m ∷ ms) = gen_cpp_rpc_method mappings w.sets (inner m) >>= λ rpc.
    gen_methods mappings (with_method w (inner m) rpc) ms

-- The order of texts, and sorting by it
abbrev pub before : List ℕ → List ℕ → Bool
before [] t = true
before (c ∷ cs) [] = false
before (c ∷ cs) (d ∷ ds) = let rest = before cs ds in if c == d then rest else ltb c d

abbrev pub insert_sorted : List ℕ → List (List ℕ) → List (List ℕ)
insert_sorted t [] = t ∷ []
insert_sorted t (s ∷ ss) =
    let rest = insert_sorted t ss in if before t s then t ∷ s ∷ ss else s ∷ rest

abbrev pub sort : List (List ℕ) → List (List ℕ)
sort [] = []
sort (t ∷ ts) = insert_sorted t (sort ts)

-- Each text between two others
abbrev pub lines : List ℕ → List ℕ → List (List ℕ) → List ℕ
lines open_text close_text [] = []
lines open_text close_text (t ∷ ts) = open_text ++ t ++ close_text ++ lines open_text close_text ts

abbrev pub blank_line : List (List ℕ) → List ℕ
blank_line [] = []
blank_line (_ ∷ _) = 10 ∷ []

abbrev pub preamble : Uses → List ℕ
preamble u =
    lines (codes "#include <") (62 ∷ 10 ∷ []) (sort u.includes)
    ++ blank_line u.namespace_usg
    ++ lines (codes "using ") (59 ∷ 10 ∷ []) (sort u.namespace_usg)

-- `cpp_iface.truncate(cpp_iface.len() - 2)`
abbrev pub without_two : List ℕ → List ℕ
without_two t = take (length t - 2) t

-- `char::is_whitespace`
abbrev pub white_space : ℕ → Bool
white_space c =
    (leb 9 c && leb c 13)
    || c == 32
    || c == 133
    || c == 160
    || c == 5760
    || (leb 8192 c && leb c 8202)
    || c == 8232
    || c == 8233
    || c == 8239
    || c == 8287
    || c == 12288

abbrev pub is_whitespace : List ℕ → Bool
is_whitespace [] = true
is_whitespace (c ∷ cs) = white_space c && is_whitespace cs

abbrev pub with_preamble : List ℕ → List ℕ → List ℕ
with_preamble head cpp = if is_whitespace head then cpp else head ++ (10 ∷ cpp)

abbrev pub struct_start : List ℕ → ℕ → ℕ → List ℕ
struct_start name protocol caps =
    codes "struct "
    ++ name
    ++ codes ": L4::Kobject_t<"
    ++ name
    ++ codes ", L4::Kobject, "
    ++ decimal protocol
    ++ demand_text caps
    ++ codes "> {"
    ++ (10 ∷ [])

abbrev pub typedef : List ℕ → List ℕ → List ℕ
typedef cpp rpcs =
    without_two (cpp ++ codes "  typedef L4::Typeid::Rpcs<" ++ rpcs)
    ++ codes "> Rpcs;"
    ++ (10 ∷ codes "};" ++ (10 ∷ []))

abbrev pub default_includes : List (List ℕ) → List (List ℕ)
default_includes [] = codes "l4/sys/capability" ∷ codes "l4/sys/cxx/ipc_iface" ∷ []
default_includes (i ∷ is) = insert i (default_includes is)

abbrev pub all_written : Written → List ℕ
all_written w = with_preamble (preamble w.sets) (typedef w.cpp_iface w.rpcs)

unfoldable pub gen_cpp_interface : Iface → ExportOptions → Result (List ℕ)
gen_cpp_interface iface opts = protocol_of opts.protocol iface.iface_protocol >>= λ protocol.
    let start : Written = record {
      cpp_iface = struct_start (name_of opts.name iface.name) protocol iface.demand;
      rpcs = [];
      sets = record { namespace_usg = []; includes = default_includes opts.includes };
    } in
    gen_methods opts.type_mappings start iface.methods >>= λ w. ok (all_written w)
