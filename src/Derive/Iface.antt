-- ===== src/Derive/Iface.antt =====
-- crates/l4_derive/iface.rs: the op codes of the methods of an interface, its attributes and its
-- demand. An op code is an `i32` in the code; the numbers stay below 2 ^ 31 for fewer methods than that.
pub mod Opcodes
pub mod Parse
pub mod Order
pub mod Demand
use l4rerust.Base.{
  ℕ, suc, ◌+◌, ◌%◌, ◌^◌, Bool, true, false, not, ◌&&◌, Option, none, some, List, [], ◌∷◌, length,
  leb, if◌then◌else◌,
}
use l4rerust.Base.Text.{codes, same}
use l4rerust.Derive.{
  Ty, path, no_segment, reference, empty_tuple, tokens, FnArg, self_ref, self_value, inferred,
  ignored, captured, Method, Result, ok, err, ◌>>=◌,
}

pub data IfaceMethod : Type 0 where
  unnumbered : Method → IfaceMethod
  numbered : ℕ → Method → IfaceMethod

abbrev pub is_numbered : IfaceMethod → Bool
is_numbered (unnumbered m) = false
is_numbered (numbered n m) = true

abbrev pub same_type : IfaceMethod → IfaceMethod → Bool
same_type (unnumbered _) other = not (is_numbered other)
same_type (numbered _ _) other = is_numbered other

abbrev pub inner : IfaceMethod → Method
inner (unnumbered m) = m
inner (numbered _ m) = m

-- A change through `inner_mut`
abbrev pub set_inner : Method → IfaceMethod → IfaceMethod
set_inner m (unnumbered _) = unnumbered m
set_inner m (numbered n _) = numbered n m

abbrev pub set_opcode_if_unnumbered : ℕ → IfaceMethod → IfaceMethod
set_opcode_if_unnumbered opcode (unnumbered m) = numbered opcode m
set_opcode_if_unnumbered opcode (numbered n m) = numbered n m

-- The first argument is `&mut self`.
abbrev pub takes_mut_self : List FnArg → Bool
takes_mut_self (self_ref mutable ∷ _) = mutable
takes_mut_self _ = false

abbrev pub unit_type : Ty
unit_type = tokens (codes "()")

-- A method without a result has the result `()`.
abbrev pub with_output : Option Ty → Option Ty
with_output (some ty) = some ty
with_output none = some unit_type

-- The body of the loop over the methods
unfoldable pub enumerate_method : ℕ → IfaceMethod → Result IfaceMethod
enumerate_method opcode method =
    let m = inner method in
    if m.constness
    then err (codes "Const fn functions not allowed")
    else if not (takes_mut_self m.inputs)
    then err (codes "First parameter must be &mut self")
    else if m.has_default
    then err (codes "No default implementation allowed")
    else ok (
        set_opcode_if_unnumbered opcode
          (set_inner (record m { attrs = 0; output = with_output m.output }) method))

unfoldable pub enumerate_from : ℕ → List IfaceMethod → Result (List IfaceMethod)
enumerate_from opcode [] = ok []
enumerate_from opcode (method ∷ methods) = enumerate_method opcode method >>= λ m.
    enumerate_from (suc opcode) methods >>= λ ms. ok (m ∷ ms)

abbrev pub all_same_type : IfaceMethod → List IfaceMethod → Bool
all_same_type first [] = true
all_same_type first (m ∷ ms) = same_type m first && all_same_type first ms

unfoldable pub enumerate_iface_methods : List IfaceMethod → Result (List IfaceMethod)
enumerate_iface_methods [] = err (codes "Empty interfaces not allowed")
enumerate_iface_methods (first ∷ methods) =
    if all_same_type first (first ∷ methods)
    then enumerate_from 0 (first ∷ methods)
    else err (codes "Found methods both with and without an opcode")

-- Whether an argument is a capability: its type is a path that ends in `Cap`.
abbrev pub is_cap_type : Ty → Bool
is_cap_type (path ident _) = same ident (codes "Cap")
is_cap_type _ = false

abbrev pub is_cap : FnArg → Bool
is_cap (ignored ty) = is_cap_type ty
is_cap (captured _ ty) = is_cap_type ty
is_cap _ = false

abbrev pub count_caps : List FnArg → ℕ
count_caps [] = 0
count_caps (a ∷ inputs) = let rest = count_caps inputs in if is_cap a then suc rest else rest

-- The fold with a count in a `u8`; `none` is the panic of an addition that overflows.
unfoldable pub count_from : ℕ → List IfaceMethod → Option ℕ
count_from count [] = some count
count_from count (method ∷ methods) =
    let more = count + count_caps (inner method).inputs % 2 ^ 8 in
    let rest = count_from more methods in if leb (2 ^ 8) more then none else rest

abbrev pub count_demand : List IfaceMethod → Option ℕ
count_demand methods = count_from 0 methods
