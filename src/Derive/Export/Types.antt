-- ===== src/Derive/Export/Types.antt =====
-- The translation of types of crates/l4_derive/export.rs. Sets and maps are lists; a set has no text
-- twice.
use l4rerust.Base.{
  ℕ, ◌-◌, Bool, true, false, ◌||◌, Option, none, some, List, [], ◌∷◌, ◌++◌, length, take,
  if◌then◌else◌,
}
use l4rerust.Base.Text.{codes, same}
use l4rerust.Derive.{
  Ty, path, no_segment, reference, empty_tuple, tokens, Args, no_args, angled, parenthesized,
  Generics, end, lifetime, generic, other_argument, Result, ok, err, ◌>>=◌,
}

abbrev pub contains : List ℕ → List (List ℕ) → Bool
contains t [] = false
contains t (s ∷ ss) = same t s || contains t ss

abbrev pub insert : List ℕ → List (List ℕ) → List (List ℕ)
insert t ss = if contains t ss then ss else t ∷ ss

abbrev pub is_empty : List ℕ → Bool
is_empty [] = true
is_empty (_ ∷ _) = false

-- An entry of a map from names to names
pub record Entry : Type 0 where
  pub key : List ℕ
  pub value : List ℕ

abbrev pub get : List ℕ → List Entry → Option (List ℕ)
get k [] = none
get k (e ∷ es) = if same k e.key then some e.value else get k es

abbrev to_name : List ℕ → List ℕ → Entry
to_name k v = record { key = k; value = v }

abbrev pub rust2cpp_type : List Entry
rust2cpp_type =
    to_name (codes "char") (codes "char")
    ∷ to_name (codes "i8") (codes "char")
    ∷ to_name (codes "u8") (codes "unsigned char")
    ∷ to_name (codes "i16") (codes "l4_int16_t")
    ∷ to_name (codes "u16") (codes "l4_uint16_t")
    ∷ to_name (codes "i32") (codes "l4_int32_t")
    ∷ to_name (codes "u32") (codes "l4_uint32_t")
    ∷ to_name (codes "i64") (codes "l4_int64_t")
    ∷ to_name (codes "u64") (codes "l4_uint64_t")
    ∷ to_name (codes "f32") (codes "float")
    ∷ to_name (codes "f64") (codes "double")
    ∷ to_name (codes "usize") (codes "l4_umword_t")
    ∷ to_name (codes "isize") (codes "l4_mword_t")
    ∷ to_name (codes "bool") (codes "bool")
    ∷ to_name (codes "Option") (codes "Opt")
    ∷ to_name (codes "Cap") (codes "Cap")
    ∷ to_name (codes "String") (codes "String<>")
    ∷ to_name (codes "str") (codes "String<>")
    ∷ []

abbrev pub rust2cpp_output : List Entry
rust2cpp_output =
    to_name (codes "String") (codes "String<char>")
    ∷ to_name (codes "str") (codes "String<char>")
    ∷ []

-- A name space and, if there is one, the file to include
pub record Decl : Type 0 where
  pub namespace : List ℕ
  pub include : Option (List ℕ)

abbrev decl : List ℕ → List ℕ → Decl
decl n i = record { namespace = n; include = some i }

abbrev pub cpptype2namespace : List ℕ → Option Decl
cpptype2namespace t =
    if same t (codes "Opt")
    then some (decl (codes "L4::Ipc::Opt") (codes "l4/sys/cxx/ipc_types"))
    else if same t (codes "Cap")
    then some (decl (codes "L4::Ipc::Cap") (codes "l4/sys/capability"))
    else if same t (codes "String")
    then some (decl (codes "L4::Ipc::String") (codes "l4/sys/cxx/ipc_string"))
    else if same t (codes "Dataspace")
    then some (decl (codes "L4Re::Dataspace") (codes "l4/re/dataspace"))
    else none

-- An entry of `TypeMappings`
pub record Mapping : Type 0 where
  pub rust : List ℕ
  pub mapped_namespace : List ℕ
  pub mapped_type : List ℕ

abbrev pub mapping_of : List ℕ → List Mapping → Option Mapping
mapping_of t [] = none
mapping_of t (m ∷ ms) = if same t m.rust then some m else mapping_of t ms

-- The two sets that a translation adds to.
pub record Uses : Type 0 where
  pub namespace_usg : List (List ℕ)
  pub includes : List (List ℕ)

-- A type in C++, and the sets after it.
pub record Translated : Type 0 where
  pub text : List ℕ
  pub uses : Uses

abbrev pub or_else : Option (List ℕ) → List ℕ → List ℕ
or_else (some t) d = t
or_else none d = d

abbrev mapped : Option Mapping → Option (List ℕ) → List ℕ → List ℕ
mapped (some m) table main = m.mapped_type
mapped none table main = or_else table main

abbrev pub input_name : List Mapping → List ℕ → List ℕ
input_name additional main = mapped (mapping_of main additional) (get main rust2cpp_type) main

abbrev pub translated_name : List Mapping → Bool → List ℕ → List ℕ
translated_name additional is_output main =
    if is_output
    then or_else (get main rust2cpp_output) (input_name additional main)
    else input_name additional main

abbrev additional_decl : Option Mapping → Option Decl
additional_decl (some m) = some (record { namespace = m.mapped_namespace; include = none })
additional_decl none = none

abbrev decl_or : Option Decl → Option Decl → Option Decl
decl_or (some d) other = some d
decl_or none other = other

abbrev add_include : Option (List ℕ) → List (List ℕ) → List (List ℕ)
add_include (some i) is = insert i is
add_include none is = is

abbrev add_decl : Option Decl → Uses → Uses
add_decl (some d) u = record {
  namespace_usg = insert d.namespace u.namespace_usg;
  includes = add_include d.include u.includes;
}
add_decl none u = u

abbrev pub declared : List Mapping → List ℕ → Uses → Uses
declared additional main u =
    add_decl (decl_or (cpptype2namespace main) (additional_decl (mapping_of main additional))) u

-- The type with its generics, without the last ", " of them.
abbrev pub with_generics : List ℕ → List ℕ → List ℕ
with_generics name [] = name
with_generics name (c ∷ cs) = name ++ codes "<" ++ take (length (c ∷ cs) - 2) (c ∷ cs) ++ codes ">"

abbrev pub no_unit : List ℕ → List ℕ
no_unit t = if same t (codes "()") then [] else t

abbrev pub finished : List ℕ → Translated → Translated
finished name generics = record generics { text = no_unit (with_generics name generics.text) }

abbrev pub pushed : List ℕ → Translated → Translated
pushed before t = record t { text = before ++ codes ", " ++ t.text }

abbrev pub unit_or_refused : Uses → List ℕ → Result Translated
unit_or_refused u n =
    if same n (codes "()")
    then ok (record { text = []; uses = u })
    else err (codes "Unrecognised type expression: " ++ n)

unfoldable mutual
  pub translate_type : List Mapping → Bool → Uses → Ty → Result Translated
  translate_type additional is_output u empty_tuple = ok (record { text = []; uses = u })
  translate_type additional is_output u (reference ty) = translate_type additional is_output u ty
  translate_type additional is_output u (tokens n) = unit_or_refused u n
  translate_type additional is_output u no_segment = err (codes "Invalid type specification")
  translate_type additional is_output u (path main args) =
      translate_args additional is_output (declared additional main u) args >>= λ g.
      ok (finished (translated_name additional is_output main) g)

  pub translate_args : List Mapping → Bool → Uses → Args → Result Translated
  translate_args additional is_output u no_args = ok (record { text = []; uses = u })
  translate_args additional is_output u (angled gs) = translate_generics additional is_output u gs
  translate_args additional is_output u parenthesized =
      err (codes "Only types with generic types supported, got: ")

  -- The generics, each with ", " behind it
  pub translate_generics : List Mapping → Bool → Uses → Generics → Result Translated
  translate_generics additional is_output u end = ok (record { text = []; uses = u })
  translate_generics additional is_output u (lifetime gs) =
      translate_generics additional is_output u gs >>= λ g. ok (pushed [] g)
  translate_generics additional is_output u (generic ty gs) =
      translate_type additional is_output u ty >>= λ t.
      translate_generics additional is_output t.uses gs >>= λ g. ok (pushed t.text g)
  translate_generics additional is_output u (other_argument gs) =
      err (codes "Invalid type parameter")
