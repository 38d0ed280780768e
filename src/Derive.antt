-- ===== src/Derive.antt =====
-- The procedural macros of crates/l4_derive. The syntax trees of the syn crate are data with what the
-- code tells apart; text is its code points.
pub mod Iface
pub mod Export
mod Tests
use l4rerust.Base.{ℕ, Bool, Option, List}

-- `syn::Type`: a path by its last segment, a reference, the empty tuple, and any other type by its
-- tokens without white space.
mutual
  pub data Ty : Type 0 where
    path : List ℕ → Args → Ty
    no_segment : Ty
    reference : Ty → Ty
    empty_tuple : Ty
    tokens : List ℕ → Ty

  -- `syn::PathArguments`
  pub data Args : Type 0 where
    no_args : Args
    angled : Generics → Args
    parenthesized : Args

  -- `syn::GenericArgument`, in a list
  pub data Generics : Type 0 where
    end : Generics
    lifetime : Generics → Generics
    generic : Ty → Generics → Generics
    other_argument : Generics → Generics

-- `syn::Result`, with the message of an error; `panicked` is a panic.
pub data Result (A : Type 0) : Type 0 where
  ok : A → Result A
  err : List ℕ → Result A
  panicked : Result A

infixl 5 ◌>>=◌
abbrev pub ◌>>=◌ : {A B : Type 0} → Result A → (A → Result B) → Result B
ok a >>= f = f a
err e >>= f = err e
panicked >>= f = panicked

-- `syn::FnArg`; a captured argument has a name unless its pattern is none, and an inferred one the
-- type that its pattern parses to, if it does.
pub data FnArg : Type 0 where
  self_ref : Bool → FnArg
  self_value : FnArg
  inferred : Result Ty → FnArg
  ignored : Ty → FnArg
  captured : Option (List ℕ) → Ty → FnArg

-- `syn::TraitItemMethod`; `output` is `none` for `ReturnType::Default`, and the attributes are
-- counted.
pub record Method : Type 0 where
  pub ident : List ℕ
  pub constness : Bool
  pub inputs : List FnArg
  pub output : Option Ty
  pub has_default : Bool
  pub attrs : ℕ
