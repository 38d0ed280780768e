-- ===== src/Derive/Export/References.antt =====
-- The translation of types in crates/l4_derive/export.rs goes through references, and never panics.
use l4rerust.Base.{
  ℕ, ◌≡◌, refl, ap, ◌∙◌, Bool, true, false, List, [], Bool-cases, inl, inr, if_true, if_false,
}
use l4rerust.Base.Text.{codes, same}
use l4rerust.Derive.{
  Ty, path, no_segment, reference, empty_tuple, tokens, Args, no_args, angled, parenthesized,
  Generics, end, lifetime, generic, other_argument, Result, ok, err, panicked, ◌>>=◌,
}
use l4rerust.Derive.Export.Types.{
  Mapping, Uses, translate_type, translate_args, translate_generics, declared, pushed, finished,
  translated_name, unit_or_refused,
}

-- A result or an error, not a panic.
abbrev pub is_settled : {A : Type 0} → Result A → Bool
is_settled (ok a) = true
is_settled (err e) = true
is_settled panicked = false

pub is_settled-bind :
    {A B : Type 0} (r : Result A) (f : A → Result B)
    → is_settled r ≡ true
    → ((a : A) → is_settled (f a) ≡ true)
    → is_settled (r >>= f) ≡ true
is_settled-bind (ok a) f h each = each a
is_settled-bind (err e) f h each = refl
is_settled-bind panicked f h each = absurd cc

is_settled-unit_or_refused : (u : Uses) (n : List ℕ) → is_settled (unit_or_refused u n) ≡ true
is_settled-unit_or_refused u n = elim (Bool-cases (same n (codes "()"))) [
  | inl e ↦ ap is_settled (if_true (same n (codes "()")) _ _ e)
  | inr e ↦ ap is_settled (if_false (same n (codes "()")) _ _ e)
]

mutual
  unfolding translate_type

  type_settled :
      (ms : List Mapping) (out : Bool) (u : Uses) (ty : Ty)
      → is_settled (translate_type ms out u ty) ≡ true
  type_settled ms out u empty_tuple = refl
  type_settled ms out u (reference ty) = type_settled ms out u ty
  type_settled ms out u (tokens n) = is_settled-unit_or_refused u n
  type_settled ms out u no_segment = refl
  type_settled ms out u (path main args) =
      is_settled-bind (translate_args ms out (declared ms main u) args)
        (λ g. ok (finished (translated_name ms out main) g))
        (args_settled ms out (declared ms main u) args) (λ g. refl)

  args_settled :
      (ms : List Mapping) (out : Bool) (u : Uses) (args : Args)
      → is_settled (translate_args ms out u args) ≡ true
  args_settled ms out u no_args = refl
  args_settled ms out u (angled gs) = generics_settled ms out u gs
  args_settled ms out u parenthesized = refl

  generics_settled :
      (ms : List Mapping) (out : Bool) (u : Uses) (gs : Generics)
      → is_settled (translate_generics ms out u gs) ≡ true
  generics_settled ms out u end = refl
  generics_settled ms out u (lifetime gs) =
      is_settled-bind (translate_generics ms out u gs) (λ g. ok (pushed [] g))
        (generics_settled ms out u gs) (λ g. refl)
  generics_settled ms out u (generic ty gs) =
      is_settled-bind (translate_type ms out u ty)
        (λ t. translate_generics ms out t.uses gs >>= λ g. ok (pushed t.text g))
        (type_settled ms out u ty)
        (λ t.
          is_settled-bind (translate_generics ms out t.uses gs) (λ g. ok (pushed t.text g))
            (generics_settled ms out t.uses gs) (λ g. refl))
  generics_settled ms out u (other_argument gs) = refl

-- A translation gives a type or an error, and never panics.
pub translate_type-is_settled :
    (ms : List Mapping) (out : Bool) (u : Uses) (ty : Ty)
    → is_settled (translate_type ms out u ty) ≡ true
translate_type-is_settled = type_settled

-- The type without its references, at every level.
mutual
  by_value : Ty → Ty
  by_value (path main args) = path main (args_by_value args)
  by_value no_segment = no_segment
  by_value (reference ty) = by_value ty
  by_value empty_tuple = empty_tuple
  by_value (tokens n) = tokens n

  args_by_value : Args → Args
  args_by_value no_args = no_args
  args_by_value (angled gs) = angled (generics_by_value gs)
  args_by_value parenthesized = parenthesized

  generics_by_value : Generics → Generics
  generics_by_value end = end
  generics_by_value (lifetime gs) = lifetime (generics_by_value gs)
  generics_by_value (generic ty gs) = generic (by_value ty) (generics_by_value gs)
  generics_by_value (other_argument gs) = other_argument (generics_by_value gs)

bind_same :
    {A B : Type 0} (r : Result A) (f g : A → Result B) → ((a : A) → f a ≡ g a) → r >>= f ≡ r >>= g
bind_same (ok a) f g each = each a
bind_same (err e) f g each = refl
bind_same panicked f g each = refl

mutual
  unfolding translate_type by_value

  same_type :
      (ms : List Mapping) (out : Bool) (u : Uses) (ty : Ty)
      → translate_type ms out u (by_value ty) ≡ translate_type ms out u ty
  same_type ms out u empty_tuple = refl
  same_type ms out u (reference ty) = same_type ms out u ty
  same_type ms out u (tokens n) = refl
  same_type ms out u no_segment = refl
  same_type ms out u (path main args) =
      ap (λ r. r >>= λ g. ok (finished (translated_name ms out main) g))
        (same_args ms out (declared ms main u) args)

  same_args :
      (ms : List Mapping) (out : Bool) (u : Uses) (args : Args)
      → translate_args ms out u (args_by_value args) ≡ translate_args ms out u args
  same_args ms out u no_args = refl
  same_args ms out u (angled gs) = same_generics ms out u gs
  same_args ms out u parenthesized = refl

  same_generics :
      (ms : List Mapping) (out : Bool) (u : Uses) (gs : Generics)
      → translate_generics ms out u (generics_by_value gs) ≡ translate_generics ms out u gs
  same_generics ms out u end = refl
  same_generics ms out u (lifetime gs) =
      ap (λ r. r >>= λ g. ok (pushed [] g)) (same_generics ms out u gs)
  same_generics ms out u (generic ty gs) =
      ap
        (λ r. r >>= λ t.
          translate_generics ms out t.uses (generics_by_value gs) >>= λ g. ok (pushed t.text g))
        (same_type ms out u ty)
      ∙ bind_same (translate_type ms out u ty) _ _
          (λ t. ap (λ r. r >>= λ g. ok (pushed t.text g)) (same_generics ms out t.uses gs))
  same_generics ms out u (other_argument gs) = refl

-- References do not matter: a type has the same translation, and adds the same to the sets, as the
-- type without any reference, also within its generics.
translate_type-by_value :
    (additional : List Mapping) (is_output : Bool) (u : Uses) (ty : Ty)
    → translate_type additional is_output u (by_value ty) ≡ translate_type additional is_output u ty
translate_type-by_value = same_type
