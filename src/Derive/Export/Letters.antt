-- ===== src/Derive/Export/Letters.antt =====
-- What the text of a method without names should be that crates/l4_derive/export.rs writes: the
-- translated types with consecutive letters.
use l4rerust.Base.{
  ℕ, suc, ◌+◌, ◌≡◌, refl, Bool, true, false, ◌&&◌, Option, none, some, List, [], ◌∷◌, ◌++◌, length,
  leb, if◌then◌else◌, arith,
}
use l4rerust.Base.Text.{codes}
use l4rerust.Derive.{
  Ty, FnArg, self_ref, self_value, inferred, ignored, captured, Method, Result, ok, err, panicked,
  ◌>>=◌,
}
use l4rerust.Derive.Export.Types.{is_empty, Mapping, Uses, Translated, translate_type}
use l4rerust.Derive.Export.References.{is_settled, is_settled-bind, translate_type-is_settled}
use l4rerust.Derive.Export.Methods.{Rpc, comma}

-- An argument without a name
abbrev pub is_unnamed : FnArg → Bool
is_unnamed (self_ref _) = true
is_unnamed self_value = true
is_unnamed (inferred r) = is_settled r
is_unnamed (ignored _) = true
is_unnamed (captured _ _) = false

abbrev pub all_unnamed : List FnArg → Bool
all_unnamed [] = true
all_unnamed (a ∷ as_rest) = is_unnamed a && all_unnamed as_rest

-- The C++ type of a parameter, and where its argument stands.
pub record Typed : Type 0 where
  pub place : ℕ
  pub type_text : List ℕ

pub record TypedAll : Type 0 where
  pub params : List Typed
  pub uses : Uses

abbrev pub first_typed : ℕ → Translated → TypedAll → TypedAll
first_typed place t all = record {
  params = record { place = place; type_text = t.text } ∷ all.params;
  uses = all.uses;
}

-- The types of the arguments but `self`, translated in their order; the first error ends it. An
-- argument with a name is no case of it.
abbrev pub types_of : List Mapping → ℕ → Uses → List FnArg → Result TypedAll
types_of ms place u [] = ok (record { params = []; uses = u })
types_of ms place u (self_ref _ ∷ args) = types_of ms (suc place) u args
types_of ms place u (self_value ∷ args) = types_of ms (suc place) u args
types_of ms place u (inferred r ∷ args) = r >>= λ ty. translate_type ms false u ty >>= λ t.
    types_of ms (suc place) t.uses args >>= λ all. ok (first_typed place t all)
types_of ms place u (ignored ty ∷ args) = translate_type ms false u ty >>= λ t.
    types_of ms (suc place) t.uses args >>= λ all. ok (first_typed place t all)
types_of ms place u (captured _ _ ∷ args) = types_of ms (suc place) u args

-- The parameters as text: type, blank, and the next letter.
abbrev pub lettered : ℕ → List Typed → List ℕ
lettered n [] = []
lettered n (p ∷ ps) = comma p.place ++ p.type_text ++ codes " " ++ (n ∷ []) ++ lettered (suc n) ps

-- The result as text, a reference with the letter `n`, or nothing for the unit type
abbrev pub result_text : ℕ → List ℕ → List ℕ
result_text n t = if is_empty t then [] else codes ", " ++ t ++ codes "& " ++ n ∷ []

pub record Written : Type 0 where
  pub text : List ℕ
  pub uses : Uses

abbrev pub returned : List Mapping → ℕ → Uses → Option Ty → Result Written
returned ms n u none = ok (record { text = []; uses = u })
returned ms n u (some ty) =
    translate_type ms true u ty >>= λ t. ok (record { text = result_text n t.text; uses = t.uses })

-- The method: the parameters have the letters from `a` on, and the result the one behind them.
abbrev pub written : List Mapping → Uses → Method → Result Written
written ms u method = types_of ms 0 u method.inputs >>= λ all.
    returned ms (97 + length all.params) all.uses method.output >>= λ r. ok (record {
      text =
          codes "  L4_INLINE_RPC(int, "
          ++ method.ident
          ++ codes ", ("
          ++ lettered 97 all.params
          ++ r.text
          ++ codes "));"
          ++ 10 ∷ [];
      uses = r.uses;
    })

-- What stays of the bookkeeping of the code
abbrev pub outcome : Result Rpc → Result Written
outcome r = r >>= λ rpc. ok (record { text = rpc.cpp; uses = rpc.sets })

-- At most `n` parameters, or an error
abbrev pub sized : ℕ → Result TypedAll → Bool
sized n (ok all) = leb (length all.params) n
sized n (err e) = true
sized n panicked = true

sized-suc : (n : ℕ) (o : Result TypedAll) → sized n o ≡ true → sized (suc n) o ≡ true
sized-suc n (ok all) h = ground arith
sized-suc n (err e) h = refl
sized-suc n panicked h = refl

sized-first :
    (n place : ℕ) (t : Translated) (o : Result TypedAll)
    → sized n o ≡ true
    → sized (suc n) (o >>= λ all. ok (first_typed place t all)) ≡ true
sized-first n place t (ok all) h = ground arith
sized-first n place t (err e) h = refl
sized-first n place t panicked h = refl

sized-typed :
    (n place : ℕ) (r : Result Translated) (f : Translated → Result TypedAll)
    → ((t : Translated) → sized n (f t) ≡ true)
    → sized (suc n) (r >>= λ t. f t >>= λ all. ok (first_typed place t all)) ≡ true
sized-typed n place (ok t) f each = sized-first n place t (f t) (each t)
sized-typed n place (err e) f each = refl
sized-typed n place panicked f each = refl

pub sized-types_of :
    (ms : List Mapping) (place : ℕ) (u : Uses) (args : List FnArg)
    → sized (length args) (types_of ms place u args) ≡ true
sized-types_of ms place u [] = refl
sized-types_of ms place u (self_ref _ ∷ args) =
    sized-suc (length args) _ (sized-types_of ms (suc place) u args)
sized-types_of ms place u (self_value ∷ args) =
    sized-suc (length args) _ (sized-types_of ms (suc place) u args)
sized-types_of ms place u (inferred (ok ty) ∷ args) =
    sized-typed (length args) place (translate_type ms false u ty) _
      (λ t. sized-types_of ms (suc place) t.uses args)
sized-types_of ms place u (inferred (err e) ∷ args) = refl
sized-types_of ms place u (inferred panicked ∷ args) = refl
sized-types_of ms place u (ignored ty ∷ args) =
    sized-typed (length args) place (translate_type ms false u ty) _
      (λ t. sized-types_of ms (suc place) t.uses args)
sized-types_of ms place u (captured _ _ ∷ args) =
    sized-suc (length args) _ (sized-types_of ms (suc place) u args)

-- No type makes the translation panic.
settled-types_of :
    (ms : List Mapping) (place : ℕ) (u : Uses) (args : List FnArg)
    → all_unnamed args ≡ true
    → is_settled (types_of ms place u args) ≡ true
settled-types_of ms place u [] h = refl
settled-types_of ms place u (self_ref _ ∷ args) h = settled-types_of ms (suc place) u args h
settled-types_of ms place u (self_value ∷ args) h = settled-types_of ms (suc place) u args h
settled-types_of ms place u (inferred (ok ty) ∷ args) h =
    is_settled-bind (translate_type ms false u ty) _ (translate_type-is_settled ms false u ty) (λ t.
      is_settled-bind (types_of ms (suc place) t.uses args) _
        (settled-types_of ms (suc place) t.uses args h) (λ all. refl))
settled-types_of ms place u (inferred (err e) ∷ args) h = refl
settled-types_of ms place u (inferred panicked ∷ args) h = absurd cc
settled-types_of ms place u (ignored ty ∷ args) h =
    is_settled-bind (translate_type ms false u ty) _ (translate_type-is_settled ms false u ty) (λ t.
      is_settled-bind (types_of ms (suc place) t.uses args) _
        (settled-types_of ms (suc place) t.uses args h) (λ all. refl))
settled-types_of ms place u (captured _ _ ∷ args) h = absurd cc

settled-returned :
    (ms : List Mapping) (n : ℕ) (u : Uses) (output : Option Ty)
    → is_settled (returned ms n u output) ≡ true
settled-returned ms n u none = refl
settled-returned ms n u (some ty) =
    is_settled-bind (translate_type ms true u ty) _ (translate_type-is_settled ms true u ty)
      (λ t. refl)

pub settled-written :
    (ms : List Mapping) (u : Uses) (method : Method)
    → all_unnamed method.inputs ≡ true
    → is_settled (written ms u method) ≡ true
settled-written ms u method h =
    is_settled-bind (types_of ms 0 u method.inputs) _ (settled-types_of ms 0 u method.inputs h)
      (λ all.
        is_settled-bind (returned ms (97 + length all.params) all.uses method.output) _
          (settled-returned ms (97 + length all.params) all.uses method.output) (λ r. refl))
