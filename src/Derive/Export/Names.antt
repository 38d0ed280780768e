-- ===== src/Derive/Export/Names.antt =====
-- The text of a method that crates/l4_derive/export.rs writes, where no argument has a name.
use l4rerust.Base.{
  ℕ, zero, suc, ◌+◌, ◌≤◌, ◌<◌, ◌≡◌, refl, ap, ap₂, sym, ◌∙◌, true, false, Bool-cases, inl, inr,
  Option, none, some, List, [], ◌∷◌, ◌++◌, append-nil, append_assoc, length, ltb, if_true, if_false,
  arith,
}
use l4rerust.Base.Text.{codes}
use l4rerust.Derive.{
  Ty, FnArg, self_ref, self_value, inferred, ignored, captured, Method, Result, ok, err, panicked,
  ◌>>=◌,
}
use l4rerust.Derive.Export.Types.{contains, is_empty, Mapping, Uses, Translated, translate_type}
use l4rerust.Derive.Export.References.{is_settled}
use l4rerust.Derive.Export.Methods.{
  used_now, find_letter, new_var, letters, Rpc, param_of, choose_name, with_param, with_result,
  comma, gen_param, gen_params, gen_translated, gen_output, gen_cpp_rpc_method, rpc_start, closed,
}
use l4rerust.Derive.Export.Letters.{
  all_unnamed, TypedAll, first_typed, types_of, lettered, result_text, Written, returned, written,
  outcome, sized, sized-types_of, settled-written,
}

-- The first `k` letters, the last first
abbrev used_letters : ℕ → List (List ℕ)
used_letters zero = []
used_letters (suc k) = ((97 + k) ∷ []) ∷ used_letters k

contains_used : (n k : ℕ) → 97 ≤ n → contains (n ∷ []) (used_letters k) ≡ ltb n (97 + k)
contains_used n zero h = ground arith
contains_used n (suc k) h = ground (arith, contains_used n k h)

find_letter_used :
    (fuel n k : ℕ)
    → 97 ≤ n
    → n ≤ 97 + k
    → 97 + k < n + fuel
    → find_letter fuel n (used_letters k) ≡ ok (97 + k)
unfolding find_letter
find_letter_used zero n k low h b = absurd (omega arith)
find_letter_used (suc fuel) n k low h b = elim (Bool-cases (ltb n (97 + k))) [
  | inl e ↦
      if_true (contains (n ∷ []) (used_letters k)) _ _ (contains_used n k low ∙ e)
      ∙ find_letter_used fuel (suc n) k (omega arith) (ground arith) (omega arith)
  | inr e ↦
      if_false (contains (n ∷ []) (used_letters k)) _ _ (contains_used n k low ∙ e)
      ∙ ap (λ m. ok m) (ground arith)
]

new_var_used :
    (k : ℕ)
    → k < letters
    → new_var (used_letters k) ≡ ok (used_now ((97 + k) ∷ []) (used_letters k))
unfolding new_var
new_var_used k h =
    ap (λ r. r >>= λ n. ok (used_now (n ∷ []) (used_letters k)))
      (find_letter_used letters 97 k (omega arith) (omega arith) (omega arith))

bind_assoc :
    {A B C : Type 0} (r : Result A) (f : A → Result B) (g : B → Result C)
    → ((r >>= f) >>= g) ≡ (r >>= λ a. f a >>= g)
bind_assoc (ok a) f g = refl
bind_assoc (err e) f g = refl
bind_assoc panicked f g = refl

bind_cong :
    {A B : Type 0} (r : Result A) (f g : A → Result B)
    → ((a : A) → f a ≡ g a)
    → (r >>= f) ≡ (r >>= g)
bind_cong (ok a) f g each = each a
bind_cong (err e) f g each = refl
bind_cong panicked f g each = refl

-- The state after the parameters
abbrev rpc_at : List ℕ → ℕ → Uses → Rpc
rpc_at cpp k u = record { cpp = cpp; used_vars = used_letters k; sets = u }

abbrev with_typed : List ℕ → ℕ → TypedAll → Result Rpc
with_typed cpp k all =
    ok (rpc_at (cpp ++ lettered (97 + k) all.params) (k + length all.params) all.uses)

-- Four texts behind a text, and four and a rest
four_behind : (cpp a b c d : List ℕ) → cpp ++ a ++ b ++ c ++ d ≡ cpp ++ (a ++ b ++ c ++ d)
four_behind cpp a b c d =
    ap (λ x. x ++ c ++ d) (append_assoc cpp a b)
    ∙ ap (λ x. x ++ d) (append_assoc cpp (a ++ b) c)
    ∙ append_assoc cpp (a ++ b ++ c) d

five_behind :
    (cpp a b c d e : List ℕ) → cpp ++ a ++ b ++ c ++ d ++ e ≡ cpp ++ (a ++ b ++ c ++ d ++ e)
five_behind cpp a b c d e =
    ap (λ x. x ++ e) (four_behind cpp a b c d) ∙ append_assoc cpp (a ++ b ++ c ++ d) e

module _ (ms : List Mapping) (k place : ℕ) (args : List FnArg)
    (later : (cpp : List ℕ) (u : Uses)
      → gen_params ms (suc place) (rpc_at cpp (suc k) u) args
        ≡ (types_of ms (suc place) u args >>= λ all. with_typed cpp (suc k) all)) where
  -- The name is there, and the type is translated.
  then_letter :
      (cpp : List ℕ) (u : Uses) (r : Result Translated)
      → ((r >>= λ t.
            ok (with_param place (rpc_at cpp k u) (used_now ((97 + k) ∷ []) (used_letters k)) t))
          >>= λ x. gen_params ms (suc place) x args)
        ≡ ((r >>= λ t. types_of ms (suc place) t.uses args >>= λ all. ok (first_typed place t all))
            >>= λ all. with_typed cpp k all)
  then_letter cpp u (ok t) =
      later (cpp ++ comma place ++ t.text ++ codes " " ++ (97 + k) ∷ []) t.uses
      ∙ bind_cong (types_of ms (suc place) t.uses args) _ _ (λ all.
        let next : 97 + suc k ≡ suc (97 + k) = omega arith in
        let sum : suc k + length all.params ≡ k + suc (length all.params) = omega arith in
        ap
          (λ m. ok (
            rpc_at
              (cpp ++ comma place ++ t.text ++ codes " " ++ (97 + k) ∷ [] ++ lettered m all.params)
              (suc k + length all.params) all.uses))
          next
        ∙ ap₂ (λ c n. ok (rpc_at c n all.uses))
            (five_behind cpp (comma place) t.text (codes " ") ((97 + k) ∷ [])
              (lettered (suc (97 + k)) all.params))
            sum)
      ∙ sym (bind_assoc (types_of ms (suc place) t.uses args) _ _)
  then_letter cpp u (err e) = refl
  then_letter cpp u panicked = refl

  typed_letter :
      (cpp : List ℕ) (u : Uses) (ty : Ty)
      → k < letters
      → (gen_param ms place (rpc_at cpp k u) (some (record { ident = []; type_of = ty })) >>= λ r.
          gen_params ms (suc place) r args)
        ≡ ((translate_type ms false u ty >>= λ t.
              types_of ms (suc place) t.uses args >>= λ all. ok (first_typed place t all))
            >>= λ all. with_typed cpp k all)
  unfolding gen_param choose_name
  typed_letter cpp u ty b =
      ap
        (λ v.
          (v >>= λ x.
          translate_type ms false u ty >>= λ t. ok (with_param place (rpc_at cpp k u) x t))
          >>= λ r. gen_params ms (suc place) r args)
        (new_var_used k b)
      ∙ then_letter cpp u (translate_type ms false u ty)

-- The parameters without a name, with `k` letters in use
gen_params-letters :
    (ms : List Mapping) (k place : ℕ) (cpp : List ℕ) (u : Uses) (args : List FnArg)
    → all_unnamed args ≡ true
    → k + length args ≤ letters
    → gen_params ms place (rpc_at cpp k u) args
      ≡ (types_of ms place u args >>= λ all. with_typed cpp k all)
unfolding gen_params param_of gen_param
gen_params-letters ms k place cpp u [] h b =
    ap₂ (λ c n. ok (rpc_at c n u)) (sym (append-nil cpp)) (omega arith)
gen_params-letters ms k place cpp u (self_ref _ ∷ args) h b =
    gen_params-letters ms k (suc place) cpp u args h (omega arith)
gen_params-letters ms k place cpp u (self_value ∷ args) h b =
    gen_params-letters ms k (suc place) cpp u args h (omega arith)
gen_params-letters ms k place cpp u (inferred (ok ty) ∷ args) h b =
    typed_letter ms k place args
      (λ c v. gen_params-letters ms (suc k) (suc place) c v args h (omega (arith, b))) cpp u ty
      (omega (arith, b))
gen_params-letters ms k place cpp u (inferred (err e) ∷ args) h b = refl
gen_params-letters ms k place cpp u (inferred panicked ∷ args) h b = refl
gen_params-letters ms k place cpp u (ignored ty ∷ args) h b =
    typed_letter ms k place args
      (λ c v. gen_params-letters ms (suc k) (suc place) c v args h (omega (arith, b))) cpp u ty
      (omega (arith, b))
gen_params-letters ms k place cpp u (captured _ _ ∷ args) h b = absurd cc

-- The end of the text, behind `cpp`
abbrev ended : List ℕ → Written → Result Written
ended cpp r = ok (record { text = cpp ++ r.text ++ codes "));" ++ 10 ∷ []; uses = r.uses })

ended_result :
    (k : ℕ) (cpp : List ℕ) (u : Uses) (r : Result Translated)
    → k < letters
    → outcome ((r >>= λ t. gen_translated (rpc_at cpp k u) t) >>= λ x. ok (closed x)) ≡ (
        (r >>= λ t. ok (record { text = result_text (97 + k) t.text; uses = t.uses })) >>= λ x.
        ended cpp x)
unfolding gen_translated
ended_result k cpp u (ok t) h = elim (Bool-cases (is_empty t.text)) [
  | inl e ↦
      ap (λ x. outcome (x >>= λ y. ok (closed y))) (if_true (is_empty t.text) _ _ e)
      ∙ ap (λ c. ok (record { text = c ++ codes "));" ++ 10 ∷ []; uses = t.uses }))
          (sym (append-nil cpp))
      ∙ ap (λ r. ended cpp (record { text = r; uses = t.uses }))
          (sym (if_true (is_empty t.text) _ _ e))
  | inr e ↦
      ap (λ x. outcome (x >>= λ y. ok (closed y))) (if_false (is_empty t.text) _ _ e)
      ∙ ap
          (λ v. outcome ((v >>= λ w. ok (with_result (rpc_at cpp k u) w t)) >>= λ y. ok (closed y)))
          (new_var_used k h)
      ∙ ap (λ c. ok (record { text = c ++ codes "));" ++ 10 ∷ []; uses = t.uses }))
          (four_behind cpp (codes ", ") t.text (codes "& ") ((97 + k) ∷ []))
      ∙ ap (λ r. ended cpp (record { text = r; uses = t.uses }))
          (sym (if_false (is_empty t.text) _ _ e))
]
ended_result k cpp u (err e) h = refl
ended_result k cpp u panicked h = refl

gen_output-letter :
    (ms : List Mapping) (k : ℕ) (cpp : List ℕ) (u : Uses) (output : Option Ty)
    → k < letters
    → outcome (gen_output ms (rpc_at cpp k u) output >>= λ x. ok (closed x))
      ≡ (returned ms (97 + k) u output >>= λ x. ended cpp x)
unfolding gen_output
gen_output-letter ms k cpp u none h =
    ap (λ c. ok (record { text = c ++ codes "));" ++ 10 ∷ []; uses = u })) (sym (append-nil cpp))
gen_output-letter ms k cpp u (some ty) h = ended_result k cpp u (translate_type ms true u ty) h

-- The result behind the parameters
written_result :
    (ms : List Mapping) (u : Uses) (method : Method) (o : Result TypedAll) (n : ℕ)
    → sized n o ≡ true
    → n < letters
    → outcome (
        (o >>= λ all. with_typed (rpc_start u method).cpp 0 all) >>= λ rpc.
        gen_output ms rpc method.output >>= λ r. ok (closed r))
      ≡ (o >>= λ all. returned ms (97 + length all.params) all.uses method.output >>= λ r.
          ended
            (codes "  L4_INLINE_RPC(int, " ++ method.ident ++ codes ", (" ++ lettered 97 all.params)
            r)
written_result ms u method (ok all) n size h =
    let few : length all.params < letters = ground arith in
    let sum : 0 + length all.params ≡ length all.params = omega arith in
    ap
      (λ k. outcome (
        gen_output ms (rpc_at ((rpc_start u method).cpp ++ lettered 97 all.params) k all.uses)
          method.output
        >>= λ r. ok (closed r)))
      sum
    ∙ gen_output-letter ms (length all.params) ((rpc_start u method).cpp ++ lettered 97 all.params)
        all.uses method.output few
written_result ms u method (err e) n size h = refl
written_result ms u method panicked n size h = refl

-- For a method of fewer than 158 arguments, `self` among them, none with a name: the text that is
-- written has the translated types of the arguments in their order, each with the next letter from `a`
-- on, and behind them the result, if it has a type, with the letter that follows. It fails exactly
-- where the translation of a type fails, with that error, and never panics for want of a name.
pub gen_cpp_rpc_method-written :
    (ty_mappings : List Mapping) (sets : Uses) (method : Method)
    → all_unnamed method.inputs ≡ true
    → length method.inputs < 158
    → (outcome (gen_cpp_rpc_method ty_mappings sets method) ≡ written ty_mappings sets method)
      × (is_settled (written ty_mappings sets method) ≡ true)
unfolding gen_cpp_rpc_method
gen_cpp_rpc_method-written ms sets method h b = (
  ap (λ o. outcome (o >>= λ rpc. gen_output ms rpc method.output >>= λ r. ok (closed r)))
        (gen_params-letters ms 0 0 (rpc_start sets method).cpp sets method.inputs h
          (omega (arith, b)))
      ∙ written_result ms sets method (types_of ms 0 sets method.inputs) (length method.inputs)
          (sized-types_of ms 0 sets method.inputs) b,
  settled-written ms sets method h,
)
