-- ===== src/Derive/Iface/Opcodes.antt =====
-- The op codes that crates/l4_derive/iface.rs gives to methods, and the dispatch of
-- crates/l4/ipc/iface.rs by them.
use l4rerust.Base.{
  ℕ, zero, suc, ◌+◌, ◌≡◌, refl, ap, ap₂, sym, ◌∙◌, Bool, true, not, ◌&&◌, Option, none, some, List,
  [], ◌∷◌, map, get_elem?, if_true, if_false, arith,
}
use l4rerust.Base.Int.{pos, eq_ℤ}
use l4rerust.L4.Rpc.{Arm, find_arm}
use l4rerust.Derive.{Method, ok, ◌>>=◌}
use l4rerust.Derive.Iface.{
  IfaceMethod, unnumbered, numbered, all_same_type, takes_mut_self, with_output, enumerate_method,
  enumerate_from, enumerate_iface_methods,
}

-- A method that the macro takes.
abbrev pub is_callable : Method → Bool
is_callable m = not m.constness && (takes_mut_self m.inputs && not m.has_default)

abbrev pub all_callable : List Method → Bool
all_callable [] = true
all_callable (m ∷ ms) = is_callable m && all_callable ms

-- The method without attributes and with a result.
abbrev pub clean : Method → Method
clean m = record m { attrs = 0; output = with_output m.output }

enumerate-unnumbered :
    (n : ℕ) (m : Method)
    → is_callable m ≡ true
    → enumerate_method n (unnumbered m) ≡ ok (numbered n (clean m))
unfolding enumerate_method
enumerate-unnumbered n m h = ground arith

abbrev number_from : ℕ → List Method → List IfaceMethod
number_from n [] = []
number_from n (m ∷ ms) = numbered n (clean m) ∷ number_from (suc n) ms

enumerate_from-unnumbered :
    (n : ℕ) (ms : List Method)
    → all_callable ms ≡ true
    → enumerate_from n (map unnumbered ms) ≡ ok (number_from n ms)
unfolding enumerate_from
enumerate_from-unnumbered n [] h = refl
enumerate_from-unnumbered n (m ∷ ms) h =
    let this : is_callable m ≡ true = ground (arith, h) in
    let others : all_callable ms ≡ true = ground (arith, h) in
    ap (λ r. r >>= λ x. enumerate_from (suc n) (map unnumbered ms) >>= λ xs. ok (x ∷ xs))
      (enumerate-unnumbered n m this)
    ∙ ap (λ r. r >>= λ xs. ok (numbered n (clean m) ∷ xs))
        (enumerate_from-unnumbered (suc n) ms others)

all_unnumbered :
    (f : Method) (ms : List Method) → all_same_type (unnumbered f) (map unnumbered ms) ≡ true
all_unnumbered f [] = refl
all_unnumbered f (m ∷ ms) = all_unnumbered f ms

-- The arms of the dispatch, by what stands for a method there; `none` is the panic on a method without
-- an op code.
module _ {S : Type 0} (arm : Method → Arm S) where
  abbrev pub numbered_arm : ℕ → Method → Arm S
  numbered_arm n m = record (arm m) { opcode = n }

  abbrev prepended : Arm S → Option (List (Arm S)) → Option (List (Arm S))
  prepended a none = none
  prepended a (some arms) = some (a ∷ arms)

  abbrev pub arms_of : List IfaceMethod → Option (List (Arm S))
  arms_of [] = some []
  arms_of (unnumbered m ∷ ms) = none
  arms_of (numbered n m ∷ ms) = prepended (numbered_arm n m) (arms_of ms)

  abbrev arms_from : ℕ → List Method → List (Arm S)
  arms_from n [] = []
  arms_from n (m ∷ ms) = numbered_arm n (clean m) ∷ arms_from (suc n) ms

  arms_of-number_from :
      (n : ℕ) (ms : List Method) → arms_of (number_from n ms) ≡ some (arms_from n ms)
  arms_of-number_from n [] = refl
  arms_of-number_from n (m ∷ ms) =
      ap (prepended (numbered_arm n (clean m))) (arms_of-number_from (suc n) ms)

  -- The arm of the `i`-th method is the first with its op code.
  find_arm-arms_from :
      (n i : ℕ) (ms : List Method) (m : Method)
      → get_elem? ms i ≡ some m
      → find_arm (pos (n + i)) (arms_from n ms) ≡ some (numbered_arm (n + i) (clean m))
  unfolding find_arm
  find_arm-arms_from n i [] m h = absurd cc
  find_arm-arms_from n zero (x ∷ ms) m h =
      let e : n + 0 ≡ n = omega arith in
      let same : x ≡ m = cc in
      if_true (eq_ℤ (pos (n + 0)) (pos n)) _ _ (ground (arith, e))
      ∙ ap₂ (λ k y. some (numbered_arm k (clean y))) (sym e) same
  find_arm-arms_from n (suc i) (x ∷ ms) m h =
      let e : suc n + i ≡ n + suc i = omega arith in
      if_false (eq_ℤ (pos (n + suc i)) (pos n)) _ _ (ground arith)
      ∙ ap (λ k. find_arm (pos k) (arms_from (suc n) ms)) (sym e)
      ∙ find_arm-arms_from (suc n) i ms m h
      ∙ ap (λ k. some (numbered_arm k (clean m))) e

  -- For an interface whose methods have no op codes and are callable, and its `i`-th method: the
  -- methods are taken, and the dispatch that is generated finds under the number `i` the arm of that
  -- method.
  pub find_arm-enumerate_iface_methods :
      (first : Method) (ms : List Method) (i : ℕ) (m : Method)
      → all_callable (first ∷ ms) ≡ true
      → get_elem? (first ∷ ms) i ≡ some m
      → (numbers : List IfaceMethod) × (arms : List (Arm S)) × (enumerate_iface_methods
            (map unnumbered (first ∷ ms))
          ≡ ok numbers)
        × (arms_of numbers ≡ some arms)
        × (find_arm (pos i) arms ≡ some (numbered_arm i (clean m)))
  unfolding enumerate_iface_methods
  find_arm-enumerate_iface_methods first ms i m callable h =
      let e : 0 + i ≡ i = omega arith in
      (
        number_from 0 (first ∷ ms),
        arms_from 0 (first ∷ ms),
        if_true (all_same_type (unnumbered first) (map unnumbered (first ∷ ms))) _ _
              (all_unnumbered first (first ∷ ms))
            ∙ enumerate_from-unnumbered 0 (first ∷ ms) callable,
        arms_of-number_from 0 (first ∷ ms),
        ap (λ k. find_arm (pos k) (arms_from 0 (first ∷ ms))) (sym e)
            ∙ find_arm-arms_from 0 i (first ∷ ms) m h
            ∙ ap (λ k. some (numbered_arm k (clean m))) e,
      )
