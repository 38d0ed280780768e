-- ===== src/Base/Text.antt =====
-- Text as the list of its bytes or code points: its equality.
use Prim.Native.Nat.{ℕ}
use Prim.Native.Char.{code}
use Prim.Native.String.{String}
use mathlib.Core.Path.{◌≡◌, refl, sym, ap₂, subst}
use mathlib.Core.Logic.{inl, inr}
use mathlib.Core.Bool.{Bool, true, false, ◌&&◌}
use mathlib.Core.List.{List, [], ◌∷◌}
use native.Mathlib.Omega.{arith}
use l4rerust.Base.Tests.{◌==◌, Bool-cases}

-- The code points of a literal.
abbrev pub codes : String → List ℕ
codes String.[] = []
codes (String.◌∷◌ c s) = code c ∷ codes s

abbrev pub same : List ℕ → List ℕ → Bool
same [] [] = true
same [] (d ∷ ds) = false
same (c ∷ cs) [] = false
same (c ∷ cs) (d ∷ ds) = c == d && same cs ds

pub same→≡ : (s t : List ℕ) → same s t ≡ true → s ≡ t
same→≡ [] [] h = refl
same→≡ [] (d ∷ ds) h = absurd cc
same→≡ (c ∷ cs) [] h = absurd cc
same→≡ (c ∷ cs) (d ∷ ds) h =
    let head : c ≡ d = ground arith in
    let tail : same cs ds ≡ true = ground arith in ap₂ ◌∷◌ head (same→≡ cs ds tail)

pub same_refl : (s : List ℕ) → same s s ≡ true
same_refl [] = refl
same_refl (c ∷ cs) = ground (arith, same_refl cs)

pub same_comm : (s t : List ℕ) → same s t ≡ false → same t s ≡ false
same_comm s t h = elim (Bool-cases (same t s)) [
  | inl e ↦ absurd (
      let r = same_refl s in
      let q = same→≡ t s e in
      let x : same s t ≡ true = subst (λ w. same s w ≡ true) (sym q) r in cc)
  | inr e ↦ e
]
