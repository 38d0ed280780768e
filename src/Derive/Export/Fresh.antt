-- ===== src/Derive/Export/Fresh.antt =====
-- The names that crates/l4_derive/export.rs makes up for parameters without one.
use l4rerust.Base.{
  ℕ, zero, suc, ◌+◌, ◌≤◌, ◌<◌, ◌≡◌, refl, ap, sym, ◌∙◌, true, false, Bool-cases, inl, inr, List, [],
  ◌∷◌, length, if◌then◌else◌, if_true, if_false, arith,
}
use l4rerust.Base.Text.{same, same→≡}
use l4rerust.Derive.{ok, ◌>>=◌}
use l4rerust.Derive.Export.Types.{contains}
use l4rerust.Derive.Export.Methods.{used_now, find_letter, new_var, letters}

-- The list without the first occurrence of a text.
abbrev remove : List ℕ → List (List ℕ) → List (List ℕ)
remove t [] = []
remove t (s ∷ ss) = if same t s then ss else s ∷ remove t ss

length-remove :
    (t : List ℕ) (ss : List (List ℕ))
    → contains t ss ≡ true
    → suc (length (remove t ss)) ≡ length ss
length-remove t [] h = absurd cc
length-remove t (s ∷ ss) h = ground (arith, length-remove t ss)

abbrev letter : ℕ → List ℕ
letter n = n ∷ []

same_letters : (m n : ℕ) → n < m → same (letter m) (letter n) ≡ false
same_letters m n h = ground arith

-- The removal of a letter does not change whether a later one is there.
contains-remove :
    (m n : ℕ) (ss : List (List ℕ))
    → n < m
    → contains (letter m) (remove (letter n) ss) ≡ contains (letter m) ss
contains-remove m n [] h = refl
contains-remove m n (s ∷ ss) h = elim (Bool-cases (same (letter n) s)) [
  | inl e ↦
      let at_n : letter n ≡ s = same→≡ (letter n) s e in
      let other : same (letter m) s ≡ false =
        ap (same (letter m)) (sym at_n) ∙ same_letters m n h in
      ground (arith, e, other)
  | inr e ↦ let tail = contains-remove m n ss h in ground (arith, e, tail)
]

find_letter-remove :
    (fuel m n : ℕ) (ss : List (List ℕ))
    → n < m
    → find_letter fuel m (remove (letter n) ss) ≡ find_letter fuel m ss
unfolding find_letter
find_letter-remove zero m n ss h = refl
find_letter-remove (suc fuel) m n ss h =
    let here = contains-remove m n ss h in
    let later = find_letter-remove fuel (suc m) n ss (omega (arith, h)) in cc

-- With fewer names in use than letters are tried, one is found, and it is not in use.
find_letter_lem :
    (fuel n : ℕ) (used : List (List ℕ))
    → length used < fuel
    → (m : ℕ) × (find_letter fuel n used ≡ ok m)
      × (contains (letter m) used ≡ false)
      × (n ≤ m)
      × (m < n + fuel)
unfolding find_letter
find_letter_lem zero n used h = absurd (omega (arith, h))
find_letter_lem (suc fuel) n used h = elim (Bool-cases (contains (letter n) used)) [
  | inr e ↦ (n, if_false (contains (letter n) used) _ _ e, e, omega arith, omega arith)
  | inl e ↦
      let shorter : length (remove (letter n) used) < fuel =
        (let l = length-remove (letter n) used e in omega (arith, h, l)) in
      let (m, found, fresh, low, high) =
        find_letter_lem fuel (suc n) (remove (letter n) used) shorter in
      (
        m,
        if_true (contains (letter n) used) _ _ e
            ∙ sym (find_letter-remove fuel (suc n) n used (omega arith))
            ∙ found,
        sym (contains-remove m n used (omega (arith, low))) ∙ fresh,
        omega (arith, low),
        omega (arith, high),
      )
]

-- With fewer than 158 names in use, `new_var` ends with a name that is none of them, a character from
-- 97 to 254, and puts it to those in use.
pub new_var_lem :
    (used : List (List ℕ))
    → length used < letters
    → (n : ℕ) × (new_var used ≡ ok (used_now (n ∷ []) used))
      × (contains (n ∷ []) used ≡ false)
      × (97 ≤ n)
      × (n ≤ 254)
unfolding new_var
new_var_lem used h =
    let (n, found, fresh, low, high) = find_letter_lem letters 97 used h in
    (n, ap (λ r. r >>= λ x. ok (used_now (x ∷ []) used)) found, fresh, low, omega (arith, high))
