-- ===== src/DriverPicker/Order.antt =====
-- `resolve_driver` of tools/driver_picker/src/main.rs and the order of a hash map.
use mathlib.Core.List.{Permᴰ}
use mathlib.Core.List.Permᴰ
use l4rerust.Base.Text.{same, same→≡, same_refl, same_comm}
use l4rerust.Base.{
  ℕ, suc, ◌≡◌, refl, ap, ap₂, ◌∙◌, sym, subst, true, false, Bool-cases, inl, inr, List, [], ◌∷◌,
  Option, none, some, All, length, arith, if◌then◌else◌,
}
use l4rerust.DriverPicker.{
  DriverInfo, DriverMap, get, find, add_match, matches, only_match, in_subsystem, resolve_driver,
}

-- The keys of the entries differ.
abbrev pub HasKeys : DriverMap → Type 0
HasKeys [] = Unit
HasKeys (entry ∷ map) = All (λ other. same entry.0 other.0 ≡ false) map × HasKeys map

module _ {ℓ κ} {A : Type ℓ} where
  All-Perm : (P : A → Type κ) {xs ys : List A} → Permᴰ xs ys → All P xs → All P ys
  All-Perm P Permᴰ.nil h = h
  All-Perm P (Permᴰ.cons e p) h = (subst P e h.0, All-Perm P p h.1)
  All-Perm P (Permᴰ.swap e e') h = (subst P e' h.1.0, (subst P e h.0, h.1.1))
  All-Perm P (Permᴰ.trans p q) h = All-Perm P q (All-Perm P p h)

HasKeys-Perm : {m m' : DriverMap} → Permᴰ m m' → HasKeys m → HasKeys m'
HasKeys-Perm Permᴰ.nil h = h
HasKeys-Perm (Permᴰ.cons {l₂ = l} e p) h = (
  subst (λ (x : List ℕ × List DriverInfo). All (λ other. same x.0 other.0 ≡ false) l) e
      (All-Perm _ p h.0),
  HasKeys-Perm p h.1,
)
HasKeys-Perm (Permᴰ.swap {a = a} {b} {a'} {b'} {l} e e') h = (
  (
    ap₂ (λ (x y : List ℕ × List DriverInfo). same x.0 y.0) (sym e') (sym e)
        ∙ same_comm a.0 b.0 h.0.0,
    subst (λ (x : List ℕ × List DriverInfo). All (λ other. same x.0 other.0 ≡ false) l) e' h.1.0,
  ),
  (
    subst (λ (x : List ℕ × List DriverInfo). All (λ other. same x.0 other.0 ≡ false) l) e h.0.1,
    h.1.1,
  ),
)
HasKeys-Perm (Permᴰ.trans p q) h = HasKeys-Perm q (HasKeys-Perm p h)

get_swapped :
    (subsystem : List ℕ) (a b : List ℕ × List DriverInfo) (l : DriverMap)
    → same a.0 b.0 ≡ false
    → get (b ∷ a ∷ l) subsystem ≡ get (a ∷ b ∷ l) subsystem
unfolding get
get_swapped s a b l h = elim (Bool-cases (same a.0 s)) [
  | inl ea ↦ elim (Bool-cases (same b.0 s)) [
    | inl eb ↦ absurd (
        let one : a.0 ≡ b.0 = same→≡ a.0 s ea ∙ sym (same→≡ b.0 s eb) in
        let yes : same a.0 b.0 ≡ true = subst (λ w. same a.0 w ≡ true) one (same_refl a.0) in cc)
    | inr eb ↦ ground arith
  ]
  | inr ea ↦ ground arith
]

get-Perm :
    (subsystem : List ℕ) {m m' : DriverMap}
    → Permᴰ m m'
    → HasKeys m
    → get m' subsystem ≡ get m subsystem
unfolding get
get-Perm s Permᴰ.nil h = refl
get-Perm s (Permᴰ.cons {a = a} {b} {l₁} {l₂} e p) h =
    let rest = get-Perm s p h.1 in
    ap (λ (x : List ℕ × List DriverInfo). if same x.0 s then some x.1 else get l₂ s) (sym e)
    ∙ ap (λ r. if same a.0 s then some a.1 else r) rest
get-Perm s (Permᴰ.swap {a = a} {b} {a'} {b'} {l} e e') h =
    ap₂ (λ x y. get (x ∷ y ∷ l) s) (sym e') (sym e) ∙ get_swapped s a b l h.0.0
get-Perm s (Permᴰ.trans p q) h = get-Perm s q (HasKeys-Perm p h) ∙ get-Perm s p h

add_match-Perm :
    (subsystem : List ℕ) (o : Option DriverInfo) {xs ys : List (List ℕ × DriverInfo)}
    → Permᴰ xs ys
    → Permᴰ (add_match subsystem o xs) (add_match subsystem o ys)
add_match-Perm s none p = p
add_match-Perm s (some d) p = Permᴰ.cons refl p

add_match_swapped :
    (s t : List ℕ) (o r : Option DriverInfo) (xs : List (List ℕ × DriverInfo))
    → Permᴰ (add_match s o (add_match t r xs)) (add_match t r (add_match s o xs))
add_match_swapped s t none r xs = add_match-Perm t r (Permᴰ.refl xs)
add_match_swapped s t (some d) none xs = Permᴰ.refl ((s, d) ∷ xs)
add_match_swapped s t (some d) (some k) xs = Permᴰ.swap refl refl

matches-Perm :
    (driver : List ℕ) {m m' : DriverMap} → Permᴰ m m' → Permᴰ (matches m driver) (matches m' driver)
unfolding matches
matches-Perm d Permᴰ.nil = Permᴰ.nil
matches-Perm d (Permᴰ.cons {a = a} {b} {l₁} {l₂} e p) =
    subst (λ x. Permᴰ (matches (a ∷ l₁) d) (matches (x ∷ l₂) d)) e
      (add_match-Perm a.0 (find a.1 d) (matches-Perm d p))
matches-Perm d (Permᴰ.swap {a = a} {b} {a'} {b'} {l} e e') =
    subst (λ x. Permᴰ (matches (a ∷ b ∷ l) d) (matches (x ∷ b' ∷ l) d)) e'
      (subst (λ x. Permᴰ (matches (a ∷ b ∷ l) d) (matches (b ∷ x ∷ l) d)) e
        (add_match_swapped a.0 b.0 (find a.1 d) (find b.1 d) (matches l d)))
matches-Perm d (Permᴰ.trans p q) = Permᴰ.trans (matches-Perm d p) (matches-Perm d q)

length-Perm : {A : Type 0} {xs ys : List A} → Permᴰ xs ys → length xs ≡ length ys
length-Perm Permᴰ.nil = refl
length-Perm (Permᴰ.cons e p) = ap suc (length-Perm p)
length-Perm (Permᴰ.swap e e') = refl
length-Perm (Permᴰ.trans p q) = length-Perm p ∙ length-Perm q

only_found :
    (a b : List ℕ × DriverInfo) (xs ys : List (List ℕ × DriverInfo))
    → a ≡ b
    → length xs ≡ length ys
    → only_match (a ∷ xs) ≡ only_match (b ∷ ys)
only_found a b [] [] e h = ap (λ (x : List ℕ × DriverInfo). only_match (x ∷ [])) e
only_found a b [] (y ∷ ys) e h = absurd (omega arith)
only_found a b (x ∷ xs) [] e h = absurd (omega arith)
only_found a b (x ∷ xs) (y ∷ ys) e h = refl

only_match-Perm : {xs ys : List (List ℕ × DriverInfo)} → Permᴰ xs ys → only_match xs ≡ only_match ys
only_match-Perm Permᴰ.nil = refl
only_match-Perm (Permᴰ.cons {a = a} {b} {l₁} {l₂} e p) = only_found a b l₁ l₂ e (length-Perm p)
only_match-Perm (Permᴰ.swap e e') = refl
only_match-Perm (Permᴰ.trans p q) = only_match-Perm p ∙ only_match-Perm q

-- In whatever order the hash map of the drivers yields its entries, whose keys differ,
-- `resolve_driver` has the same result, with a subsystem and without one.
pub resolve_driver-Perm :
    (m m' : DriverMap) (subsystem : Option (List ℕ)) (driver : List ℕ)
    → HasKeys m
    → Permᴰ m m'
    → resolve_driver m' subsystem driver ≡ resolve_driver m subsystem driver
resolve_driver-Perm m m' (some s) driver keys p = ap (in_subsystem s driver) (get-Perm s p keys)
resolve_driver-Perm m m' none driver keys p = sym (only_match-Perm (matches-Perm driver p))
