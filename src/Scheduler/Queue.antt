-- ===== src/Scheduler/Queue.antt =====
-- What both policies of src/crates/l4/scheduler do with their ready queue: `Vec::insert`, the search
-- of the standard library as an interface, and what an insertion at its result keeps.
use l4rerust.Base.{
  ℕ, zero, suc, ◌≤◌, ◌≡◌, refl, ap, Bool, true, false, ◌&&◌, ◌||◌, not, List, [], ◌∷◌, Option, none,
  some, map, take, drop, leb, ◌==◌, arith, if◌then◌else◌, Bool-cases, inl, inr, subst,
}

infixl 5 ◌>>=◌
abbrev pub ◌>>=◌ {ℓ κ} : {A : Type ℓ} {B : Type κ} → Option A → (A → Option B) → Option B
none >>= f = none
some a >>= f = f a

-- `xs.insert(pos, x)`
abbrev pub insert_at : ℕ → ℕ → List ℕ → List ℕ
insert_at zero x xs = x ∷ xs
insert_at (suc n) x [] = x ∷ []
insert_at (suc n) x (y ∷ ys) = y ∷ insert_at n x ys

-- `xs.contains(&x)`
abbrev pub contains : ℕ → List ℕ → Bool
contains x [] = false
contains x (y ∷ ys) = y == x || contains x ys

-- `xs.retain(|&tid| tid != x)`
abbrev pub retain_ne : ℕ → List ℕ → List ℕ
retain_ne x [] = []
retain_ne x (y ∷ ys) = if y == x then retain_ne x ys else y ∷ retain_ne x ys

-- The keys of a list of tasks, `none` where `self.tasks[tid]` panics.
abbrev pub keys_of : (ℕ → Option ℕ) → List ℕ → Option (List ℕ)
keys_of key [] = some []
keys_of key (x ∷ xs) = do k ← key x; ks ← keys_of key xs; some (k ∷ ks)

abbrev pub all_le : ℕ → List ℕ → Bool
all_le k [] = true
all_le k (x ∷ xs) = leb x k && all_le k xs

abbrev pub all_ge : ℕ → List ℕ → Bool
all_ge k [] = true
all_ge k (x ∷ xs) = leb k x && all_ge k xs

abbrev pub sorted : List ℕ → Bool
sorted [] = true
sorted (x ∷ xs) = all_ge x xs && sorted xs

abbrev pub nodup : List ℕ → Bool
nodup [] = true
nodup (x ∷ xs) = not (contains x xs) && nodup xs

-- `binary_search_by` over the keys of a slice, with `Ok` and `Err` both read as the index.
pub record Search : Type 0 where
  pub position : List ℕ → ℕ → ℕ

-- On sorted keys the index splits them: none before it is above the key and none from it on is below.
pub record SearchLaws (s : Search) : Type 0 where
  pub below : (ks : List ℕ) (k : ℕ) → sorted ks ≡ true → all_le k (take (s.position ks k) ks) ≡ true
  pub above : (ks : List ℕ) (k : ℕ) → sorted ks ≡ true → all_ge k (drop (s.position ks k) ks) ≡ true

pub map-insert_at :
    (f : ℕ → ℕ) (n x : ℕ) (xs : List ℕ) → map f (insert_at n x xs) ≡ insert_at n (f x) (map f xs)
map-insert_at f zero x xs = refl
map-insert_at f (suc n) x [] = refl
map-insert_at f (suc n) x (y ∷ ys) = ap (◌∷◌ (f y)) (map-insert_at f n x ys)

pub contains-insert_at :
    (j n x : ℕ) (xs : List ℕ) → contains j (insert_at n x xs) ≡ (x == j || contains j xs)
contains-insert_at j zero x xs = refl
contains-insert_at j (suc n) x [] = refl
contains-insert_at j (suc n) x (y ∷ ys) = ground (arith, contains-insert_at j n x ys)

pub nodup-insert_at :
    (n x : ℕ) (xs : List ℕ)
    → nodup xs ≡ true
    → contains x xs ≡ false
    → nodup (insert_at n x xs) ≡ true
nodup-insert_at zero x xs d c = ground arith
nodup-insert_at (suc n) x [] d c = refl
nodup-insert_at (suc n) x (y ∷ ys) d c =
    ground (arith, nodup-insert_at n x ys, contains-insert_at y n x ys)

pub all_ge-insert_at :
    (k n x : ℕ) (xs : List ℕ) → k ≤ x → all_ge k xs ≡ true → all_ge k (insert_at n x xs) ≡ true
all_ge-insert_at k zero x xs h a = ground arith
all_ge-insert_at k (suc n) x [] h a = ground arith
all_ge-insert_at k (suc n) x (y ∷ ys) h a = ground (arith, all_ge-insert_at k n x ys)

pub sorted-insert_at :
    (n x : ℕ) (xs : List ℕ)
    → sorted xs ≡ true
    → all_le x (take n xs) ≡ true
    → all_ge x (drop n xs) ≡ true
    → sorted (insert_at n x xs) ≡ true
sorted-insert_at zero x xs s l g = ground arith
sorted-insert_at (suc n) x [] s l g = refl
sorted-insert_at (suc n) x (y ∷ ys) s l g =
    ground (arith, sorted-insert_at n x ys, all_ge-insert_at y n x ys)

pub all_ge-weaken : (j k : ℕ) (xs : List ℕ) → j ≤ k → all_ge k xs ≡ true → all_ge j xs ≡ true
all_ge-weaken j k [] h a = refl
all_ge-weaken j k (x ∷ xs) h a = ground (arith, all_ge-weaken j k xs)

pub keys_of-known :
    (key : ℕ → Option ℕ) (total : ℕ → ℕ) (xs : List ℕ)
    → ((x : ℕ) → contains x xs ≡ true → key x ≡ some (total x))
    → keys_of key xs ≡ some (map total xs)
keys_of-known key total [] known = refl
keys_of-known key total (x ∷ xs) known =
    let rest = keys_of-known key total xs (λ y h. known y (ground arith)) in
    ground (arith, known x, rest)

pub contains-retain_ne :
    (j x : ℕ) (xs : List ℕ) → contains j (retain_ne x xs) ≡ (not (x == j) && contains j xs)
contains-retain_ne j x [] = ground arith
contains-retain_ne j x (y ∷ ys) = ground (arith, contains-retain_ne j x ys)

pub nodup-retain_ne : (x : ℕ) (xs : List ℕ) → nodup xs ≡ true → nodup (retain_ne x xs) ≡ true
nodup-retain_ne x [] d = refl
nodup-retain_ne x (y ∷ ys) d = ground (arith, nodup-retain_ne x ys, contains-retain_ne y x ys)

pub all_ge-retain_ne :
    (k x : ℕ) (f : ℕ → ℕ) (xs : List ℕ)
    → all_ge k (map f xs) ≡ true
    → all_ge k (map f (retain_ne x xs)) ≡ true
all_ge-retain_ne k x f [] a = refl
all_ge-retain_ne k x f (y ∷ ys) a = ground (arith, all_ge-retain_ne k x f ys)

pub sorted-retain_ne :
    (x : ℕ) (f : ℕ → ℕ) (xs : List ℕ)
    → sorted (map f xs) ≡ true
    → sorted (map f (retain_ne x xs)) ≡ true
sorted-retain_ne x f [] s = refl
sorted-retain_ne x f (y ∷ ys) s =
    ground (arith, sorted-retain_ne x f ys, all_ge-retain_ne (f y) x f ys)

pub map_congr_on :
    (f g : ℕ → ℕ) (xs : List ℕ) → ((x : ℕ) → contains x xs ≡ true → f x ≡ g x) → map f xs ≡ map g xs
map_congr_on f g [] same = refl
map_congr_on f g (x ∷ xs) same =
    let rest = map_congr_on f g xs (λ y h. same y (ground arith)) in ground (arith, same x, rest)

pub retain_ne-absent : (x : ℕ) (xs : List ℕ) → contains x xs ≡ false → retain_ne x xs ≡ xs
retain_ne-absent x [] h = refl
retain_ne-absent x (y ∷ ys) h = ground (arith, retain_ne-absent x ys)

-- A bound on the keys of a list, by its elements.
pub all_ge-contains :
    (k x : ℕ) (f : ℕ → ℕ) (xs : List ℕ)
    → all_ge k (map f xs) ≡ true
    → contains x xs ≡ true
    → k ≤ f x
all_ge-contains k x f [] a h = cc
all_ge-contains k x f (y ∷ ys) a h = elim (Bool-cases (y == x)) [
  | inl e ↦ let same : y ≡ x = ground arith in subst (λ z. k ≤ f z) same (ground arith)
  | inr e ↦ all_ge-contains k x f ys (ground arith) (ground arith)
]

pub all_ge-of_contains :
    (k : ℕ) (f : ℕ → ℕ) (xs : List ℕ)
    → ((x : ℕ) → contains x xs ≡ true → k ≤ f x)
    → all_ge k (map f xs) ≡ true
all_ge-of_contains k f [] each = refl
all_ge-of_contains k f (y ∷ ys) each =
    let rest = all_ge-of_contains k f ys (λ x h. each x (ground arith)) in
    ground (arith, each y, rest)
