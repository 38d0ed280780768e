-- ===== src/Ipc/Slab.antt =====
-- The slab crate, which the servers keep their descriptors in: its operations and what its
-- documentation says of them. A value built from a list shows that the laws can be met.
use l4rerust.Base.{
  ℕ, zero, suc, ◌≡◌, ◌≢◌, refl, ap, List, [], ◌∷◌, ◌++◌, Option, none, some, length,
  set as list_set, ◌==◌, ==_iff, if◌then◌else◌, Bool-cases, inl, inr, arith,
}

-- `set k a` is a write through the reference that `get_mut k` returns; `remove` drops the entry.
pub record Slab : Type 1 where
  pub Table : Type 0 → Type 0
  pub new : {A : Type 0} → Table A
  pub insert : {A : Type 0} → A → Table A → ℕ × Table A
  pub get : {A : Type 0} → ℕ → Table A → Option A
  pub set : {A : Type 0} → ℕ → A → Table A → Table A
  pub remove : {A : Type 0} → ℕ → Table A → Table A

pub record SlabLaws (s : Slab) : Type 1 where
  pub get-new : {A : Type 0} (k : ℕ) → s.get {A = A} k s.new ≡ none
  pub insert_vacant : {A : Type 0} (a : A) (t : s.Table A) → s.get (s.insert a t).0 t ≡ none
  pub get-insert_self :
      {A : Type 0} (a : A) (t : s.Table A) → s.get (s.insert a t).0 (s.insert a t).1 ≡ some a
  pub get-insert_ne :
      {A : Type 0} (k : ℕ) (a : A) (t : s.Table A)
      → (s.insert a t).0 ≢ k
      → s.get k (s.insert a t).1 ≡ s.get k t
  pub get-set_self :
      {A : Type 0} (k : ℕ) (a b : A) (t : s.Table A)
      → s.get k t ≡ some b
      → s.get k (s.set k a t) ≡ some a
  pub get-set_ne :
      {A : Type 0} (j k : ℕ) (a : A) (t : s.Table A) → j ≢ k → s.get k (s.set j a t) ≡ s.get k t
  pub get-remove_self : {A : Type 0} (k : ℕ) (t : s.Table A) → s.get k (s.remove k t) ≡ none
  pub get-remove_ne :
      {A : Type 0} (j k : ℕ) (t : s.Table A) → j ≢ k → s.get k (s.remove j t) ≡ s.get k t

module _ (slab : Slab) (laws : SlabLaws slab) {A : Type 0} where
  pub get-insert :
      (k : ℕ) (a : A) (t : slab.Table A)
      → slab.get k (slab.insert a t).1 ≡ (if (slab.insert a t).0 == k then some a else slab.get k t)
  get-insert k a t = elim (Bool-cases ((slab.insert a t).0 == k)) [
    | inl e ↦ rw (e, ← (==_iff (slab.insert a t).0 k).0 e) (laws.get-insert_self a t)
    | inr e ↦ rw e (laws.get-insert_ne k a t (ground arith))
  ]

  pub get-remove :
      (j k : ℕ) (t : slab.Table A)
      → slab.get k (slab.remove j t) ≡ (if j == k then none else slab.get k t)
  get-remove j k t = elim (Bool-cases (j == k)) [
    | inl e ↦ rw (e, ← (==_iff j k).0 e) (laws.get-remove_self j t)
    | inr e ↦ rw e (laws.get-remove_ne j k t (ground arith))
  ]

  pub get-set :
      (j k : ℕ) (a b : A) (t : slab.Table A)
      → slab.get j t ≡ some b
      → slab.get k (slab.set j a t) ≡ (if j == k then some a else slab.get k t)
  get-set j k a b t h = elim (Bool-cases (j == k)) [
    | inl e ↦ rw (e, ← (==_iff j k).0 e) (laws.get-set_self j a b t h)
    | inr e ↦ rw e (laws.get-set_ne j k a t (ground arith))
  ]

-- A slab that never uses a key again.
abbrev entry_at : {A : Type 0} → ℕ → List (Option A) → Option A
entry_at k [] = none
entry_at zero (x ∷ xs) = x
entry_at (suc k) (x ∷ xs) = entry_at k xs

module _ {A : Type 0} where
  entry_at-length : (xs ys : List (Option A)) → entry_at (length xs) (xs ++ ys) ≡ entry_at 0 ys
  entry_at-length [] [] = refl
  entry_at-length [] (y ∷ ys) = refl
  entry_at-length (x ∷ xs) ys = entry_at-length xs ys

  entry_at-nil : (k : ℕ) → entry_at {A = A} k [] ≡ none
  entry_at-nil k = refl

  entry_at_end : (xs : List (Option A)) → entry_at (length xs) xs ≡ none
  entry_at_end [] = refl
  entry_at_end (x ∷ xs) = entry_at_end xs

  entry_at-append_ne :
      (k : ℕ) (a : Option A) (xs : List (Option A))
      → length xs ≢ k
      → entry_at k (xs ++ a ∷ []) ≡ entry_at k xs
  entry_at-append_ne zero a [] h = absurd (h refl)
  entry_at-append_ne (suc k) a [] h = refl
  entry_at-append_ne zero a (x ∷ xs) h = refl
  entry_at-append_ne (suc k) a (x ∷ xs) h = entry_at-append_ne k a xs (λ e. h (ap suc e))

  entry_at-set_self :
      (k : ℕ) (a : Option A) (b : A) (xs : List (Option A))
      → entry_at k xs ≡ some b
      → entry_at k (list_set xs k a) ≡ a
  entry_at-set_self k a b [] h = cc
  entry_at-set_self zero a b (x ∷ xs) h = refl
  entry_at-set_self (suc k) a b (x ∷ xs) h = entry_at-set_self k a b xs h

  entry_at-set_none : (k : ℕ) (xs : List (Option A)) → entry_at k (list_set xs k none) ≡ none
  entry_at-set_none k [] = refl
  entry_at-set_none zero (x ∷ xs) = refl
  entry_at-set_none (suc k) (x ∷ xs) = entry_at-set_none k xs

  entry_at-set_ne :
      (j k : ℕ) (a : Option A) (xs : List (Option A))
      → j ≢ k
      → entry_at k (list_set xs j a) ≡ entry_at k xs
  entry_at-set_ne j k a [] h = refl
  entry_at-set_ne zero zero a (x ∷ xs) h = absurd (h refl)
  entry_at-set_ne zero (suc k) a (x ∷ xs) h = refl
  entry_at-set_ne (suc j) zero a (x ∷ xs) h = refl
  entry_at-set_ne (suc j) (suc k) a (x ∷ xs) h = entry_at-set_ne j k a xs (λ e. h (ap suc e))

abbrev pub list_slab : Slab
list_slab = record {
  Table = λ A. List (Option A);
  new = [];
  insert = λ a t. (length t, t ++ some a ∷ []);
  get = λ k t. entry_at k t;
  set = λ k a t. list_set t k (some a);
  remove = λ k t. list_set t k none;
}

pub list_slab_laws : SlabLaws list_slab
list_slab_laws = record {
  get-new = λ k. refl;
  insert_vacant = λ a t. entry_at_end t;
  get-insert_self = λ a t. entry_at-length t (some a ∷ []);
  get-insert_ne = λ k a t h. entry_at-append_ne k (some a) t h;
  get-set_self = λ k a b t h. entry_at-set_self k (some a) b t h;
  get-set_ne = λ j k a t h. entry_at-set_ne j k (some a) t h;
  get-remove_self = λ k t. entry_at-set_none k t;
  get-remove_ne = λ j k t h. entry_at-set_ne j k none t h;
}
