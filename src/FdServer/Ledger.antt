-- ===== src/FdServer/Ledger.antt =====
-- The abstract view of the tables of src/fd_server/src/main.rs: which descriptor each handle holds,
-- beside the descriptors that the kernel has open. A request moves this view by one step.
use l4rerust.Base.{
  ◌≡◌, sym, ◌∙◌, ◌⊎◌, inl, inr, Bool, true, false, Option, none, some, arith, Bool-cases,
  if◌then◌else◌, ◌↔◌,
}
use l4rerust.Base.Int.{ℤ, eq_ℤ, eq_ℤ_refl, eq_ℤ→eq}

module _ {K : Type 0} (same : K → K → Bool) where
  pub data Move (look look' : K → Option ℤ) (open_fds open_fds' : ℤ → Bool) : Type 0 where
    keep :
        ((j : K) → look' j ≡ look j)
        → ((g : ℤ) → open_fds' g ≡ open_fds g)
        → Move look look' open_fds open_fds'
    opens :
        (k : K) (fd : ℤ)
        → look k ≡ none
        → open_fds fd ≡ false
        → ((j : K) → look' j ≡ (if same k j then some fd else look j))
        → ((g : ℤ) → open_fds' g ≡ (if eq_ℤ fd g then true else open_fds g))
        → Move look look' open_fds open_fds'
    closes :
        (k : K) (fd : ℤ)
        → look k ≡ some fd
        → ((j : K) → look' j ≡ (if same k j then none else look j))
        → ((g : ℤ) → open_fds' g ≡ (if eq_ℤ fd g then false else open_fds g))
        → Move look look' open_fds open_fds'

  -- `base` are the descriptors that the process has open besides those in the tables.
  pub record Ledger (base : ℤ → Bool) (look : K → Option ℤ) (open_fds : ℤ → Bool) : Type 0 where
    pub live : (k : K) (fd : ℤ) → look k ≡ some fd → open_fds fd ≡ true
    pub distinct : (j k : K) (fd : ℤ) → look j ≡ some fd → look k ≡ some fd → same j k ≡ true
    pub accounted :
        (fd : ℤ) → open_fds fd ≡ true → (base fd ≡ true) ⊎ ((k : K) × (look k ≡ some fd))

  module _ (same_iff : (j k : K) → (same j k ≡ true) ↔ (j ≡ k)) {base : ℤ → Bool} where
    module _ {look look' : K → Option ℤ} {open_fds open_fds' : ℤ → Bool} where
      keep-Ledger :
          ((j : K) → look' j ≡ look j)
          → ((g : ℤ) → open_fds' g ≡ open_fds g)
          → Ledger base look open_fds
          → Ledger base look' open_fds'
      keep-Ledger looks fds l = record {
        live = λ k fd e. fds fd ∙ l.live k fd (sym (looks k) ∙ e);
        distinct = λ j k fd p q. l.distinct j k fd (sym (looks j) ∙ p) (sym (looks k) ∙ q);
        accounted = λ fd o. elim (l.accounted fd (sym (fds fd) ∙ o)) [
          | inl b ↦ inl b
          | inr (k, e) ↦ inr (k, looks k ∙ e)
        ];
      }

      module _ (k : K) (fd : ℤ) where
        opens-Ledger :
            look k ≡ none
            → open_fds fd ≡ false
            → ((j : K) → look' j ≡ (if same k j then some fd else look j))
            → ((g : ℤ) → open_fds' g ≡ (if eq_ℤ fd g then true else open_fds g))
            → Ledger base look open_fds
            → Ledger base look' open_fds'
        opens-Ledger vacant unopened looks fds l = record {
          live = λ j g e. ground (arith, looks j, fds g, l.live j g, eq_ℤ_refl fd);
          distinct = λ i j g p q. ground (
            arith,
            looks i,
            looks j,
            l.distinct i j g,
            l.live i g,
            l.live j g,
            same_iff k i,
            same_iff k j,
            same_iff i j,
          );
          accounted = λ g o. elim (Bool-cases (eq_ℤ fd g)) [
            | inl hit ↦ inr (k, ground (arith, looks k, same_iff k k, eq_ℤ→eq fd g))
            | inr miss ↦ elim (l.accounted g (ground (arith, fds g))) [
              | inl b ↦ inl b
              | inr (j, e) ↦ inr (j, ground (arith, looks j, same_iff k j))
            ]
          ];
        }

        closes-Ledger :
            look k ≡ some fd
            → ((j : K) → look' j ≡ (if same k j then none else look j))
            → ((g : ℤ) → open_fds' g ≡ (if eq_ℤ fd g then false else open_fds g))
            → Ledger base look open_fds
            → Ledger base look' open_fds'
        closes-Ledger held looks fds l = record {
          live =
              λ j g e. ground (arith, looks j, fds g, l.live j g, l.distinct k j g, eq_ℤ→eq fd g);
          distinct = λ i j g p q. ground (arith, looks i, looks j, l.distinct i j g);
          accounted = λ g o. elim (l.accounted g (ground (arith, fds g))) [
            | inl b ↦ inl b
            | inr (j, e) ↦ inr (j, ground (arith, looks j, same_iff k j, fds g, eq_ℤ_refl fd))
          ];
        }

      -- A step keeps the books: every descriptor in the tables is open, no two handles hold the same
      -- one, and nothing is open that is neither in a table nor in `base`.
      pub Move-Ledger :
          Move look look' open_fds open_fds'
          → Ledger base look open_fds
          → Ledger base look' open_fds'
      Move-Ledger (keep looks fds) l = keep-Ledger looks fds l
      Move-Ledger (opens k fd vacant unopened looks fds) l =
          opens-Ledger k fd vacant unopened looks fds l
      Move-Ledger (closes k fd held looks fds) l = closes-Ledger k fd held looks fds l
