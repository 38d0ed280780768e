-- ===== src/FdServer/Books.antt =====
-- The handles of all four tables of src/fd_server/src/main.rs together.
use l4rerust.Base.{
  ℕ, ◌≡◌, refl, inl, inr, ◌↔◌, Bool, true, false, ◌&&◌, Option, arith, Bool-cases, ◌==◌,
}
use l4rerust.Base.Int.{ℤ}
use l4rerust.FdServer.Ledger.{Move, keep, opens, closes}

-- A handle means nothing without the kind of descriptor that it names.
pub data Family : Type 0 where
  event timer signal notify : Family

abbrev pub Handle : Type 0
Handle = Family × ℕ

abbrev pub same_family : Family → Family → Bool
same_family event event = true
same_family timer timer = true
same_family signal signal = true
same_family notify notify = true
same_family _ _ = false

abbrev pub same_handle : Handle → Handle → Bool
same_handle (f, j) (g, k) = same_family f g && j == k

same_family_refl : (f : Family) → same_family f f ≡ true
same_family_refl event = refl
same_family_refl timer = refl
same_family_refl signal = refl
same_family_refl notify = refl

same_family→eq : (f g : Family) → same_family f g ≡ true → f ≡ g
same_family→eq f g = ground arith

pub same_handle_iff : (x y : Handle) → (same_handle x y ≡ true) ↔ (x ≡ y)
same_handle_iff (f, j) (g, k) =
    (λ h. ground (arith, same_family→eq f g), λ e. ground (arith, same_family_refl f))

module _ (f : Family) {look look' : Handle → Option ℤ} {open_fds open_fds' : ℤ → Bool} where
  -- A step of one table is a step of the server, if the other tables stay.
  pub lift-Move :
      ((g : Family) (k : ℕ) → same_family f g ≡ false → look' (g, k) ≡ look (g, k))
      → Move ◌==◌ (λ k. look (f, k)) (λ k. look' (f, k)) open_fds open_fds'
      → Move same_handle look look' open_fds open_fds'
  lift-Move others (keep looks fds) =
      keep
        (λ (g, k). elim (Bool-cases (same_family f g)) [
          | inl e ↦ rw (← same_family→eq f g e) (looks k)
          | inr e ↦ others g k e
        ])
        fds
  lift-Move others (opens k fd vacant unopened looks fds) =
      opens (f, k) fd vacant unopened
        (λ (g, j). elim (Bool-cases (same_family f g)) [
          | inl e ↦ rw e (rw (← same_family→eq f g e) (looks j))
          | inr e ↦ rw e (others g j e)
        ])
        fds
  lift-Move others (closes k fd held looks fds) =
      closes (f, k) fd held
        (λ (g, j). elim (Bool-cases (same_family f g)) [
          | inl e ↦ rw e (rw (← same_family→eq f g e) (looks j))
          | inr e ↦ rw e (others g j e)
        ])
        fds
