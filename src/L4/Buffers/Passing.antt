-- ===== src/L4/Buffers/Passing.antt =====
-- How the buffers reach the UTCB and the code that reads capabilities.
use l4rerust.Base.{
  ℕ, zero, suc, ◌≤◌, ◌<◌, Option, none, some, List, [], ◌∷◌, ◌++◌, length, take, drop, get_elem?,
  ◌≡◌, refl, arith, subst, Option-cases, inl, inr,
}
use l4rerust.L4.Buffers.{BufferManager, BufRegs, BufferAccess, setup_wait, rcv_cap_unchecked}

module _ {A : Type 0} where
  front_elem :
      (c i : ℕ) (xs ys : List A)
      → i < c
      → c ≤ length xs
      → get_elem? (take c xs ++ ys) i ≡ get_elem? xs i
  front_elem zero i xs ys h room = absurd (omega arith)
  front_elem (suc c) i [] ys h room = absurd (omega arith)
  front_elem (suc c) zero (x ∷ xs) ys h room = refl
  front_elem (suc c) (suc i) (x ∷ xs) ys h room = front_elem c i xs ys (omega arith) (omega arith)

  beyond : (c i : ℕ) (xs : List A) → c ≤ i → c ≤ length xs → get_elem? (take c xs ++ []) i ≡ none
  beyond zero i xs h room = refl
  beyond (suc c) i [] h room = absurd (omega arith)
  beyond (suc c) zero (x ∷ xs) h room = absurd (omega arith)
  beyond (suc c) (suc i) (x ∷ xs) h room = beyond c i xs (omega arith) (omega arith)

  back_elem :
      (c i : ℕ) (xs ys : List A)
      → c ≤ i
      → c ≤ length xs
      → get_elem? (take c xs ++ drop c ys) i ≡ get_elem? ys i
  back_elem zero i xs ys h room = refl
  back_elem (suc c) i [] ys h room = absurd (omega arith)
  back_elem (suc c) zero (x ∷ xs) ys h room = absurd (omega arith)
  back_elem (suc c) (suc i) (x ∷ xs) [] h room = beyond c i xs (omega arith) (omega arith)
  back_elem (suc c) (suc i) (x ∷ xs) (y ∷ ys) h room =
      back_elem c i xs ys (omega arith) (omega arith)

-- If there is room, `setup_wait` clears the descriptor, copies the slots in use and leaves every
-- other register as it is: the zero that ends the list stays behind in the manager.
setup_wait_lem :
    (m : BufferManager) (b : BufRegs)
    → m.caps ≤ length m.br
    → m.caps ≤ length b.regs
    → (b' : BufRegs) × (setup_wait m b ≡ some b')
      × (b'.bdr ≡ 0)
      × ((i : ℕ) → i < m.caps → get_elem? b'.regs i ≡ get_elem? m.br i)
      × ((i : ℕ) → m.caps ≤ i → get_elem? b'.regs i ≡ get_elem? b.regs i)
unfolding setup_wait
setup_wait_lem m b room space = (
  record { bdr = 0; regs = take m.caps m.br ++ drop m.caps b.regs },
  ground arith,
  refl,
  λ i h. front_elem m.caps i m.br (drop m.caps b.regs) h room,
  λ i h. back_elem m.caps i m.br b.regs h room,
)

stays :
    (br : List ℕ) (p : Option ℕ) (a' : BufferAccess) (cap : ℕ)
    → rcv_cap_unchecked br (record { ptr = p }) ≡ some (cap, a')
    → record { ptr = p } ≡ a'
unfolding rcv_cap_unchecked
stays br none a' cap e = absurd cc
stays br (some i) a' cap e = elim (Option-cases (get_elem? br i)) [
  | inl nothing ↦
      let failed : rcv_cap_unchecked br (record { ptr = some i }) ≡ none =
        rw (nothing, rcv_cap_unchecked) refl in
      absurd cc
  | inr (c, found) ↦
      let done : rcv_cap_unchecked br (record { ptr = some i })
          ≡ some (c, record { ptr = some i }) =
        rw (found, rcv_cap_unchecked) refl in
      cc
]

-- Reading a capability leaves the pointer where it is, so the next one read is the same.
rcv_cap_unchecked-again :
    (br : List ℕ) (a a' : BufferAccess) (cap : ℕ)
    → rcv_cap_unchecked br a ≡ some (cap, a')
    → rcv_cap_unchecked br a' ≡ some (cap, a')
rcv_cap_unchecked-again br a a' cap e =
    subst (λ b. rcv_cap_unchecked br b ≡ some (cap, a')) (stays br a.ptr a' cap e) e
