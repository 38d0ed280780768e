-- ===== src/L4/Buffers/Slots.antt =====
-- What `alloc_capslots` leaves in the buffers.
use l4rerust.Base.{
  ℕ, zero, suc, ◌+◌, ◌-◌, ◌%◌, ◌^◌, ◌≤◌, ◌<◌, bit_and, not, Bool-cases, none, some, length, set,
  get_elem?, length-set, get_elem?-set_self, get_elem?-set_ne, ltb, lt→ltb, leb, ◌==◌,
  if◌then◌else◌, List, [], ◌∷◌, Bool, true, false, bit_or, ◌≡◌, inl, inr, refl, ap, ◌∙◌, arith,
}
use mathlib.Core.Option.{map}
use l4rerust.Base.Int.{pos}
use l4rerust.L4.Codes.{GenericErr}
use l4rerust.L4.Error.{generic, invalid_arg, ok, err}
use l4rerust.L4.Buffers.{
  Left, CapConsts, CapAlloc, BufferManager, keep_cap, alloc_loop, terminate, alloc_capslots,
}

-- Slots have been added behind the ones that were there.
pub record Grew (m m' : BufferManager) : Type 0 where
  pub same_size : length m'.br ≡ length m.br
  pub same_flags : m'.cap_flags ≡ m.cap_flags
  pub more : m.caps ≤ m'.caps
  pub kept : (i : ℕ) → i < m.caps → get_elem? m'.br i ≡ get_elem? m.br i

Grew-refl : (m : BufferManager) → Grew m m
Grew-refl m = record { same_size = refl; same_flags = refl; more = omega arith; kept = λ i h. refl }

Grew-trans : {a b c : BufferManager} → Grew a b → Grew b c → Grew a c
Grew-trans p q = record {
  same_size = q.same_size ∙ p.same_size;
  same_flags = q.same_flags ∙ p.same_flags;
  more = omega (arith, p.more, q.more);
  kept = λ i h. q.kept i (omega (arith, p.more)) ∙ p.kept i h;
}

module _ (k : CapConsts) (os : CapAlloc) where
  keep_cap-Grew : (cap : ℕ) (m : BufferManager) → Grew m (keep_cap k os cap m)
  keep_cap-Grew cap m = record {
    same_size = length-set m.br m.caps _;
    same_flags = refl;
    more = omega arith;
    kept = λ i h. get_elem?-set_ne m.br _ (λ e. absurd (omega arith));
  }

  -- A capability that the allocator gave, or the mark of a failed call
  abbrev is_valid : ℕ → Bool
  is_valid cap = bit_and cap k.invalid_cap_bit == 0

  -- The allocator gives the capabilities of the list, one in each call, all valid.
  pub data Gives : os.World → List ℕ → os.World → Type 0 where
    none_given : {w : os.World} → Gives w [] w
    one_given :
        {w w' : os.World} {caps : List ℕ}
        → is_valid (os.cap_alloc w).0 ≡ true
        → Gives (os.cap_alloc w).1 caps w'
        → Gives w ((os.cap_alloc w).0 ∷ caps) w'

  -- The capabilities have been added, in order, each with the flags of the manager.
  pub record Added (caps : List ℕ) (m m' : BufferManager) : Type 0 where
    pub grew : Grew m m'
    pub count : m'.caps ≡ m.caps + length caps
    pub stored :
        (i : ℕ)
        → i < length caps
        → get_elem? m'.br (m.caps + i)
          ≡ map (λ cap. bit_or (bit_or cap k.single_cap) m.cap_flags) (get_elem? caps i)

  Added-nil : (m : BufferManager) → Added [] m m
  Added-nil m = record {
    grew = Grew-refl m;
    count = omega arith;
    stored = λ i h. absurd (omega arith);
  }

  Added-cons :
      (c : ℕ) (caps : List ℕ) (m m' : BufferManager)
      → m.caps < length m.br
      → Added caps (keep_cap k os c m) m'
      → Added (c ∷ caps) m m'
  Added-cons c caps m m' room a = record {
    grew = Grew-trans (keep_cap-Grew c m) a.grew;
    count = omega (arith, a.count);
    stored = stored_at;
  }
    where
      stored_at :
          (i : ℕ)
          → i < length (c ∷ caps)
          → get_elem? m'.br (m.caps + i)
            ≡ map (λ x. bit_or (bit_or x k.single_cap) m.cap_flags) (get_elem? (c ∷ caps) i)
      stored_at zero h =
          ap (get_elem? m'.br) (omega arith)
          ∙ a.grew.kept m.caps (omega arith)
          ∙ get_elem?-set_self m.br m.caps _ room
      stored_at (suc i) h = ap (get_elem? m'.br) (omega arith) ∙ a.stored i (omega (arith, h))

  -- The last call of the allocator failed, and the loop with it.
  pub record Failed (w w' : os.World) : Type 0 where
    pub invalid : is_valid (os.cap_alloc w).0 ≡ false
    pub after : w' ≡ (os.cap_alloc w).1

  -- How the loop ends: with a valid capability in each of `n` slots, or with those that the allocator
  -- gave before it failed, fewer than `n`.
  pub data Ended (n : ℕ) (m : BufferManager) (w : os.World) : Left k os → Type 0 where
    all_slots :
        {m' : BufferManager} {w' : os.World} (caps : List ℕ)
        → length caps ≡ n
        → Gives w caps w'
        → Added caps m m'
        → Ended n m w (ok tt, m', w')
    no_memory :
        {m' : BufferManager} {w₁ w' : os.World} (caps : List ℕ)
        → length caps < n
        → Gives w caps w₁
        → Failed w₁ w'
        → Added caps m m'
        → Ended n m w (err (generic GenericErr.no_mem), m', w')

  Ended-suc :
      (n : ℕ) (m : BufferManager) (w : os.World) (left : Left k os)
      → is_valid (os.cap_alloc w).0 ≡ true
      → m.caps < length m.br
      → Ended n (keep_cap k os (os.cap_alloc w).0 m) (os.cap_alloc w).1 left
      → Ended (suc n) m w left
  Ended-suc n m w left good room (all_slots {m'} caps size given added) =
      all_slots ((os.cap_alloc w).0 ∷ caps) (omega (arith, size)) (one_given good given)
        (Added-cons (os.cap_alloc w).0 caps m m' room added)
  Ended-suc n m w left good room (no_memory {m'} caps size given failed added) =
      no_memory ((os.cap_alloc w).0 ∷ caps) (omega (arith, size)) (one_given good given) failed
        (Added-cons (os.cap_alloc w).0 caps m m' room added)

  alloc_loop_lem :
      (n : ℕ) (m : BufferManager) (w : os.World)
      → m.caps + n ≤ length m.br
      → (left : Left k os) × (alloc_loop k os n m w ≡ some left) × Ended n m w left
  unfolding alloc_loop
  alloc_loop_lem zero m w room = ((ok tt, m, w), refl, all_slots [] refl none_given (Added-nil m))
  alloc_loop_lem (suc n) m w room =
      let (cap, w') = os.cap_alloc w in
      let next = keep_cap k os cap m in
      let rest = alloc_loop k os n next w' in
      let failed : Left k os = (err (generic GenericErr.no_mem), m, w') in
      let grown = keep_cap-Grew cap m in
      elim (Bool-cases (is_valid cap)) [
        | inl good ↦
            let inside : m.caps < length m.br = omega arith in
            let (left, done, end) = alloc_loop_lem n next w' (omega (arith, grown.same_size)) in
            (
              left,
              ap
                    (λ b.
                      if not b
                      then some failed
                      else if ltb m.caps (length m.br)
                      then rest
                      else none)
                    good
                  ∙ ap (λ b. if b then rest else none) (lt→ltb m.caps (length m.br) inside)
                  ∙ done,
              Ended-suc n m w left good inside end,
            )
        | inr bad ↦ (
          failed,
          ap (λ b. if not b then some failed else if ltb m.caps (length m.br) then rest else none)
              bad,
          no_memory [] (omega arith) none_given (record { invalid = bad; after = refl })
              (Added-nil m),
        )
      ]

  -- The zero behind the slots.
  terminate_lem :
      (m : BufferManager) (w : os.World)
      → m.caps < length m.br
      → terminate k os (ok tt, m, w) ≡ some (ok tt, record m { br = set m.br m.caps 0 }, w)
  unfolding terminate
  terminate_lem m w h = rw (lt→ltb m.caps (length m.br) h) refl

  zero-Grew : (m : BufferManager) → Grew m (record m { br = set m.br m.caps 0 })
  zero-Grew m = record {
    same_size = length-set m.br m.caps 0;
    same_flags = refl;
    more = omega arith;
    kept = λ i h. get_elem?-set_ne m.br 0 (λ e. absurd (omega arith));
  }

  Added-zero :
      (caps : List ℕ) (m m' : BufferManager)
      → Added caps m m'
      → Added caps m (record m' { br = set m'.br m'.caps 0 })
  Added-zero caps m m' a = record {
    grew = Grew-trans a.grew (zero-Grew m');
    count = a.count;
    stored = λ i h. (zero-Grew m').kept (m.caps + i) (omega (arith, h, a.count)) ∙ a.stored i h;
  }

  -- The three ends of `alloc_capslots`: the demand is too large and nothing happens; or the missing
  -- slots hold valid capabilities that the allocator gave, with a zero behind all slots; or the
  -- allocator failed before, and the slots hold those that it gave.
  pub data Served (demand : ℕ) (m : BufferManager) (w : os.World) : Left k os → Type 0 where
    too_large :
        length m.br ≤ demand + 3
        → Served demand m w
            (err (invalid_arg "Capability slot demand too large" (some (pos demand))), m, w)
    served :
        {m' : BufferManager} {w' : os.World} (caps : List ℕ)
        → demand + 3 < length m.br
        → length caps ≡ demand - m.caps
        → Gives w caps w'
        → Added caps m m'
        → get_elem? m'.br m'.caps ≡ some 0
        → Served demand m w (ok tt, m', w')
    out_of_memory :
        {m' : BufferManager} {w₁ w' : os.World} (caps : List ℕ)
        → demand + 3 < length m.br
        → length caps < demand - m.caps
        → Gives w caps w₁
        → Failed w₁ w'
        → Added caps m m'
        → Served demand m w (err (generic GenericErr.no_mem), m', w')

  finish :
      (demand : ℕ) (m : BufferManager) (w : os.World) (reached : Left k os)
      → demand + 3 < length m.br
      → m.caps < length m.br
      → Ended (demand - m.caps) m w reached
      → (left : Left k os) × (terminate k os reached ≡ some left) × Served demand m w left
  unfolding terminate
  finish demand m w reached small room (all_slots {m'} {w'} caps size given added) =
      let inside : m'.caps < length m'.br =
        omega (arith, added.grew.same_size, added.count, size, small, room) in
      (
        (ok tt, record m' { br = set m'.br m'.caps 0 }, w'),
        terminate_lem m' w' inside,
        served caps small size given (Added-zero caps m m' added)
            (get_elem?-set_self m'.br m'.caps 0 inside),
      )
  finish demand m w reached small room (no_memory {m'} {w₁} {w'} caps size given failed added) = (
    (err (generic GenericErr.no_mem), m', w'),
    refl,
    out_of_memory caps small size given failed added,
  )

  -- The call ends without a panic, in one of the three ways, if the demand is at most 252, the manager
  -- has fewer than 256 slots and not all of them are in use.
  pub alloc_capslots-Served :
      (demand : ℕ) (m : BufferManager) (w : os.World)
      → demand ≤ 252
      → length m.br < 256
      → m.caps < length m.br
      → (left : Left k os) × (alloc_capslots k os demand m w ≡ some left) × Served demand m w left
  unfolding alloc_capslots
  alloc_capslots-Served demand m w small size room =
      let n = demand - m.caps in
      let test = leb (length m.br % 2 ^ 8) ((demand + 3) % 2 ^ 8) in
      let refused : Left k os =
        (err (invalid_arg "Capability slot demand too large" (some (pos demand))), m, w) in
      let loop = alloc_loop k os n m w in
      elim (Bool-cases test) [
        | inl large ↦ (
          refused,
          ap
              (λ b.
                if b
                then some refused
                else elim loop [ none ↦ none | some left ↦ terminate k os left ])
              large,
          too_large (ground (arith, large)),
        )
        | inr fits ↦
            let enough : demand + 3 < length m.br = ground (arith, fits) in
            let (reached, done, end) = alloc_loop_lem n m w (omega arith) in
            let (left, last, outcome) = finish demand m w reached enough room end in
            (
              left,
              ap
                    (λ b.
                      if b
                      then some refused
                      else elim loop [ none ↦ none | some left ↦ terminate k os left ])
                    fits
                  ∙ ap (λ o. elim o [ none ↦ none | some left ↦ terminate k os left ]) done
                  ∙ last,
              outcome,
            )
      ]
