-- ===== src/FsServer/Disk/Blocks.antt =====
-- Bytes of a block that `VirtioDisk::write` of src/fs_server/src/virtio.rs has changed.
use l4rerust.Base.{
  ℕ, ◌+◌, ◌-◌, ◌/◌, ◌%◌, ◌==◌, Bool-cases, inl, inr, ◌≤◌, ◌<◌, ◌≡◌, refl, ap, ◌∙◌, Bool, false,
  ◌&&◌, List, ◌++◌, length, get_or, take, drop, leb, ltb, if◌then◌else◌, arith, length-take,
  get_or-append, get_or-drop, get_or-take,
}
use l4rerust.FsServer.Disk.{copy_at, slice}

-- Index `j` lies in the `n` indices from `i` on.
abbrev pub in_range : ℕ → ℕ → ℕ → Bool
in_range i n j = leb i j && ltb j (i + n)

pub get_or-slice :
    (i n : ℕ) (xs : List ℕ) (j : ℕ) → j < n → get_or (slice i n xs) j 0 ≡ get_or xs (i + j) 0
get_or-slice i n xs j h = get_or-take n (drop i xs) j 0 h ∙ get_or-drop i xs j 0

-- Inside the copied range the byte is the copied one, outside it is what it was.
pub get_or-copy_at :
    (i : ℕ) (bs buf : List ℕ) (j : ℕ)
    → i + length bs ≤ length buf
    → get_or (copy_at i bs buf) j 0
      ≡ (if in_range i (length bs) j then get_or bs (j - i) 0 else get_or buf j 0)
get_or-copy_at i bs buf j h =
    let e : i ≤ j → i + length bs ≤ j → i + length bs + (j - i - length bs) ≡ j =
      λ p q. omega arith in
    ground (
      arith,
      length-take i buf,
      get_or-append (take i buf) (bs ++ drop (i + length bs) buf) j 0,
      get_or-append bs (drop (i + length bs) buf) (j - length (take i buf)) 0,
      get_or-drop (i + length bs) buf (j - i - length bs) 0,
      get_or-take i buf j 0,
      e,
    )

-- Sectors of which the one that holds byte `p` got `bs` from there on: seen as bytes, the range of
-- `bs` has changed and nothing else.
module _ (sectors sectors' : ℕ → List ℕ) (p : ℕ) (bs blk : List ℕ)
    (changed : (t : ℕ)
      → sectors' t ≡ (if p / 512 == t then copy_at (p % 512) bs blk else sectors t))
    (size : length blk ≡ 512) (room : p % 512 + length bs ≤ 512)
    (kept : (j : ℕ)
      → in_range (p % 512) (length bs) j ≡ false
      → j < 512
      → get_or blk j 0 ≡ get_or (sectors (p / 512)) j 0) where
  same_block :
      (q : ℕ)
      → p / 512 ≡ q / 512
      → get_or (copy_at (p % 512) bs blk) (q % 512) 0 ≡ (
          if in_range p (length bs) q
          then get_or bs (q - p) 0
          else get_or (sectors (q / 512)) (q % 512) 0)
  same_block q e =
      let moved : q % 512 - p % 512 ≡ q - p = omega arith in
      let inside : in_range (p % 512) (length bs) (q % 512) ≡ in_range p (length bs) q =
        ground arith in
      get_or-copy_at (p % 512) bs blk (q % 512) (omega arith)
      ∙ elim (Bool-cases (in_range p (length bs) q)) [
        | inl h ↦ rw (inside, h) (ap (λ j. get_or bs j 0) moved)
        | inr h ↦
            rw (inside, h)
              (kept (q % 512) (inside ∙ h) (omega arith)
                ∙ ap (λ s. get_or (sectors s) (q % 512) 0) e)
      ]

  pub patched :
      (q : ℕ)
      → get_or (sectors' (q / 512)) (q % 512) 0 ≡ (
          if in_range p (length bs) q
          then get_or bs (q - p) 0
          else get_or (sectors (q / 512)) (q % 512) 0)
  patched q =
      ap (λ xs. get_or xs (q % 512) 0) (changed (q / 512))
      ∙ elim (Bool-cases (p / 512 == q / 512)) [
        | inl h ↦ rw h (same_block q (ground arith))
        | inr h ↦
            let outside : in_range p (length bs) q ≡ false = ground arith in rw h (rw outside refl)
      ]
