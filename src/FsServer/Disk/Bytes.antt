-- ===== src/FsServer/Disk/Bytes.antt =====
-- The disk of src/fs_server/src/virtio.rs as one run of bytes, and the slices of its sectors.
use l4rerust.Base.{
  ℕ, zero, suc, ◌+◌, ◌/◌, ◌%◌, ◌≤◌, ◌<◌, ◌≡◌, refl, ap, ap₂, ◌∙◌, sym, List, [], ◌∷◌, ◌++◌, length,
  get_or, take, drop, arith,
}
use l4rerust.FsServer.Blk.{Device}
use l4rerust.FsServer.Contract.{Contract}
use l4rerust.FsServer.Disk.{slice}

-- The `n` bytes from index `i` on, read one by one.
bytes_from : List ℕ → ℕ → ℕ → List ℕ
bytes_from xs i zero = []
bytes_from xs i (suc n) = get_or xs i 0 ∷ bytes_from xs (i + 1) n

take-drop-suc :
    (xs : List ℕ) (i n : ℕ)
    → i < length xs
    → take (suc n) (drop i xs) ≡ get_or xs i 0 ∷ take n (drop (suc i) xs)
take-drop-suc [] i n h = absurd (omega arith)
take-drop-suc (x ∷ xs) zero n h = refl
take-drop-suc (x ∷ xs) (suc i) n h = take-drop-suc xs i n (omega arith)

slice-eq-bytes_from : (xs : List ℕ) (i n : ℕ) → i + n ≤ length xs → slice i n xs ≡ bytes_from xs i n
unfolding bytes_from
slice-eq-bytes_from xs i zero h = refl
slice-eq-bytes_from xs i (suc n) h =
    take-drop-suc xs i n (omega arith)
    ∙ ap (◌∷◌ (get_or xs i 0)) (
        ap (λ k. take n (drop k xs)) {x = suc i} {y = i + 1} (omega arith)
        ∙ slice-eq-bytes_from xs (i + 1) n (omega arith))

module _ (dev : Device) (k : Contract dev) (w : dev.World) where
  -- Byte `p` of the disk.
  abbrev pub byte : ℕ → ℕ
  byte p = get_or (k.sectors w (p / 512)) (p % 512) 0

  -- The `n` bytes from `p` on.
  unfoldable pub bytes : ℕ → ℕ → List ℕ
  bytes p zero = []
  bytes p (suc n) = byte p ∷ bytes (p + 1) n

  pub length-bytes : (p n : ℕ) → length (bytes p n) ≡ n
  unfolding bytes
  length-bytes p zero = refl
  length-bytes p (suc n) = ap suc (length-bytes (p + 1) n)

  pub bytes-append : (p m n r q : ℕ) → r ≡ m + n → q ≡ p + m → bytes p r ≡ bytes p m ++ bytes q n
  unfolding bytes
  bytes-append p zero n r q e f = ap₂ bytes (omega arith) (omega arith)
  bytes-append p (suc m) n zero q e f = absurd (omega arith)
  bytes-append p (suc m) n (suc r) q e f =
      ap (◌∷◌ (byte p)) (bytes-append (p + 1) m n r q (omega arith) (omega arith))

  bytes_from-eq-bytes :
      (p i n : ℕ) → p % 512 ≡ i → i + n ≤ 512 → bytes_from (k.sectors w (p / 512)) i n ≡ bytes p n
  unfolding bytes bytes_from
  bytes_from-eq-bytes p i zero e h = refl
  bytes_from-eq-bytes p i (suc zero) e h = ap (λ j. get_or (k.sectors w (p / 512)) j 0 ∷ []) (sym e)
  bytes_from-eq-bytes p i (suc (suc n)) e h =
      ap₂ ◌∷◌ (ap (λ j. get_or (k.sectors w (p / 512)) j 0) (sym e)) (
        ap (λ s. bytes_from (k.sectors w s) (i + 1) (suc n)) (omega arith)
        ∙ bytes_from-eq-bytes (p + 1) (i + 1) (suc n) (omega arith) (omega arith))

  -- A slice of the sector that holds byte `p`, from `p` on.
  pub slice-eq-bytes :
      (p n : ℕ) → p % 512 + n ≤ 512 → slice (p % 512) n (k.sectors w (p / 512)) ≡ bytes p n
  slice-eq-bytes p n h =
      slice-eq-bytes_from (k.sectors w (p / 512)) (p % 512) n
        (omega (arith, k.length-sectors w (p / 512)))
      ∙ bytes_from-eq-bytes p (p % 512) n refl h

module _ (dev : Device) (k : Contract dev) {w w' : dev.World} where
  -- Disks with the same sectors hold the same bytes.
  pub bytes_congr :
      ((s : ℕ) → k.sectors w' s ≡ k.sectors w s)
      → (p n : ℕ) → bytes dev k w' p n ≡ bytes dev k w p n
  unfolding bytes
  bytes_congr same p zero = refl
  bytes_congr same p (suc n) =
      ap₂ ◌∷◌ (ap (λ xs. get_or xs (p % 512) 0) (same (p / 512))) (bytes_congr same (p + 1) n)
