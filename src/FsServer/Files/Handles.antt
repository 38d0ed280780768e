-- ===== src/FsServer/Files/Handles.antt =====
-- What a client of src/fs_server/src/main.rs can reach: files under three directories, and a file for
-- as long as its handle is open.
use l4rerust.Base.{
  ℕ, ◌≤◌, ◌≡◌, ap, ◌∙◌, true, false, List, [], ◌∷◌, none, some, length, take, length-take,
  replicate, min, ◌==◌, arith, take_all,
}
use l4rerust.Ipc.{Utcb, set_mr, br_read_bytes, br_write_bytes}
use l4rerust.Ipc.Slab.{Slab, SlabLaws, get-remove}
use l4rerust.Ipc.Buffer.{br_read_bytes-br_write_bytes}
use l4rerust.FsServer.Files.{
  Fat, ok, in_lsb_dir, resolve_path, Files, refuse, br_data_max, read_file, write_file, close_file,
}

-- A path is resolved to what follows its slash, and only if that begins with one of the three
-- directories.
pub resolve_path_lem :
    (p rel : List ℕ) → resolve_path p ≡ some rel → (p ≡ 47 ∷ rel) × (in_lsb_dir rel ≡ true)
unfolding resolve_path
resolve_path_lem [] rel e = cc
resolve_path_lem (c ∷ rest) rel e = ground arith

module _ (slab : Slab) (laws : SlabLaws slab) (fat : Fat) where
  -- Closing a live handle replies 0, drops its file and changes no other handle; a read, a write and a
  -- close through it are then refused with EBADF and change nothing.
  close-refused :
      (c : Files slab fat) (file : fat.File) (u : Utcb)
      → slab.get (c.utcb.mr 1) c.table ≡ some file
      → u.mr 1 ≡ c.utcb.mr 1
      → let closed = close_file slab fat c in
        let d : Files slab fat = record closed { utcb = u } in
        let refused = refuse slab fat fat.errno.ebadf d in
        (closed.utcb.mr 0 ≡ 0)
        × (closed.os ≡ fat.drop file c.os)
        × ((k : ℕ) → (c.utcb.mr 1 == k) ≡ false → slab.get k closed.table ≡ slab.get k c.table)
        × (read_file slab fat d ≡ refused)
        × (write_file slab fat d ≡ refused)
        × (close_file slab fat d ≡ refused)
  unfolding close_file read_file write_file
  close-refused c file u held same =
      let gone : slab.get (u.mr 1) (slab.remove (c.utcb.mr 1) c.table) ≡ none =
        ap (λ k. slab.get k (slab.remove (c.utcb.mr 1) c.table)) same
        ∙ laws.get-remove_self (c.utcb.mr 1) c.table in
      (
        ground arith,
        ground arith,
        λ k h. ground (arith, get-remove slab laws (c.utcb.mr 1) k c.table),
        ground (arith, held, gone),
        ground (arith, held, gone),
        ground (arith, held, gone),
      )

  -- A read of a live handle that the file system answers with `n` bytes, no more than it was asked
  -- for, replies `n`, at most what the client asked for, and the buffer registers hold those bytes.
  pub read_file-bytes :
      (c : Files slab fat) (file file' : fat.File) (n : ℕ) (buf : List ℕ) (w : fat.World)
      → slab.get (c.utcb.mr 1) c.table ≡ some file
      → fat.read file (replicate (min (c.utcb.mr 2) (br_data_max slab fat)) 0) c.os
        ≡ (ok (n, buf), file', w)
      → n ≤ min (c.utcb.mr 2) (br_data_max slab fat)
      → length buf ≡ min (c.utcb.mr 2) (br_data_max slab fat)
      → let d = read_file slab fat c in
        (d.utcb.mr 0 ≡ n)
        × (br_read_bytes fat.br_words d.utcb ≡ take n buf)
        × (d.table ≡ slab.set (c.utcb.mr 1) file' c.table)
        × (d.os ≡ w)
  unfolding read_file br_write_bytes br_read_bytes
  read_file-bytes c file file' n buf w held done fits size =
      let whole : read_file slab fat c ≡ record c {
        table = slab.set (c.utcb.mr 1) file' c.table;
        os = w;
        utcb = set_mr 0 n (br_write_bytes fat.br_words (take n buf) c.utcb);
      } =
        ground (arith, held, done) in
      (
        ap (λ d. d.utcb.mr 0) whole,
        ap (λ d. br_read_bytes fat.br_words d.utcb) whole
            ∙ br_read_bytes-br_write_bytes fat.br_words (take n buf) c.utcb
            ∙ take_all _ (take n buf) (omega (arith, length-take n buf)),
        ap (λ d. d.table) whole,
        ap (λ d. d.os) whole,
      )
