-- ===== src/FdServer/Records.antt =====
-- The signalfd and inotify handlers of src/fd_server/src/main.rs, and the text that they read.
use l4rerust.Base.{
  ℕ, Bool, false, ◌||◌, Option, none, some, List, [], ◌∷◌, ◌++◌, length, ◌==◌, if◌then◌else◌,
}
use l4rerust.Base.Int.{eq_ℤ, ℤ, negsuc, is_neg, to_ℕ}
use l4rerust.Base.Word.{as_i32, as_u32, as_i64, as_u64}
use l4rerust.Ipc.{Utcb, Ctx, reply, br_read_bytes}
use l4rerust.Ipc.Slab.{Slab}
use l4rerust.FdServer.Host.{Sys, Signalfd, Inotify}
use l4rerust.FdServer.Handlers.{fail, refuse, read_records, close_entry, open_entry}

-- `buf.last().copied() != Some(0)`, negated
abbrev pub ends_with_zero : List ℕ → Bool
ends_with_zero [] = false
ends_with_zero (b ∷ []) = b == 0
ends_with_zero (b ∷ c ∷ bs) = ends_with_zero (c ∷ bs)

abbrev pub has_zero : List ℕ → Bool
has_zero [] = false
has_zero (b ∷ bs) = b == 0 || has_zero bs

-- `CString::new` of the standard library refuses a zero byte anywhere in its argument, and puts the
-- terminator behind it.
abbrev pub c_string_new : List ℕ → Option (List ℕ)
c_string_new bytes = if has_zero bytes then none else some (bytes ++ 0 ∷ [])

-- `HashMap::remove`
abbrev pub remove_key : ℤ → List (ℤ × ℤ) → List (ℤ × ℤ)
remove_key k [] = []
remove_key k ((j, v) ∷ m) = if eq_ℤ j k then remove_key k m else (j, v) ∷ remove_key k m

-- `HashMap::insert`
abbrev pub insert_key : ℤ → ℤ → List (ℤ × ℤ) → List (ℤ × ℤ)
insert_key k v m = (k, v) ∷ remove_key k m

module _ (slab : Slab) (sys : Sys) where
  abbrev pub Signalfds : Type 0
  Signalfds = Ctx (slab.Table Signalfd) sys.World

  abbrev pub Inotifies : Type 0
  Inotifies = Ctx (slab.Table Inotify) sys.World

  unfoldable pub read_sigset : ℕ → Utcb → Option (List ℕ)
  read_sigset expected u =
      let buf = br_read_bytes sys.br_words u in if length buf == expected then some buf else none

  unfoldable pub read_string : Utcb → Option (List ℕ)
  read_string u =
      let buf = br_read_bytes sys.br_words u in
      c_string_new (if ends_with_zero buf then buf else buf ++ 0 ∷ [])

  -- The end of `handle_signalfd_create`, from the system call on, for a new descriptor and for the
  -- existing descriptor `raw_fd`.
  unfoldable pub signalfd_new : List ℕ → Signalfds → Signalfds
  signalfd_new mask c =
      let (fd, os) = sys.signalfd4 (negsuc 0) mask (c.utcb.mr 3) (as_i32 (c.utcb.mr 2)) c.os in
      if is_neg fd
      then fail slab sys (record c { os = os })
      else open_entry slab sys (record { fd = fd }) (record c { os = os })

  unfoldable pub signalfd_update : ℤ → List ℕ → Signalfds → Signalfds
  signalfd_update raw_fd mask c =
      let (fd, os) = sys.signalfd4 raw_fd mask (c.utcb.mr 3) (as_i32 (c.utcb.mr 2)) c.os in
      if is_neg fd then fail slab sys (record c { os = os }) else reply 0 (record c { os = os })

  unfoldable pub handle_signalfd_create : Signalfds → Signalfds
  handle_signalfd_create c = elim (read_sigset (c.utcb.mr 3) c.utcb) [
    | none ↦ refuse slab sys sys.errno.einval c
    | some mask ↦
        let target = as_i64 (c.utcb.mr 1) in
        if is_neg target then signalfd_new mask c else elim (slab.get (to_ℕ target) c.table) [
          | none ↦ refuse slab sys sys.errno.ebadf c
          | some existing ↦ signalfd_update existing.fd mask c
        ]
  ]

  unfoldable pub handle_signalfd_read : Signalfds → Signalfds
  handle_signalfd_read = read_records slab sys (λ e. e.fd)

  unfoldable pub handle_signalfd_close : Signalfds → Signalfds
  handle_signalfd_close = close_entry slab sys (λ e. e.fd)

  unfoldable pub handle_inotify_init : Inotifies → Inotifies
  handle_inotify_init c =
      let (fd, os) = sys.inotify_init1 (as_i32 (c.utcb.mr 1)) c.os in
      if is_neg fd
      then fail slab sys (record c { os = os })
      else open_entry slab sys (record { fd = fd; watches = [] }) (record c { os = os })

  unfoldable pub handle_inotify_add_watch : Inotifies → Inotifies
  handle_inotify_add_watch c =
      let handle = c.utcb.mr 1 in
      elim (slab.get handle c.table) [
        | none ↦ refuse slab sys sys.errno.ebadf c
        | some entry ↦ elim (read_string c.utcb) [
          | none ↦ refuse slab sys sys.errno.einval c
          | some path ↦
              let (wd, os) = sys.inotify_add_watch entry.fd path (as_u32 (c.utcb.mr 2)) c.os in
              if is_neg wd
              then fail slab sys (record c { os = os })
              else reply (as_u64 wd) (record c {
                table =
                    slab.set handle (record entry { watches = insert_key wd wd entry.watches })
                      c.table;
                os = os;
              })
        ]
      ]

  unfoldable pub handle_inotify_rm_watch : Inotifies → Inotifies
  handle_inotify_rm_watch c =
      let handle = c.utcb.mr 1 in
      let wd = as_i32 (c.utcb.mr 2) in
      elim (slab.get handle c.table) [
        | none ↦ refuse slab sys sys.errno.ebadf c
        | some entry ↦
            let (res, os) = sys.inotify_rm_watch entry.fd wd c.os in
            if is_neg res
            then fail slab sys (record c { os = os })
            else reply 0 (record c {
              table =
                  slab.set handle (record entry { watches = remove_key wd entry.watches }) c.table;
              os = os;
            })
      ]

  unfoldable pub handle_inotify_read : Inotifies → Inotifies
  handle_inotify_read = read_records slab sys (λ e. e.fd)

  unfoldable pub handle_inotify_close : Inotifies → Inotifies
  handle_inotify_close = close_entry slab sys (λ e. e.fd)
