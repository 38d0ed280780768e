-- ===== src/FdServer/Strings.antt =====
-- `read_string` of src/fd_server/src/main.rs, and what follows for `handle_inotify_add_watch`.
use l4rerust.Base.{
  ℕ, ◌≡◌, refl, ◌⊎◌, inl, inr, true, none, List, [], ◌∷◌, ◌++◌, arith, Option-cases,
}
use l4rerust.Base.Int.{pos}
use l4rerust.Ipc.{Utcb, reply, encode, br_read_bytes}
use l4rerust.Ipc.Slab.{Slab}
use l4rerust.FdServer.Host.{Sys}
use l4rerust.FdServer.Records.{
  ends_with_zero, has_zero, read_string, Inotifies, handle_inotify_add_watch,
}

ends_with_zero-has_zero : (bs : List ℕ) → ends_with_zero bs ≡ true → has_zero bs ≡ true
ends_with_zero-has_zero [] h = h
ends_with_zero-has_zero (b ∷ []) h = ground arith
ends_with_zero-has_zero (b ∷ c ∷ bs) h = ground (arith, ends_with_zero-has_zero (c ∷ bs) h)

has_zero-append_zero : (bs : List ℕ) → has_zero (bs ++ 0 ∷ []) ≡ true
has_zero-append_zero [] = refl
has_zero-append_zero (b ∷ bs) = ground (arith, has_zero-append_zero bs)

module _ (slab : Slab) (sys : Sys) where
  -- Whatever the client sends, `read_string` returns nothing: it puts a zero byte at the end if there
  -- is none, and `CString::new` refuses every text with a zero byte.
  pub read_string-eq-none : (u : Utcb) → read_string slab sys u ≡ none
  unfolding read_string
  read_string-eq-none u =
      let buf = br_read_bytes sys.br_words u in
      ground (arith, ends_with_zero-has_zero buf, has_zero-append_zero buf)

  -- So a watch is never added: with a live handle the reply is EINVAL, with any other it is EBADF,
  -- and neither the kernel nor the table is touched.
  pub add_watch_refused :
      (c : Inotifies slab sys)
      → (handle_inotify_add_watch slab sys c ≡ reply (encode (pos sys.errno.einval)) c)
        ⊎ ((slab.get (c.utcb.mr 1) c.table ≡ none)
            × (handle_inotify_add_watch slab sys c ≡ reply (encode (pos sys.errno.ebadf)) c))
  unfolding handle_inotify_add_watch
  add_watch_refused c = elim (Option-cases (slab.get (c.utcb.mr 1) c.table)) [
    | inl e ↦ inr (e, rw (e, handle_inotify_add_watch) refl)
    | inr (entry, e) ↦ inl (rw (e, handle_inotify_add_watch) (rw (read_string-eq-none c.utcb) refl))
  ]
