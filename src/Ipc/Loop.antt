-- ===== src/Ipc/Loop.antt =====
-- The loop that epoll_server, aio_server and fs_server under src/ end with: wait, answer the message
-- in the UTCB, reply and wait.
use l4rerust.Base.{List, [], ◌∷◌}
use l4rerust.Ipc.{Utcb, Ctx}

-- A return of `l4_ipc_wait` or `l4_ipc_reply_and_wait`: an IPC error, or a message in the UTCB.
pub data Wake : Type 0 where
  ipc_error : Wake
  message : Utcb → Wake

module _ {T W : Type 0} (handle_request : Ctx T W → Ctx T W) where
  -- The loop, over what each wait returns: an error waits again, a message is answered. The replies
  -- are the UTCB at each `l4_ipc_reply_and_wait`.
  unfoldable pub serve : List Wake → Ctx T W → List Utcb × Ctx T W
  serve [] c = ([], c)
  serve (ipc_error ∷ wakes) c = serve wakes c
  serve (message u ∷ wakes) c =
      let c' = handle_request (record c { utcb = u }) in
      let (replies, end) = serve wakes c' in (c'.utcb ∷ replies, end)

  -- What every request keeps, whatever the message holds, the loop keeps.
  pub serve_keeps :
      (Keeps : T → W → Type 0)
      → ((c : Ctx T W) → Keeps c.table c.os → Keeps (handle_request c).table (handle_request c).os)
      → (wakes : List Wake) (c : Ctx T W) → Keeps c.table c.os
      → Keeps (serve wakes c).1.table (serve wakes c).1.os
  unfolding serve
  serve_keeps Keeps step [] c p = p
  serve_keeps Keeps step (ipc_error ∷ wakes) c p = serve_keeps Keeps step wakes c p
  serve_keeps Keeps step (message u ∷ wakes) c p =
      let next : Ctx T W = record c { utcb = u } in
      serve_keeps Keeps step wakes (handle_request next) (step next p)
