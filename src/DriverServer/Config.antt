-- ===== src/DriverServer/Config.antt =====
-- The configuration space as the clients of src/driver_server/src/main.rs see it.
use l4rerust.Base.{
  bit_and, ◌<◌, ℕ, ◌+◌, ◌-◌, ◌%◌, ◌^◌, ◌≤◌, ◌≡◌, ◌≢◌, refl, ap, ap₂, sym, subst, ◌∙◌, none, some,
  List, [], ◌∷◌, ◌++◌, length, take, ◌==◌, false, leb, if◌then◌else◌, Bool-cases, inl, inr, arith,
  All,
}
use l4rerust.Base.Ranges.{read_at}
use l4rerust.Base.Word.{from_le_bytes, to_le_bytes}
use l4rerust.Ipc.{Utcb, set_mr}
use l4rerust.Ipc.Loop.{Wake, ipc_error, message}
use l4rerust.Virtio.Transport.{VirtioTransport, negotiate_features, read_config}
use l4rerust.Virtio.Transport.Config.{write_config_lem}
use l4rerust.DriverServer.{handle_request, Run, reply_first, then_serve, serve}

-- The four bytes of a request hold the low half of the register.
low_half : (v : ℕ) → from_le_bytes (take 4 (to_le_bytes 8 v)) ≡ v % 2 ^ 32
unfolding from_le_bytes to_le_bytes
low_half v = omega arith

-- Requests that only read: no request writes the configuration space, and what is read of it lies in
-- it.
abbrev pub Reads : ℕ → Wake → Type 0
Reads n ipc_error = Unit {0}
Reads n (message u) = (u.mr 0 ≢ 2) × (u.mr 0 ≡ 3 → u.mr 1 + 4 ≤ n)

read_there :
    (off n : ℕ) (t : VirtioTransport)
    → off + n ≤ length t.config
    → (bytes : List ℕ) × (read_config off n t ≡ some bytes)
unfolding read_config
read_there off n t h = (read_at t.config off n, ground arith)

-- What register 0 of the reply to such a request holds, on a device with the features `device`: the
-- features, those of them that the client supports, or all bits for a request that is not known. (What
-- is read depends on what is written.)
abbrev pub Reply : ℕ → Utcb → ℕ → Type 0
Reply device u x =
    (u.mr 0 ≡ 0 → x ≡ device)
    × (u.mr 0 ≡ 1 → x ≡ bit_and device (u.mr 1))
    × (3 < u.mr 0 → x ≡ 2 ^ 64 - 1)

-- Such a request is answered, and the configuration space and the features of the device stay.
Reads-handle_request :
    (u : Utcb) (t : VirtioTransport)
    → Reads (length t.config) (message u)
    → (x : ℕ) × (t' : VirtioTransport) × (handle_request u t ≡ some (set_mr 0 x u, t'))
      × Reply t.device_features u x
      × (t'.config ≡ t.config)
      × (t'.device_features ≡ t.device_features)
unfolding handle_request
Reads-handle_request u t (no_write, inside) = elim (Bool-cases (u.mr 0 == 3)) [
  | inl reads ↦
      let is_three : u.mr 0 ≡ 3 = ground arith in
      let (bytes, e) = read_there (u.mr 1) 4 t (inside is_three) in
      (
        from_le_bytes bytes,
        t,
        ground (arith, e, is_three),
        (λ h. absurd (omega arith), λ h. absurd (omega arith), λ h. absurd (omega arith)),
        refl,
        refl,
      )
  | inr other ↦ elim (Bool-cases (u.mr 0 == 0)) [
    | inl zero ↦ (
      t.device_features,
      t,
      rw (zero, handle_request) refl,
      (λ h. refl, λ h. absurd (ground arith), λ h. absurd (ground arith)),
      refl,
      refl,
    )
    | inr nonzero ↦ elim (Bool-cases (u.mr 0 == 1)) [
      | inl one ↦
          let a = negotiate_features (u.mr 1) t in
          (
            a.0,
            a.1,
            rw (nonzero, handle_request) (rw one refl),
            (λ h. absurd (ground arith), λ h. refl, λ h. absurd (ground arith)),
            refl,
            refl,
          )
      | inr not_one ↦
          let not_two : (u.mr 0 == 2) ≡ false = ground (arith, no_write) in
          (
            2 ^ 64 - 1,
            t,
            rw (nonzero, handle_request) (rw not_one (rw not_two (rw other refl))),
            (λ h. absurd (ground arith), λ h. absurd (ground arith), λ h. refl),
            refl,
            refl,
          )
    ]
  ]
]

-- The replies to what is awaited: one for each message, in order, with its registers but the first.
pub data Answers (device : ℕ) : List Wake → List Utcb → Type 0 where
  all_answered : Answers device [] []
  no_reply :
      {wakes : List Wake} {us : List Utcb}
      → Answers device wakes us
      → Answers device (ipc_error ∷ wakes) us
  one_reply :
      {wakes : List Wake} {us : List Utcb} {u : Utcb} (x : ℕ)
      → Reply device u x
      → Answers device wakes us
      → Answers device (message u ∷ wakes) (set_mr 0 x u ∷ us)

-- Replies before those of a run.
prepend : List Utcb → Run → Run
prepend [] r = r
prepend (u ∷ us) r = reply_first u (prepend us r)

Reads-serve :
    (between rest : List Wake) (t : VirtioTransport)
    → All (Reads (length t.config)) between
    → (us : List Utcb) × (t' : VirtioTransport) × (serve (between ++ rest) t
        ≡ prepend us (serve rest t'))
      × Answers t.device_features between us
      × (t'.config ≡ t.config)
unfolding serve prepend
Reads-serve [] rest t h = ([], t, refl, all_answered, refl)
Reads-serve (ipc_error ∷ between) rest t h =
    let (us, t', e, answers, same) = Reads-serve between rest t h.1 in
    (us, t', e, no_reply answers, same)
Reads-serve (message u ∷ between) rest t h =
    let (x, t1, e, right, same, device) = Reads-handle_request u t h.0 in
    let (us, t', e', answers, same') =
      Reads-serve between rest t1 (subst (λ c. All (Reads (length c)) between) (sym same) h.1) in
    (
      set_mr 0 x u ∷ us,
      t',
      ap (then_serve (λ s. serve (between ++ rest) s)) e ∙ ap (reply_first (set_mr 0 x u)) e',
      one_reply x right (subst (λ d. Answers d between us) device answers),
      same' ∙ same,
    )

prepend-some :
    (us vs : List Utcb) (t : VirtioTransport) → prepend us (some (vs, t)) ≡ some (us ++ vs, t)
unfolding prepend
prepend-some [] vs t = refl
prepend-some (u ∷ us) vs t = ap (reply_first u) (prepend-some us vs t)

four_bytes : (v : ℕ) → length (take 4 (to_le_bytes 8 v)) ≡ 4
unfolding to_le_bytes
four_bytes v = refl

same_config :
    (off n : ℕ) (t t' : VirtioTransport)
    → t.config ≡ t'.config
    → read_config off n t ≡ read_config off n t'
unfolding read_config
same_config off n t t' e =
    ap (λ c. if leb (off + n) (length c) then some (read_at c off n) else none) e

-- A client writes a word at an offset in the configuration space, and after any requests in between
-- that do not write it and read inside of it, and any failed waits, a client reads at that offset:
-- the server replies 0 to the first, once to each request in between, in order and with its other
-- registers as they were: with the features of the device, with those of them that the client
-- supports, or with all bits if the request is not known; and to the last with the low 32 bits of the
-- word.
pub serve-write_read :
    (w r : Utcb) (between : List Wake) (t : VirtioTransport)
    → w.mr 0 ≡ 2
    → r.mr 0 ≡ 3
    → r.mr 1 ≡ w.mr 1
    → w.mr 1 + 4 ≤ length t.config
    → All (Reads (length t.config)) between
    → (first : Utcb) × (middle : List Utcb) × (last : Utcb) × (t' : VirtioTransport) × (serve
          (message w ∷ between ++ message r ∷ [])
          t
        ≡ some (first ∷ middle ++ last ∷ [], t'))
      × (first ≡ set_mr 0 0 w)
      × Answers t.device_features between middle
      × (last.mr 0 ≡ w.mr 2 % 2 ^ 32)
unfolding serve handle_request prepend
serve-write_read w r between t two three same inside reads =
    let bytes : List ℕ = take 4 (to_le_bytes 8 (w.mr 2)) in
    let sized : length bytes ≡ 4 = four_bytes (w.mr 2) in
    elim (write_config_lem (w.mr 1) bytes t) [
      | inl (beyond, e) ↦ absurd (omega arith)
      | inr (le, t1, e, v) ↦
          let wrote : handle_request w t ≡ some (set_mr 0 0 w, t1) = ground (arith, e, two) in
          let (us, t', done, answers, kept) =
            Reads-serve between (message r ∷ []) t1
              (subst (λ n. All (Reads n) between) (sym v.size) reads) in
          let back : read_config (r.mr 1) 4 t' ≡ some bytes =
            ap₂ (λ o n. read_config o n t') same (sym sized)
            ∙ same_config (w.mr 1) (length bytes) t' t1 kept
            ∙ v.read_back in
          let last = set_mr 0 (from_le_bytes bytes) r in
          let answered : handle_request r t' ≡ some (last, t') = ground (arith, back, three) in
          (
            set_mr 0 0 w,
            us,
            last,
            t',
            ap (then_serve (λ x. serve (between ++ message r ∷ []) x)) wrote
                ∙ ap (reply_first (set_mr 0 0 w)) (
                    done
                    ∙ ap (λ h. prepend us (then_serve (λ x. serve [] x) h)) answered
                    ∙ prepend-some us (last ∷ []) t'),
            refl,
            subst (λ d. Answers d between us) v.same_device answers,
            low_half (w.mr 2),
          )
    ]
