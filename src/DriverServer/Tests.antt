-- ===== src/DriverServer/Tests.antt =====
-- Requests to the driver server of src/driver_server/src/main.rs.
use l4rerust.Base.{ℕ, ◌%◌, ◌^◌, ◌≡◌, refl, some, List, [], ◌∷◌, ◌++◌, ◌==◌, if◌then◌else◌, arith}
use l4rerust.Ipc.{Utcb, set_mr}
use l4rerust.Ipc.Loop.{Wake, ipc_error, message}
use l4rerust.Virtio.Transport.{VirtioTransport}
use l4rerust.DriverServer.{initial, serve}
use l4rerust.DriverServer.Config.{Answers, serve-write_read}

abbrev with_regs : ℕ → ℕ → ℕ → Utcb
with_regs a b c = record {
  mr = λ i. if i == 0 then a else if i == 1 then b else c;
  len = 0;
  payload = [];
}

abbrev between : List Wake
between = message (with_regs 1 5 0) ∷ ipc_error ∷ message (with_regs 3 0 0) ∷ []

serve-write_read_example :
    (first : Utcb) × (middle : List Utcb) × (last : Utcb) × (t' : VirtioTransport) × (serve
        (message (with_regs 2 4 4660) ∷ between ++ message (with_regs 3 4 0) ∷ [])
        initial
      ≡ some (first ∷ middle ++ last ∷ [], t'))
    × (first ≡ set_mr 0 0 (with_regs 2 4 4660))
    × Answers initial.device_features between middle
    × (last.mr 0 ≡ 4660 % 2 ^ 32)
serve-write_read_example =
    serve-write_read (with_regs 2 4 4660) (with_regs 3 4 0) between initial refl refl refl
      (omega arith)
      ((λ e. omega arith, λ e. omega arith), (tt, ((λ e. omega arith, λ e. omega arith), tt)))
