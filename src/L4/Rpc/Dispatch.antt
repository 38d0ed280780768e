-- ===== src/L4/Rpc/Dispatch.antt =====
-- `op_dispatch` of crates/l4/ipc/iface.rs on a request that has arrived.
use l4rerust.Base.{
  ℕ, ◌+◌, ◌*◌, ◌^◌, ◌≤◌, ◌<◌, ◌≡◌, refl, ap, sym, ◌∙◌, some, List, [], ◌∷◌, length, map, All, ltb,
  arith, false,
}
use l4rerust.Base.Int.{ℤ, pos, eq_ℤ_refl}
use l4rerust.Base.Word.{to_le_bytes}
use l4rerust.L4.Error.{ok}
use l4rerust.L4.MsgTag.{new, words, items}
use l4rerust.L4.MsgTag.Fields.{FitsLabel, fields-new}
use l4rerust.L4.Utcb.{
  Layout, Registers, UtcbMr, read, write, untyped_words, words as words_of, reset, reset_mr,
}
use l4rerust.L4.Utcb.Bounds.{length-to_le_bytes}
use l4rerust.L4.Utcb.RoundTrip.{Field, IsField, Fits, write_all, read_all, Written, written_lem}
use l4rerust.L4.Rpc.{
  i32, mr_bytes, Arm, find_arm, op_dispatch, tagged, replied, returned, invoked, chosen, selected,
}
use l4rerust.L4.Rpc.Delivery.{i32_back, and_then-ok, read_first, in_registers}

abbrev pub opcode_field : ℕ → Field
opcode_field n = record { layout = i32.layout; value = to_le_bytes 4 n }

pub opcode_field-IsField : (n : ℕ) → IsField (opcode_field n)
opcode_field-IsField n = record {
  sized = length-to_le_bytes 4 n;
  aligned = record { exponent = 2; is_power = refl; bounded = omega arith };
}

pub untyped_words-words :
    (r : Registers) → untyped_words (record { regs = r; items = 0 }) ≡ some (words_of r)
unfolding untyped_words
untyped_words-words r = ground arith

-- The op code and the arguments lie in the message registers, and have the types that the server
-- reads.
pub record IsRequest {S : Type 0} (data_size : ℕ) (a : Arm S) (args : List Field) : Type 0 where
  pub op : a.opcode < 2 ^ 31
  pub typed : map Field.layout args ≡ a.args
  pub lawful : All IsField args
  pub fits : Fits (mr_bytes data_size) (opcode_field a.opcode ∷ args) 0

-- The registers as the server loop hands them on.
abbrev pub fresh : List ℕ → UtcbMr
fresh m = record { regs = record { base = m; offset = 0 }; items = 0 }

module _ (data_size : ℕ) (small : data_size < 64) {S : Type 0} (proto : ℤ)
    (fits_label : FitsLabel proto) (arms : List (Arm S)) where
  -- A request that has arrived is handed to the method of its op code, with the values sent.
  pub op_dispatch-Request :
      (a : Arm S) (args : List Field) (m : List ℕ) (w off : ℕ) (s : S)
      → IsRequest data_size a args
      → find_arm (pos a.opcode) arms ≡ some a
      → w ≤ data_size
      → read_all
          (mr_bytes data_size)
          (map Field.layout (opcode_field a.opcode ∷ args))
          (record { base = m; offset = 0 })
        ≡ (ok (map Field.value (opcode_field a.opcode ∷ args)), record { base = m; offset = off })
      → op_dispatch data_size proto i32 arms (new proto w 0 0) (fresh m) s
        ≡ returned data_size a.ret
            (record { regs = record { base = m; offset = off }; items = 0 })
            (a.method (map Field.value args) s)
  unfolding op_dispatch
  op_dispatch-Request a args m w off s q found few there =
      let tag = fields-new proto w 0 0 fits_label (omega arith) (omega arith) in
      let (r1, first, rest) =
        read_first (mr_bytes data_size) i32.layout (map Field.layout args)
          (record { base = m; offset = 0 }) (record { base = m; offset = off })
          (to_le_bytes 4 a.opcode) (map Field.value args) there in
      let room : ltb data_size (words (new proto w 0 0) + items (new proto w 0 0) * 2) ≡ false =
        ground (arith, tag.1, tag.2) in
      let pass : op_dispatch data_size proto i32 arms (new proto w 0 0) (fresh m) s
          ≡ selected data_size i32 arms (fresh m) s
              (read (mr_bytes data_size) i32.layout (fresh m).regs) =
        rw (room, op_dispatch) (rw tag.0 (rw (eq_ℤ_refl proto) refl)) in
      pass
      ∙ ap (selected data_size i32 arms (fresh m) s) first
      ∙ ap (λ n. chosen data_size n (fresh m) r1 s (find_arm n arms)) (i32_back a.opcode q.op)
      ∙ ap (chosen data_size (pos a.opcode) (fresh m) r1 s) found
      ∙ ap (invoked data_size a (record (fresh m) { regs = r1 }) s)
          (ap (λ ts. read_all (mr_bytes data_size) ts r1) (sym q.typed) ∙ rest)

  -- What a method returns is written from the start of the registers.
  pub returned-ok :
      (ret : Layout) (val m : List ℕ) (off : ℕ) (s : S)
      → IsField (record { layout = ret; value = val })
      → length m ≡ mr_bytes data_size
      → Fits (mr_bytes data_size) (record { layout = ret; value = val } ∷ []) 0
      → (r : Registers) × (returned data_size ret
            (record { regs = record { base = m; offset = off }; items = 0 })
            (ok val, s)
          ≡ some (ok (new (pos 0) (words_of r) 0 0), record { regs = r; items = 0 }, s))
        × Written
            (mr_bytes data_size)
            (in_registers data_size small)
            (record { layout = ret; value = val } ∷ [])
            (record { base = m; offset = 0 })
            r
  unfolding write_all reset_mr reset
  returned-ok ret val m off s f sized fits =
      let (r, w) =
        written_lem (mr_bytes data_size) (in_registers data_size small)
          (record { layout = ret; value = val } ∷ []) (record { base = m; offset = 0 }) (f, tt)
          (record { sized = sized; inside = omega arith }) fits in
      let (a, r1, wrote, end) =
        and_then-ok (write (mr_bytes data_size) ret val (record { base = m; offset = 0 })) _ tt r
          w.done in
      let same : r1 ≡ r = ap (λ o. o.1) end in
      let start : UtcbMr = fresh m in
      (
        r,
        ap (replied start s) (wrote ∙ ap (λ q. (ok tt, q)) same)
            ∙ ap (tagged (record start { regs = r }) s) (untyped_words-words r),
        w,
      )
