-- ===== src/L4/Rpc.antt =====
-- The calls and the dispatch that the macros `derive_ipc_calls` and `iface_back` of
-- crates/l4/ipc/iface.rs generate, for arguments and results whose `Serialiser` reads and writes them
-- as they are (`impl_serialisable`). `none` is a panic, or a call that never returns.
pub mod Delivery
pub mod Dispatch
pub mod Calls
use l4rerust.Base.{ℕ, ◌+◌, ◌*◌, Option, none, some, List, [], ◌∷◌, ltb, not, if◌then◌else◌}
use l4rerust.Base.Int.{ℤ, pos, eq_ℤ}
use l4rerust.Base.Word.{as_i32, from_le_bytes, to_le_bytes}
use l4rerust.L4.Codes.{Consts, GenericErr}
use l4rerust.L4.Error.{Error, generic, invalid_arg, Result, ok, err}
use l4rerust.L4.MsgTag.{MsgTag, new, label, words, items, result}
use l4rerust.L4.MsgTag.Errors.{error_reply}
use l4rerust.L4.Utcb.{
  Layout, Registers, UtcbMr, Outcome, and_then, read, write, untyped_words, reset_mr,
}
use l4rerust.L4.Utcb.RoundTrip.{Field, write_all, read_all}

-- `OpType` of an interface: how it lies in memory and which number its bytes are.
pub record OpType : Type 0 where
  pub layout : Layout
  pub value : List ℕ → ℤ

abbrev pub i32 : OpType
i32 = record {
  layout = record { size = 4; align = 4 };
  value = λ bytes. as_i32 (from_le_bytes bytes);
}

-- `L4_UTCB_GENERIC_DATA_SIZE` words of 8 bytes
abbrev pub mr_bytes : ℕ → ℕ
mr_bytes data_size = data_size * 8

-- One arm of the `match` on the op code: the types of the arguments and of the result, and the method
-- of the server on their bytes.
pub record Arm (S : Type 0) : Type 0 where
  pub opcode : ℕ
  pub args : List Layout
  pub ret : Layout
  pub method : List (List ℕ) → S → Result (List ℕ) × S

-- The first arm whose op code is the number.
unfoldable pub find_arm : {S : Type 0} → ℤ → List (Arm S) → Option (Arm S)
find_arm n [] = none
find_arm n (a ∷ arms) = let rest = find_arm n arms in if eq_ℤ n (pos a.opcode) then some a else rest

-- What `op_dispatch` returns, the registers and the server after it.
abbrev pub Served : Type 0 → Type 0
Served S = Option (Result MsgTag × UtcbMr × S)

-- `Ok(MsgTag::new(0, mr.words(), mr.items(), 0))`, of the words
abbrev pub tagged : {S : Type 0} → UtcbMr → S → Option ℕ → Served S
tagged mr s none = none
tagged mr s (some w) = some (ok (new (pos 0) w mr.items 0), mr, s)

-- The result has been written.
abbrev pub replied : {S : Type 0} → UtcbMr → S → Outcome (Unit {0}) → Served S
replied mr s (err e, r) = some (err e, record mr { regs = r }, s)
replied mr s (ok _, r) =
    let mr' : UtcbMr = record mr { regs = r } in tagged mr' s (untyped_words mr')

module _ (data_size : ℕ) {S : Type 0} where
  -- The method has returned.
  abbrev pub returned : Layout → UtcbMr → Result (List ℕ) × S → Served S
  returned ret mr (err e, s) = some (err e, mr, s)
  returned ret mr (ok val, s) =
      let start = reset_mr mr in replied start s (write (mr_bytes data_size) ret val start.regs)

  -- The arguments have been read.
  abbrev pub invoked : Arm S → UtcbMr → S → Outcome (List (List ℕ)) → Served S
  invoked a mr s (err e, r) = some (err e, record mr { regs = r }, s)
  invoked a mr s (ok vals, r) = returned a.ret (record mr { regs = r }) (a.method vals s)

  -- The arm of the op code `n`, if there is one.
  abbrev pub chosen : ℤ → UtcbMr → Registers → S → Option (Arm S) → Served S
  chosen n mr r s none =
      some (err (invalid_arg "unknown opcode received" (some n)), record mr { regs = r }, s)
  chosen n mr r s (some a) =
      invoked a (record mr { regs = r }) s (read_all (mr_bytes data_size) a.args r)

  -- The op code has been read.
  abbrev pub selected : OpType → List (Arm S) → UtcbMr → S → Outcome (List ℕ) → Served S
  selected op_type arms mr s (err e, r) = some (err e, record mr { regs = r }, s)
  selected op_type arms mr s (ok bytes, r) =
      let n = op_type.value bytes in chosen n mr r s (find_arm n arms)

  unfoldable pub op_dispatch : ℤ → OpType → List (Arm S) → MsgTag → UtcbMr → S → Served S
  op_dispatch protocol_id op_type arms tag mr s =
      if ltb data_size (words tag + items tag * 2)
      then some (err (generic GenericErr.msg_too_long), mr, s)
      else if not (eq_ℤ (label tag) protocol_id)
      then some (err (generic GenericErr.invalid_prot), mr, s)
      else selected op_type arms mr s (read (mr_bytes data_size) op_type.layout mr.regs)

-- What a call needs: `ensure_slots` of the client's buffers, and the kernel, which sends a tag with
-- the message registers and returns a tag and what the registers then hold.
pub record Client : Type 1 where
  pub State : Type 0
  pub ensure_slots : State → Result (Unit {0}) × State
  pub ipc_call : MsgTag → List ℕ → State → Option (MsgTag × List ℕ × State)
  pub ipc_error_code : MsgTag → State → ℕ

module _ (k : Consts) (error_flag data_size : ℕ) (c : Client) where
  -- The result of a call, the message registers and the state after it.
  abbrev pub Called : Type 0
  Called = Option (Result (List ℕ) × List ℕ × c.State)

  -- The result of the tag: a read from the start of the registers, or the error.
  abbrev pub returning : Layout → List ℕ → c.State → Option (Result MsgTag) → Called
  returning ret base s none = none
  returning ret base s (some (err e)) = some (err e, base, s)
  returning ret base s (some (ok _)) =
      some ((read (mr_bytes data_size) ret (record { base = base; offset = 0 })).0, base, s)

  -- The answer is here.
  abbrev pub answered : Layout → Option (MsgTag × List ℕ × c.State) → Called
  answered ret none = none
  answered ret (some (tag, base, s)) =
      returning ret base s (result k error_flag (c.ipc_error_code tag s) tag)

  -- The op code, an `i32` literal, and the arguments.
  abbrev pub write_request : ℕ → List Field → Registers → Outcome (Unit {0})
  write_request opcode args r =
      and_then (write (mr_bytes data_size) i32.layout (to_le_bytes 4 opcode) r)
        (λ _ r. write_all (mr_bytes data_size) args r)

  -- The message with its words is sent.
  abbrev pub sent : ℤ → Layout → List ℕ → c.State → Option ℕ → Called
  sent proto ret base s none = none
  sent proto ret base s (some w) = answered ret (c.ipc_call (new proto w 0 0) base s)

  abbrev pub requested : ℤ → Layout → c.State → Outcome (Unit {0}) → Called
  requested proto ret s (err e, r) = some (err e, r.base, s)
  requested proto ret s (ok _, r) =
      sent proto ret r.base s (untyped_words (record { regs = r; items = 0 }))

  abbrev pub ensured : ℤ → ℕ → List Field → Layout → List ℕ → Result (Unit {0}) × c.State → Called
  ensured proto opcode args ret base (err e, s) = some (err e, base, s)
  ensured proto opcode args ret base (ok _, s) =
      requested proto ret s (write_request opcode args (record { base = base; offset = 0 }))

  -- The method of a client, on the values of its arguments and the type of its result.
  unfoldable pub call : ℤ → ℕ → List Field → Layout → List ℕ → c.State → Called
  call proto opcode args ret base s = ensured proto opcode args ret base (c.ensure_slots s)

-- A client that is connected to a server: the kernel copies `words` words of the message from one
-- UTCB to the other, and the server loop with its default hooks replies.
module _ (k : Consts) (data_size : ℕ) {S C : Type 0} (transfer : ℕ → List ℕ → List ℕ → List ℕ)
    (error_code : MsgTag → ℕ) (slots : C → Result (Unit {0}) × C) (protocol_id : ℤ)
    (op_type : OpType) (arms : List (Arm S)) where
  -- The client, the registers of the server, and the server.
  abbrev pub Linked : Type 0
  Linked = C × List ℕ × S

  abbrev pub reply_of : Result MsgTag → Option MsgTag
  reply_of (ok t) = some t
  reply_of (err e) = error_reply k e

  -- The kernel hands the reply to the client.
  abbrev pub delivered : C → List ℕ → List ℕ → S → Option MsgTag → Option (MsgTag × List ℕ × Linked)
  delivered cl base sbase s none = none
  delivered cl base sbase s (some t) = some (t, transfer (words t) sbase base, (cl, sbase, s))

  abbrev pub sent_back : C → List ℕ → Served S → Option (MsgTag × List ℕ × Linked)
  sent_back cl base none = none
  sent_back cl base (some (r, mr, s)) = delivered cl base mr.regs.base s (reply_of r)

  unfoldable pub exchange : MsgTag → List ℕ → Linked → Option (MsgTag × List ℕ × Linked)
  exchange tag base (cl, sbase, s) =
      let mr : UtcbMr = record {
        regs = record { base = transfer (words tag) base sbase; offset = 0 };
        items = 0;
      } in
      sent_back cl base (op_dispatch data_size protocol_id op_type arms tag mr s)

  abbrev pub slots_of : Result (Unit {0}) × C → List ℕ → S → Result (Unit {0}) × Linked
  slots_of (r, cl) sbase s = (r, (cl, sbase, s))

  abbrev pub linked : Client
  linked = record {
    State = Linked;
    ensure_slots = λ st. slots_of (slots st.0) st.1 st.2;
    ipc_call = exchange;
    ipc_error_code = λ tag _. error_code tag;
  }
