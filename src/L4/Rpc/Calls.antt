-- ===== src/L4/Rpc/Calls.antt =====
-- A call of the generated code of crates/l4/ipc/iface.rs, from the client through the server and
-- back.
use l4rerust.Base.{ℕ, ◌^◌, ◌<◌, ◌≡◌, ◌≢◌, ap, sym, ◌∙◌, some, List, [], ◌∷◌, length, map, arith}
use l4rerust.Base.Int.{ℤ, pos}
use l4rerust.L4.Codes.{Consts, IsCodes, GenericErr}
use l4rerust.L4.Error.{Error, generic, Result, ok, err}
use l4rerust.L4.MsgTag.{MsgTag, new, words, result}
use l4rerust.L4.MsgTag.Fields.{FitsLabel, fields-new}
use l4rerust.L4.MsgTag.Errors.{sent_as, result-error_reply, result-new}
use l4rerust.L4.Utcb.{Outcome, words as words_of}
use l4rerust.L4.Utcb.RoundTrip.{Field, IsField, Fits, write_all, written_lem}
use l4rerust.L4.Rpc.{
  i32, mr_bytes, Arm, find_arm, op_dispatch, delivered, returned, returning, sent, Client, call,
  answered, requested, ensured, slots_of, Served, linked, exchange, sent_back,
}
use l4rerust.L4.Rpc.Delivery.{CopiesWords, read_first, in_registers, Passed-Written}
use l4rerust.L4.Rpc.Dispatch.{
  opcode_field, opcode_field-IsField, untyped_words-words, IsRequest, op_dispatch-Request,
  returned-ok,
}

module _ (k : Consts) (codes : IsCodes k) (data_size : ℕ) (small : data_size < 64) {S C : Type 0}
    (transfer : ℕ → List ℕ → List ℕ → List ℕ) (copies : CopiesWords transfer)
    (error_code : MsgTag → ℕ) (slots : C → Result (Unit {0}) × C) (proto : ℤ)
    (fits_label : FitsLabel proto) (arms : List (Arm S)) where
  abbrev client : Client
  client = linked k data_size transfer error_code slots proto i32 arms

  -- A call reaches the method, and what follows is the way back of its result.
  reaches :
      (a : Arm S) (args : List Field) (base sbase : List ℕ) (s : S) (cl cl' : C)
      → IsRequest data_size a args
      → find_arm (pos a.opcode) arms ≡ some a
      → slots cl ≡ (ok tt, cl')
      → length base ≡ mr_bytes data_size
      → length sbase ≡ mr_bytes data_size
      → (b : List ℕ) × (m : List ℕ) × (off : ℕ) × (call k 0x8000 data_size client proto a.opcode
            args a.ret base
            (cl, sbase, s)
          ≡ answered k 0x8000 data_size client a.ret (
              sent_back k data_size transfer error_code slots proto i32 arms cl' b (
                returned data_size a.ret
                  (record { regs = record { base = m; offset = off }; items = 0 })
                  (a.method (map Field.value args) s))))
        × (length b ≡ mr_bytes data_size)
        × (length m ≡ mr_bytes data_size)
  unfolding call exchange write_all
  reaches a args base sbase s cl cl' q found ready sized sized_s =
      let (r, w) =
        written_lem (mr_bytes data_size) (in_registers data_size small)
          (opcode_field a.opcode ∷ args) (record { base = base; offset = 0 })
          (opcode_field-IsField a.opcode, q.lawful) (record { sized = sized; inside = omega arith })
          q.fits in
      let p =
        Passed-Written data_size small transfer copies (opcode_field a.opcode ∷ args) base sbase r
          sized sized_s w in
      let n = words_of r in
      let m = transfer n r.base sbase in
      let tag = fields-new proto n 0 0 fits_label (omega (arith, p.few)) (omega arith) in
      let back = λ (b : List ℕ) (c : C) (o : Served S).
        answered k 0x8000 data_size client a.ret
          (sent_back k data_size transfer error_code slots proto i32 arms c b o) in
      (
        r.base,
        m,
        r.offset,
        ap
              (λ o.
                ensured k 0x8000 data_size client proto a.opcode args a.ret base
                  (slots_of k data_size transfer error_code slots proto i32 arms o sbase s))
              ready
            ∙ ap (requested k 0x8000 data_size client proto a.ret (cl', sbase, s)) w.done
            ∙ ap (sent k 0x8000 data_size client proto a.ret r.base (cl', sbase, s))
                (untyped_words-words r)
            ∙ ap
                (λ x. back r.base cl' (
                  op_dispatch data_size proto i32 arms (new proto n 0 0)
                    (record {
                      regs = record { base = transfer x r.base sbase; offset = 0 };
                      items = 0;
                    })
                    s))
                tag.1
            ∙ ap (back r.base cl') (
                op_dispatch-Request data_size small proto fits_label arms a args m n r.offset s q
                  found p.few p.read_there),
        w.same_size ∙ sized,
        copies.same_size n r.base sbase (omega (arith, p.few, w.same_size, sized))
              (w.same_size ∙ sized ∙ sym sized_s)
            ∙ sized_s,
      )

  -- A call with arguments that fit in the registers, of the types of an arm of the server, which is
  -- the first with its op code, and a method whose result fits in them: the method is run once, on the
  -- values sent, and the client has the value that it returns.
  pub call-returned :
      (a : Arm S) (args : List Field) (val base sbase : List ℕ) (s s' : S) (cl cl' : C)
      → IsRequest data_size a args
      → find_arm (pos a.opcode) arms ≡ some a
      → slots cl ≡ (ok tt, cl')
      → length base ≡ mr_bytes data_size
      → length sbase ≡ mr_bytes data_size
      → a.method (map Field.value args) s ≡ (ok val, s')
      → IsField (record { layout = a.ret; value = val })
      → Fits (mr_bytes data_size) (record { layout = a.ret; value = val } ∷ []) 0
      → (base' : List ℕ) × (sbase' : List ℕ) × (call k 0x8000 data_size client proto a.opcode args
            a.ret base
            (cl, sbase, s)
          ≡ some (ok val, base', (cl', sbase', s')))
  unfolding FitsLabel
  call-returned a args val base sbase s s' cl cl' q found ready sized sized_s done f fits =
      let (b, m, off, there, size_b, size_m) =
        reaches a args base sbase s cl cl' q found ready sized sized_s in
      let (r, back, w) =
        returned-ok data_size small proto fits_label arms a.ret val m off s' f size_m fits in
      let fs : List Field = record { layout = a.ret; value = val } ∷ [] in
      let p = Passed-Written data_size small transfer copies fs m b r size_m size_b w in
      let n = words_of r in
      let zero_fits : 0 < 2 ^ 47 = omega arith in
      let tag = fields-new (pos 0) n 0 0 zero_fits (omega (arith, p.few)) (omega arith) in
      let (r1, first, rest) =
        read_first (mr_bytes data_size) a.ret [] (record { base = transfer n r.base b; offset = 0 })
          (record { base = transfer n r.base b; offset = r.offset }) val [] p.read_there in
      let answer = λ (o : Served S).
        answered k 0x8000 data_size client a.ret
          (sent_back k data_size transfer error_code slots proto i32 arms cl' b o) in
      let st : C × List ℕ × S = (cl', r.base, s') in
      (
        transfer n r.base b,
        r.base,
        there
            ∙ ap
                (λ o. answer (
                  returned data_size a.ret
                    (record { regs = record { base = m; offset = off }; items = 0 }) o))
                done
            ∙ ap answer back
            ∙ ap
                (λ x.
                  answered k 0x8000 data_size client a.ret
                    (some (new (pos 0) n 0 0, transfer x r.base b, st)))
                tag.1
            ∙ ap (returning k 0x8000 data_size client a.ret (transfer n r.base b) st) (
                result-new k (error_code (new (pos 0) n 0 0)) (pos 0) n zero_fits
                  (omega (arith, p.few)))
            ∙ ap (λ (o : Outcome (List ℕ)). some (o.0, transfer n r.base b, st)) first,
      )

  -- Such a call of a method that fails with an error that is sent as a generic error, whose number is
  -- not 0: the client has that generic error.
  pub call-failed :
      (a : Arm S) (args : List Field) (e : Error) (g : GenericErr) (base sbase : List ℕ) (s s' : S)
      (cl cl' : C)
      → IsRequest data_size a args
      → find_arm (pos a.opcode) arms ≡ some a
      → slots cl ≡ (ok tt, cl')
      → length base ≡ mr_bytes data_size
      → length sbase ≡ mr_bytes data_size
      → a.method (map Field.value args) s ≡ (err e, s')
      → sent_as e ≡ some g
      → k.code g ≢ 0
      → (base' : List ℕ) × (sbase' : List ℕ) × (call k 0x8000 data_size client proto a.opcode args
            a.ret base
            (cl, sbase, s)
          ≡ some (err (generic g), base', (cl', sbase', s')))
  call-failed a args e g base sbase s s' cl cl' q found ready sized sized_s done sent_g nonzero =
      let (b, m, off, there, size_b, size_m) =
        reaches a args base sbase s cl cl' q found ready sized sized_s in
      let (t0, reply0, arrives0) = result-error_reply k codes 0 e g sent_g nonzero in
      let (t, reply, arrives) = result-error_reply k codes (error_code t0) e g sent_g nonzero in
      let same : t0 ≡ t = cc in
      let base' = transfer (words t) m b in
      let st : C × List ℕ × S = (cl', m, s') in
      (
        base',
        m,
        there
            ∙ ap
                (λ o. answered k 0x8000 data_size client a.ret (
                  sent_back k data_size transfer error_code slots proto i32 arms cl' b (
                    returned data_size a.ret
                      (record { regs = record { base = m; offset = off }; items = 0 }) o)))
                done
            ∙ ap
                (λ o.
                  answered k 0x8000 data_size client a.ret
                    (delivered k data_size transfer error_code slots proto i32 arms cl' b m s' o))
                reply
            ∙ ap (returning k 0x8000 data_size client a.ret base' st)
                (ap (λ x. result k 0x8000 (error_code x) t) (sym same) ∙ arrives),
      )
