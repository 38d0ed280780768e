-- ===== src/L4Sys/Factory/Create/Gate.antt =====
-- The message by which crates/l4-sys/factory.rs creates an IPC gate.
use l4rerust.Base.{
  ℕ, ◌*◌, ◌/◌, ◌^◌, ◌<◌, ◌≡◌, refl, ap, subst, sym, ◌∙◌, some, List, length, take, set, ◌==◌,
  if_true, bit_and, bit_or, arith,
}
use l4rerust.Base.Int.{pos}
use l4rerust.Base.Word.{as_u64, to_le_bytes}
use l4rerust.Base.Ranges.{
  write_at, read_at, length-write_at, read_at-write_at, take-write_at, read_at-write_at_before,
}
use l4rerust.L4.MsgTag.{MsgTag, new, label, words, items, flags}
use l4rerust.L4.MsgTag.Fields.{FitsLabel, fields-new, raw-new}
use l4rerust.L4.Utcb.Bounds.{length-to_le_bytes}
use l4rerust.L4Sys.Factory.{set_word, add_uint}
use l4rerust.L4Sys.Factory.Puts.{varg}
use l4rerust.L4Sys.Factory.Adding.{IsTypes, uint, set_word-in}
use l4rerust.L4Sys.Factory.Arguments.{add-Added}
use l4rerust.L4Sys.Factory.Create.{
  Consts, Regs, ◌>>=◌, map_obj_control, create_start, create_commit, with_arg, with_thread,
  create_gate,
}

-- The label lies above the number of words.
label_above : (t t' : MsgTag) → t'.raw / 2 ^ 6 ≡ t.raw / 2 ^ 6 → label t' ≡ label t
unfolding label
label_above t t' e = ground arith

abbrev pub word_at : ℕ → List ℕ → List ℕ
word_at i m = read_at m (i * 8) 8

module _ (k : Consts) (v : IsTypes k.types) (fits_label : FitsLabel k.proto_factory) (data_size : ℕ)
    (enough : 4 < data_size) (small : data_size < 64) {W : Type 0}
    (ipc_call : ℕ → MsgTag → Regs → W → MsgTag × Regs × W) where
  -- What the kernel is given: the tag, the label as the argument, and the item that maps the thread.
  pub record IsGateMessage (thread_cap gate_label target : ℕ) (tag : MsgTag) (r r' : Regs)
      : Type 0 where
    pub kind : label tag ≡ k.proto_factory
    pub counted : (words tag ≡ 3) × (items tag ≡ 1)
    pub argument : varg 1 r'.mr ≡ (k.types.umword, to_le_bytes 8 gate_label)
    pub item :
        (word_at 3 r'.mr ≡ to_le_bytes 8 (map_obj_control k 0 0))
        × (word_at 4 r'.mr ≡ to_le_bytes 8 (k.obj_fpage thread_cap 0 k.fpage_rwx))
    pub receives : (r'.bdr ≡ 0) × (r'.br ≡ set r.br 0 (bit_or target k.single_cap))

  -- The item behind the argument.
  item_lem :
      (x y : ℕ) (m : List ℕ)
      → data_size * 8 < length m
      → let m2 = write_at m 24 (to_le_bytes 8 x) in
        let m3 = write_at m2 32 (to_le_bytes 8 y) in
        (take 24 m3 ≡ take 24 m)
        × (word_at 3 m3 ≡ to_le_bytes 8 x)
        × (word_at 4 m3 ≡ to_le_bytes 8 y)
  item_lem x y m h =
      let m2 = write_at m 24 (to_le_bytes 8 x) in
      let sx = length-to_le_bytes 8 x in
      let sy = length-to_le_bytes 8 y in
      let s2 : length m2 ≡ length m = length-write_at m (to_le_bytes 8 x) 24 (omega (arith, sx)) in
      (
        take-write_at m2 (to_le_bytes 8 y) 32 24 (omega arith) (omega (arith, s2))
            ∙ take-write_at m (to_le_bytes 8 x) 24 24 (omega arith) (omega arith),
        read_at-write_at_before m2 (to_le_bytes 8 y) 32 24 8 (omega (arith, sy, s2)) (omega arith)
            ∙ ap (read_at m2 24) (sym sx)
            ∙ read_at-write_at m (to_le_bytes 8 x) 24 (omega (arith, sx)),
        ap (read_at (write_at m2 32 (to_le_bytes 8 y)) 32) (sym sy)
            ∙ read_at-write_at m2 (to_le_bytes 8 y) 32 (omega (arith, sy, s2)),
      )

  -- Creating a gate for a valid thread capability, with at least five message registers: the kernel is
  -- called once, with a tag of three words and one item of the protocol of the factory, with the label
  -- as the argument from word 1 on and the item that maps the thread in the words 3 and 4, and it
  -- receives one capability for the target.
  pub create_gate_lem :
      (factory target thread_cap gate_label : ℕ) (r : Regs) (w : W)
      → data_size * 8 < length r.mr
      → bit_and thread_cap k.invalid_cap_bit ≡ 0
      → (tag : MsgTag) × (r' : Regs) × (create_gate k data_size ipc_call factory target thread_cap
            gate_label r w
          ≡ some (ipc_call factory tag r' w))
        × IsGateMessage thread_cap gate_label target tag r r'
  unfolding create_gate create_start
  create_gate_lem factory target thread_cap gate_label r w behind valid =
      let t0 = new k.proto_factory 1 0 0 in
      let f0 = fields-new k.proto_factory 1 0 0 fits_label (omega arith) (omega arith) in
      let m0 = write_at r.mr 0 (to_le_bytes 8 (as_u64 (pos 0))) in
      let s0 : length m0 ≡ length r.mr =
        length-write_at r.mr (to_le_bytes 8 (as_u64 (pos 0))) 0
          (omega (arith, length-to_le_bytes 8 (as_u64 (pos 0)))) in
      let (t1, m1, e1, one) =
        add-Added data_size small k.types v (uint gate_label) t0 m0
          (omega (arith, raw-new k.proto_factory 1 0 0)) (omega (arith, s0))
          (omega (arith, f0.1)) in
      let three : words t1 ≡ 3 = omega (arith, one.more_words, f0.1) in
      let same_label : label t1 ≡ k.proto_factory = label_above t0 t1 one.same_tag ∙ f0.0 in
      let x = map_obj_control k 0 0 in
      let y = k.obj_fpage thread_cap 0 k.fpage_rwx in
      let m2 = write_at m1 24 (to_le_bytes 8 x) in
      let m3 = write_at m2 32 (to_le_bytes 8 y) in
      let items_there = item_lem x y m1 (omega (arith, one.same_size, s0)) in
      let tag = new (label t1) (words t1) 1 (flags t1) in
      let f =
        fields-new (label t1) (words t1) 1 (flags t1) (subst FitsLabel (sym same_label) fits_label)
          (omega (arith, three)) (omega arith) in
      let br' = set r.br 0 (bit_or target k.single_cap) in
      let r1 : List ℕ → Regs = λ m. record { mr = m; bdr = 0; br = br' } in
      let commit = λ (s : ℕ × MsgTag × Regs).
        create_commit k data_size ipc_call factory (new (label s.1) (words s.1) s.0 (flags s.1)) s.2
          w in
      (
        tag,
        r1 m3,
        ap
              (λ o.
                (o >>= (λ m. some (t0, r1 m)))
                >>= with_arg k data_size ipc_call (add_uint data_size k.types gate_label)
                >>= with_thread k data_size ipc_call thread_cap
                >>= commit)
              (set_word-in data_size small 0 (as_u64 (pos 0)) r.mr (omega arith))
            ∙ ap
                (λ o.
                  (o >>= (λ a. some (a.1.0, r1 a.1.1)))
                  >>= with_thread k data_size ipc_call thread_cap
                  >>= commit)
                e1
            ∙ ap (λ o. o >>= commit)
                (if_true (bit_and thread_cap k.invalid_cap_bit == 0) _ _ (ground (arith, valid)))
            ∙ ap
                (λ o.
                  (o >>= (λ m. set_word data_size 4 y m) >>= (λ m. some (1, t1, r1 m))) >>= commit)
                (set_word-in data_size small 3 x m1 (omega arith))
            ∙ ap (λ o. (o >>= (λ m. some (1, t1, r1 m))) >>= commit)
                (set_word-in data_size small 4 y m2 (omega arith)),
        record {
          kind = f.0 ∙ same_label;
          counted = (f.1 ∙ three, f.2);
          argument =
              ap (λ i. varg i m3) (sym f0.1)
              ∙ (one.there m3 (
                  ap (λ n. take (n * 8) m3) three
                  ∙ items_there.0
                  ∙ ap (λ n. take (n * 8) m1) (sym three))).0;
          item = (items_there.1, items_there.2);
          receives = (refl, refl);
        },
      )
