-- ===== src/L4Sys/Factory/Adding.antt =====
-- One argument that is added by crates/l4-sys/factory.rs.
use l4rerust.Base.{
  ℕ, ◌+◌, ◌*◌, ◌/◌, ◌%◌, ◌^◌, ◌≤◌, ◌<◌, ◌≡◌, refl, ap, ap₂, sym, ◌∙◌, Bool, true, Option, none,
  some, List, [], ◌∷◌, ◌++◌, length, take, drop, take_all, take-append-drop, append-nil,
  take-append, length-append, ltb, if_true, if_false, bit_or, arith,
}
use l4rerust.Base.Ranges.{write_at, read_at}
use l4rerust.Base.Word.{to_le_bytes}
use l4rerust.L4.MsgTag.{MsgTag, words}
use l4rerust.L4.Utcb.Bounds.{length-to_le_bytes}
use l4rerust.L4Sys.Factory.{
  VargTypes, Message, set_words, set_word, copy_bytes, and_then, done, add_word, add_int, add_uint,
  add_fpage, add_nil, add_text, word_count,
}
use l4rerust.L4Sys.Factory.Words.{words-set_words, rest-set_words, header}
use l4rerust.L4Sys.Factory.Puts.{
  varg_header, varg, next_varg, put, length-put, take-put, header-put, payload-put,
}

-- The arguments that can be added.
pub data Arg : Type 0 where
  int : ℕ → Arg
  uint : ℕ → Arg
  fpage : ℕ → Arg
  nil : Arg
  text : List ℕ → Arg

pub record IsTypes (types : VargTypes) : Type 0 where
  pub nil_small : types.nil < 2 ^ 16
  pub umword_small : types.umword < 2 ^ 16
  pub mword_small : types.mword < 2 ^ 16
  pub string_small : types.string < 2 ^ 16
  pub fpage_small : types.fpage < 2 ^ 16

abbrev pub add : ℕ → VargTypes → Arg → Message → Option (Bool × Message)
add data_size types (int d) s = add_int data_size types d s
add data_size types (uint d) s = add_uint data_size types d s
add data_size types (fpage d) s = add_fpage data_size types d s
add data_size types nil s = add_nil data_size types s
add data_size types (text bytes) s = add_text data_size types bytes s

-- The type and the bytes of an argument.
abbrev pub view : VargTypes → Arg → ℕ × List ℕ
view types (int d) = (types.mword, to_le_bytes 8 d)
view types (uint d) = (types.umword, to_le_bytes 8 d)
view types (fpage d) = (types.fpage, to_le_bytes 8 d)
view types nil = (types.nil, [])
view types (text bytes) = (types.string, bytes)

-- The words that an argument takes.
abbrev pub need : Arg → ℕ
need nil = 1
need (text bytes) = 1 + word_count (length bytes)
need _ = 2

-- A text also needs a word behind its header, even if it is empty.
abbrev pub HasRoom : ℕ → ℕ → Arg → Type 0
HasRoom data_size w (text bytes) = (w + need (text bytes) ≤ data_size) × (w + 1 < data_size)
HasRoom data_size w a = w + need a ≤ data_size

pub record Added (types : VargTypes) (a : Arg) (t t' : MsgTag) (m m' : List ℕ) : Type 0 where
  pub more_words : words t' ≡ words t + need a
  pub same_tag : t'.raw / 2 ^ 6 ≡ t.raw / 2 ^ 6
  pub same_size : length m' ≡ length m
  pub same_front : take (words t * 8) m' ≡ take (words t * 8) m
  pub there :
      (m'' : List ℕ)
      → take (words t' * 8) m'' ≡ take (words t' * 8) m'
      → (varg (words t) m'' ≡ view types a) × (next_varg (words t) m'' ≡ words t')

module _ (data_size : ℕ) (small : data_size < 64) where
  pub set_word-in :
      (i x : ℕ) (m : List ℕ)
      → i < data_size
      → set_word data_size i x m ≡ some (write_at m (i * 8) (to_le_bytes 8 x))
  unfolding set_word
  set_word-in i x m h = if_true (ltb i data_size) _ none (ground arith)

  copy_bytes-in :
      (i : ℕ) (bytes m : List ℕ)
      → i < data_size
      → copy_bytes data_size i bytes m ≡ some (write_at m (i * 8) bytes)
  unfolding copy_bytes
  copy_bytes-in i bytes m h = if_true (ltb i data_size) _ none (ground arith)

  -- A header of `len` bytes of a type, and bytes of which they are the first.
  put-Added :
      (types : VargTypes) (a : Arg) (ty len next : ℕ) (bytes : List ℕ) (t : MsgTag) (m : List ℕ)
      → ty < 2 ^ 16
      → t.raw < 2 ^ 64
      → len ≤ length bytes
      → (words t + 1) * 8 + length bytes ≤ length m
      → next ≡ words t + 1 + word_count len
      → next ≤ data_size
      → view types a ≡ (ty, take len bytes)
      → need a ≡ 1 + word_count len
      → Added types a t (set_words next t) m (put (words t) (len * 2 ^ 16 + ty) bytes m)
  put-Added types a ty len next bytes t m ty_small word le room is_next fits seen needs =
      let w = words t in
      let h = len * 2 ^ 16 + ty in
      let e : words (set_words next t) ≡ next = words-set_words next t (omega arith) in
      record {
        more_words = omega (arith, e);
        same_tag = rest-set_words next t word;
        same_size = length-put w h bytes m room;
        same_front = take-put w h bytes m room;
        there = λ m' same.
            let got : varg_header w m' ≡ h =
              header-put w h bytes m room m' (words (set_words next t) * 8) same (omega arith)
                (omega (arith, e)) in
            let size : varg_header w m' / 2 ^ 16 ≡ len = omega (arith, got) in
            let kind : varg_header w m' % 2 ^ 16 ≡ ty = omega (arith, got) in
            (
              ap₂ (λ x y. (x, read_at m' ((w + 1) * 8) y)) kind size
                  ∙ ap (λ y. (ty, y))
                      (payload-put w h bytes m room m' (words (set_words next t) * 8) same len le
                        (omega (arith, e)))
                  ∙ sym seen,
              omega (arith, size, e),
            );
      }

  pub word_lem :
      (types : VargTypes) (ty : ℕ) (a : Arg) (d : ℕ) (t : MsgTag) (m : List ℕ)
      → ty < 2 ^ 16
      → t.raw < 2 ^ 64
      → data_size * 8 < length m
      → words t + 2 ≤ data_size
      → view types a ≡ (ty, to_le_bytes 8 d)
      → need a ≡ 2
      → (add_word data_size ty d (t, m)
          ≡ some (
            true,
            (set_words (words t + 2) t, put (words t) (8 * 2 ^ 16 + ty) (to_le_bytes 8 d) m),
          ))
        × Added types a t
            (set_words (words t + 2) t)
            m
            (put (words t) (8 * 2 ^ 16 + ty) (to_le_bytes 8 d) m)
  unfolding add_word
  word_lem types ty a d t m ty_small word behind room seen needs =
      let w = words t in
      let sized = length-to_le_bytes 8 d in
      let h = bit_or ty (8 * 2 ^ 16) in
      let m1 = write_at m (w * 8) (to_le_bytes 8 h) in
      (
        if_false (ltb data_size (w + 2)) _ _ (ground arith)
            ∙ ap
                (λ o.
                  done data_size (w + 2) t
                    (and_then data_size o (λ m. set_word data_size (w + 1) d m)))
                (set_word-in w h m (omega arith))
            ∙ ap (done data_size (w + 2) t) (set_word-in (w + 1) d m1 (omega arith))
            ∙ ap (λ x. some (true, (set_words (w + 2) t, put w x (to_le_bytes 8 d) m)))
                (header ty 8 ty_small),
        put-Added types a ty 8 (w + 2) (to_le_bytes 8 d) t m ty_small word (omega (arith, sized))
            (omega (arith, sized)) (omega arith) room
            (seen ∙ ap (λ bs. (ty, bs)) (sym (take_all 8 (to_le_bytes 8 d) (omega (arith, sized)))))
            needs,
      )

  pub text_lem :
      (types : VargTypes) (bytes : List ℕ) (t : MsgTag) (m : List ℕ)
      → types.string < 2 ^ 16
      → t.raw < 2 ^ 64
      → data_size * 8 < length m
      → HasRoom data_size (words t) (text bytes)
      → let next = words t + 1 + word_count (length bytes) in
        let m' = put (words t) (length bytes * 2 ^ 16 + types.string) (bytes ++ 0 ∷ []) m in
        (add_text data_size types bytes (t, m) ≡ some (true, (set_words next t, m')))
        × Added types (text bytes) t (set_words next t) m m'
  unfolding add_text
  text_lem types bytes t m ty_small word behind (room, more) =
      let w = words t in
      let len = length bytes in
      let next = w + 1 + word_count len in
      let sized : length (bytes ++ 0 ∷ []) ≡ len + 1 = length-append bytes (0 ∷ []) in
      let h = bit_or types.string (len * 2 ^ 16 % 2 ^ 64) in
      let m1 = write_at m (w * 8) (to_le_bytes 8 h) in
      let is_len : len * 2 ^ 16 % 2 ^ 64 ≡ len * 2 ^ 16 = omega arith in
      (
        if_false (ltb data_size next) _ _ (ground arith)
            ∙ ap
                (λ o.
                  done data_size next t
                    (and_then data_size o (λ m. copy_bytes data_size (w + 1) (bytes ++ 0 ∷ []) m)))
                (set_word-in w h m (omega arith))
            ∙ ap (done data_size next t) (copy_bytes-in (w + 1) (bytes ++ 0 ∷ []) m1 more)
            ∙ ap (λ x. some (true, (set_words next t, put w x (bytes ++ 0 ∷ []) m)))
                (ap (bit_or types.string) is_len ∙ header types.string len ty_small),
        put-Added types (text bytes) types.string len next (bytes ++ 0 ∷ []) t m ty_small word
            (omega (arith, sized)) (omega (arith, sized)) refl (omega arith)
            (ap (λ bs. (types.string, bs)) (sym (take-append bytes (0 ∷ []) len refl))) refl,
      )

  write_at-nil : (m : List ℕ) (i : ℕ) → write_at m i [] ≡ m
  write_at-nil m i =
      let e : i + 0 ≡ i = omega arith in
      ap₂ (λ xs k. xs ++ drop k m) (append-nil (take i m)) e ∙ take-append-drop i m

  pub nil_lem :
      (types : VargTypes) (t : MsgTag) (m : List ℕ)
      → types.nil < 2 ^ 16
      → t.raw < 2 ^ 64
      → data_size * 8 < length m
      → words t + 1 ≤ data_size
      → (add_nil data_size types (t, m)
          ≡ some (true, (set_words (words t + 1) t, put (words t) (0 * 2 ^ 16 + types.nil) [] m)))
        × Added types nil t
            (set_words (words t + 1) t)
            m
            (put (words t) (0 * 2 ^ 16 + types.nil) [] m)
  unfolding add_nil
  nil_lem types t m ty_small word behind room =
      let w = words t in
      let e : 0 * 2 ^ 16 + types.nil ≡ types.nil = omega arith in
      (
        if_false (ltb data_size (w + 1)) _ _ (ground arith)
            ∙ ap (done data_size (w + 1) t) (
                set_word-in w types.nil m (omega arith)
                ∙ ap some (
                    ap (λ x. write_at m (w * 8) (to_le_bytes 8 x)) (sym e)
                    ∙ sym (write_at-nil _ ((w + 1) * 8)))),
        put-Added types nil types.nil 0 (w + 1) [] t m ty_small word (omega arith) (omega arith)
            (omega arith) room refl refl,
      )
