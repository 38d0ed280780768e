-- ===== src/L4Sys/Factory/Arguments.antt =====
-- What the receiver of a factory call finds of the arguments that crates/l4-sys/factory.rs adds.
use l4rerust.Base.{
  ℕ, ◌+◌, ◌*◌, ◌/◌, ◌^◌, ◌≤◌, ◌<◌, ◌≡◌, refl, ap, ap₂, subst, sym, ◌∙◌, Bool, true, Option, none,
  some, List, [], ◌∷◌, length, take, take-take, map, arith,
}
use l4rerust.L4.MsgTag.{MsgTag, words}
use l4rerust.L4Sys.Factory.{VargTypes, Message}
use l4rerust.L4Sys.Factory.Puts.{read_vargs}
use l4rerust.L4Sys.Factory.Adding.{
  Arg, int, uint, fpage, nil, text, IsTypes, add, view, need, HasRoom, Added, word_lem, text_lem,
  nil_lem,
}

-- The callers add one argument after the other and do not look at the results.
abbrev then_add : (Message → Option Message) → Option (Bool × Message) → Option Message
then_add f none = none
then_add f (some (_, s)) = f s

abbrev pub add_all : ℕ → VargTypes → List Arg → Message → Option Message
add_all data_size types [] s = some s
add_all data_size types (a ∷ args) s =
    then_add (λ s'. add_all data_size types args s') (add data_size types a s)

-- From word `w` on there is room for all of them.
abbrev pub AllRoom : ℕ → ℕ → List Arg → Type 0
AllRoom data_size w [] = Unit {0}
AllRoom data_size w (a ∷ args) = HasRoom data_size w a × AllRoom data_size (w + need a) args

abbrev pub total : List Arg → ℕ
total [] = 0
total (a ∷ args) = need a + total args

module _ (data_size : ℕ) (small : data_size < 64) (types : VargTypes) (v : IsTypes types) where
  -- An argument that has room is added.
  pub add-Added :
      (a : Arg) (t : MsgTag) (m : List ℕ)
      → t.raw < 2 ^ 64
      → data_size * 8 < length m
      → HasRoom data_size (words t) a
      → (t' : MsgTag) × (m' : List ℕ) × (add data_size types a (t, m) ≡ some (true, (t', m')))
        × Added types a t t' m m'
  add-Added (int d) t m word behind room =
      let p =
        word_lem data_size small types types.mword (int d) d t m v.mword_small word behind room refl
          refl in
      (_, _, p.0, p.1)
  add-Added (uint d) t m word behind room =
      let p =
        word_lem data_size small types types.umword (uint d) d t m v.umword_small word behind room
          refl refl in
      (_, _, p.0, p.1)
  add-Added (fpage d) t m word behind room =
      let p =
        word_lem data_size small types types.fpage (fpage d) d t m v.fpage_small word behind room
          refl refl in
      (_, _, p.0, p.1)
  add-Added nil t m word behind room =
      let p = nil_lem data_size small types t m v.nil_small word behind room in (_, _, p.0, p.1)
  add-Added (text bytes) t m word behind room =
      let p = text_lem data_size small types bytes t m v.string_small word behind room in
      (_, _, p.0, p.1)

  record AllAdded (args : List Arg) (t t' : MsgTag) (m m' : List ℕ) : Type 0 where
    ends : words t' ≡ words t + total args
    same_tag : t'.raw / 2 ^ 6 ≡ t.raw / 2 ^ 6
    same_front : take (words t * 8) m' ≡ take (words t * 8) m
    found :
        (m'' : List ℕ)
        → take (words t' * 8) m'' ≡ take (words t' * 8) m'
        → read_vargs (length args) (words t) m'' ≡ map (view types) args

  all_lem :
      (args : List Arg) (t : MsgTag) (m : List ℕ)
      → t.raw < 2 ^ 64
      → data_size * 8 < length m
      → AllRoom data_size (words t) args
      → (t' : MsgTag) × (m' : List ℕ) × (add_all data_size types args (t, m) ≡ some (t', m'))
        × AllAdded args t t' m m'
  all_lem [] t m word behind room = (
    t,
    m,
    refl,
    record { ends = omega arith; same_tag = refl; same_front = refl; found = λ m'' e. refl },
  )
  all_lem (a ∷ args) t m word behind (room, rest) =
      let (t1, m1, e1, one) = add-Added a t m word behind room in
      let (t', m', e, more) =
        all_lem args t1 m1 (omega (arith, one.same_tag)) (omega (arith, one.same_size))
          (subst (λ w. AllRoom data_size w args) (sym one.more_words) rest) in
      let onward : words t * 8 ≤ words t1 * 8 = omega (arith, one.more_words) in
      let further : words t1 * 8 ≤ words t' * 8 = omega (arith, more.ends) in
      (
        t',
        m',
        ap (then_add (λ s. add_all data_size types args s)) e1 ∙ e,
        record {
          ends = omega (arith, one.more_words, more.ends);
          same_tag = more.same_tag ∙ one.same_tag;
          same_front =
              sym (take-take (words t * 8) (words t1 * 8) m' onward)
              ∙ ap (take (words t * 8)) more.same_front
              ∙ take-take (words t * 8) (words t1 * 8) m1 onward
              ∙ one.same_front;
          found = λ m'' same.
              let front : take (words t1 * 8) m'' ≡ take (words t1 * 8) m1 =
                sym (take-take (words t1 * 8) (words t' * 8) m'' further)
                ∙ ap (take (words t1 * 8)) same
                ∙ take-take (words t1 * 8) (words t' * 8) m' further
                ∙ more.same_front in
              let first = one.there m'' front in
              ap₂ ◌∷◌ first.0
                (ap (λ i. read_vargs (length args) i m'') first.1 ∙ more.found m'' same);
        },
      )

  -- Arguments for which there is room, of which a text needs a word behind its header even if it is
  -- empty: adding them one after the other does not panic, and the receiver, who reads a header and
  -- what it counts and goes on behind it, finds their types and bytes in order. The tag counts the
  -- words up to the end and keeps its other bits, and the words before the arguments stay.
  pub read_vargs-add_all :
      (args : List Arg) (t : MsgTag) (m : List ℕ)
      → t.raw < 2 ^ 64
      → data_size * 8 < length m
      → AllRoom data_size (words t) args
      → (t' : MsgTag) × (m' : List ℕ) × (add_all data_size types args (t, m) ≡ some (t', m'))
        × (read_vargs (length args) (words t) m' ≡ map (view types) args)
        × (words t' ≡ words t + total args)
        × (t'.raw / 2 ^ 6 ≡ t.raw / 2 ^ 6)
        × (take (words t * 8) m' ≡ take (words t * 8) m)
  read_vargs-add_all args t m word behind room =
      let (t', m', e, all) = all_lem args t m word behind room in
      (t', m', e, all.found m' refl, all.ends, all.same_tag, all.same_front)
