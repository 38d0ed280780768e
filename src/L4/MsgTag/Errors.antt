-- ===== src/L4/MsgTag/Errors.antt =====
-- An error of a server, from the reply that `application_error` of crates/l4/ipc/server.rs makes of
-- it to the result that the client's `MsgTag::result` takes from the tag.
use l4rerust.Base.{
  ℕ, zero, suc, ◌+◌, ◌*◌, ◌%◌, ◌^◌, ◌≤◌, ◌<◌, bit_and, true, false, if◌then◌else◌, ◌≡◌, ◌≢◌, ◌⊎◌,
  inl, inr, refl, ap, subst, sym, arith, ◌∙◌, Option, none, some,
}
use l4rerust.Base.Int.{ℤ, pos, negsuc, neg, is_neg}
use l4rerust.Base.Word.{as_u64}
use l4rerust.Base.Bits.{bit_and_shifted, bit_and_mask}
use l4rerust.L4.Codes.{Consts, IsCodes, GenericErr, from_u64, from_u64-code}
use l4rerust.L4.Error.{
  Error, generic, tcr, invalid_cap, invalid_arg, invalid_state, unknown, protocol, invalid_encoding,
  Utf8Error, ok, err, into_ipc_err, from_ipc,
}
use l4rerust.L4.MsgTag.{MsgTag, new, result, has_error}
use l4rerust.L4.MsgTag.Fields.{FitsLabel, raw-new, fields-new}

-- The tag of the reply; `none` is the panic of `into_ipc_err`.
unfoldable pub error_reply : Consts → Error → Option MsgTag
error_reply k e = elim (into_ipc_err k e) [ none ↦ none | some c ↦ some (new c 0 0 0) ]

-- The generic error that stands for an error in a reply.
unfoldable pub sent_as : Error → Option GenericErr
sent_as (generic g) = some g
sent_as (invalid_arg _ _) = some GenericErr.invalid_arg
sent_as (invalid_state _) = some GenericErr.invalid_arg
sent_as _ = none

-- A tag made without items and flags has no error flag.
no_error_flag : (l : ℤ) (w : ℕ) → w < 64 → has_error 0x8000 (new l w 0 0) ≡ false
unfolding has_error
no_error_flag l w small =
    let h = as_u64 l % 2 ^ 48 in
    let e : bit_and (new l w 0 0).raw 0x8000 ≡ 0 =
      ap (λ x. bit_and x 0x8000) {y = h * 2 * 2 ^ 15 + w} (raw-new l w 0 0 ∙ omega arith)
      ∙ bit_and_shifted 15 (h * 2) w 1 (omega arith)
      ∙ ap (λ x. x * 2 ^ 15) {y = 0} (bit_and_mask 1 (h * 2) ∙ omega arith) in
    ground (arith, e)

neg-suc : (c : ℕ) → neg (pos (suc c)) ≡ negsuc c
neg-suc c = ground arith

fits_neg : (c : ℕ) → c ≤ 65535 → FitsLabel (neg (pos c))
unfolding FitsLabel
fits_neg zero h = omega arith
fits_neg (suc c) h = let small : c < 2 ^ 47 = omega arith in subst FitsLabel (sym (neg-suc c)) small

neg_below : (c : ℕ) → c ≢ 0 → is_neg (neg (pos c)) ≡ true
neg_below zero h = absurd (h refl)
neg_below (suc c) h = ap is_neg (neg-suc c)

module _ (k : Consts) where
  -- The client's view of a reply without items and flags.
  pub result-new :
      (v : ℕ) (l : ℤ) (w : ℕ)
      → FitsLabel l
      → w < 64
      → result k 0x8000 v (new l w 0 0) ≡ (
          if is_neg l
          then elim (from_ipc k l) [ none ↦ none | some e ↦ some (err e) ]
          else some (ok (new l w 0 0)))
  unfolding result
  result-new v l w fits small =
      rw (no_error_flag l w small) (rw ((fields-new l w 0 0 fits small (omega arith)).0) refl)

module _ (k : Consts) (codes : IsCodes k) where
  -- The number of a generic error, negated, is none of the two reserved codes.
  from_ipc-neg :
      (c : ℕ)
      → c ≤ 65535
      → from_ipc k (neg (pos c))
        ≡ elim (from_u64 k c) [ some tc ↦ some (generic tc) | none ↦ some (unknown (neg (pos c))) ]
  unfolding from_ipc
  from_ipc-neg zero h = refl
  from_ipc-neg (suc c) h = ground arith

  from_ipc-code : (g : GenericErr) → from_ipc k (neg (pos (k.code g))) ≡ some (generic g)
  from_ipc-code g = from_ipc-neg (k.code g) (codes.small g) ∙ rw (from_u64-code k codes g) refl

  reply_arrives :
      (v : ℕ) (g : GenericErr)
      → k.code g ≢ 0
      → result k 0x8000 v (new (neg (pos (k.code g))) 0 0 0) ≡ some (err (generic g))
  reply_arrives v g nonzero =
      result-new k v _ 0 (fits_neg (k.code g) (codes.small g)) (omega arith)
      ∙ rw (from_ipc-code g) (rw (neg_below (k.code g) nonzero) refl)

-- An error that has a number is replied with that number, negated, and the client's result is the
-- generic error again, if its number is not 0: a generic error arrives as itself, an invalid
-- argument or state as the generic error for invalid arguments.
pub result-error_reply :
    (k : Consts)
    → IsCodes k
    → (v : ℕ) (e : Error) (g : GenericErr) → sent_as e ≡ some g
    → k.code g ≢ 0
    → (t : MsgTag) × (error_reply k e ≡ some t) × (result k 0x8000 v t ≡ some (err (generic g)))
unfolding sent_as error_reply into_ipc_err
result-error_reply k codes v (generic f) g sent nonzero =
    let e : f ≡ g = cc in
    (_, ap (λ x. some (new (neg (pos (k.code x))) 0 0 0)) e, reply_arrives k codes v g nonzero)
result-error_reply k codes v (invalid_arg _ _) g sent nonzero =
    let e : GenericErr.invalid_arg ≡ g = cc in
    (_, ap (λ x. some (new (neg (pos (k.code x))) 0 0 0)) e, reply_arrives k codes v g nonzero)
result-error_reply k codes v (invalid_state _) g sent nonzero =
    let e : GenericErr.invalid_arg ≡ g = cc in
    (_, ap (λ x. some (new (neg (pos (k.code x))) 0 0 0)) e, reply_arrives k codes v g nonzero)
result-error_reply k codes v (tcr _) g sent nonzero = absurd cc
result-error_reply k codes v invalid_cap g sent nonzero = absurd cc
result-error_reply k codes v (unknown _) g sent nonzero = absurd cc
result-error_reply k codes v (protocol _) g sent nonzero = absurd cc
result-error_reply k codes v (invalid_encoding _) g sent nonzero = absurd cc

-- The two reserved codes are sent with the wrong sign: the client takes a reply with an invalid
-- capability or an invalid encoding for a success.
result-reserved :
    (k : Consts) (v : ℕ) (u : Option Utf8Error) (t : MsgTag)
    → (error_reply k invalid_cap ≡ some t) ⊎ (error_reply k (invalid_encoding u) ≡ some t)
    → result k 0x8000 v t ≡ some (ok t)
unfolding error_reply into_ipc_err FitsLabel
result-reserved k v u t (inl sent) =
    let e : new (pos 65540) 0 0 0 ≡ t = cc in
    let small : 65540 < 2 ^ 47 = omega arith in
    subst (λ t. result k 0x8000 v t ≡ some (ok t)) e
      (result-new k v (pos 65540) 0 small (omega arith))
result-reserved k v u t (inr sent) =
    let e : new (pos 65541) 0 0 0 ≡ t = cc in
    let small : 65541 < 2 ^ 47 = omega arith in
    subst (λ t. result k 0x8000 v t ≡ some (ok t)) e
      (result-new k v (pos 65541) 0 small (omega arith))
