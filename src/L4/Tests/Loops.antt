-- ===== src/L4/Tests/Loops.antt =====
-- Runs of the buffers, the readers of options and pages, and the server loop.
use l4rerust.Base.{
  ℕ, suc, ◌+◌, ◌*◌, ◌≤◌, ◌≡◌, ◌≢◌, refl, ap, sym, ◌∙◌, arith, some, Bool, true, false, List, [],
  ◌∷◌, ◌==◌, if◌then◌else◌, length, get_elem?, zero,
}
use l4rerust.Base.Int.{pos}
use l4rerust.L4.Codes.{position, generic_errs, Consts, IsCodes, GenericErr}
use l4rerust.L4.Error.{Result, ok, err, Error, into_ipc_err, generic}
use l4rerust.L4.MsgTag.{MsgTag, new as new_tag, has_error, result}
use l4rerust.L4.MsgTag.Errors.{error_reply, sent_as}
use l4rerust.L4.Buffers.{Left, CapConsts, CapAlloc, BufferManager, new, alloc_capslots}
use l4rerust.L4.Buffers.Slots.{Served, alloc_capslots-Served}
use l4rerust.L4.Server.{Host, Phase, waiting, replied, stopped, default_hooks, body, start}
use l4rerust.L4.Server.Answers.{IsSound, unanswered, start-default_hooks, body-error_arrives}

-- The number of a variant is where it stands in the enum.
abbrev pub consts : Consts
consts = record { code = λ e. (position e).0; tcr_code = λ e. 1 }

found-below :
    (es : List GenericErr) (i : ℕ) (e : GenericErr) → get_elem? es i ≡ some e → i ≤ length es
found-below [] i e at = absurd cc
found-below (x ∷ es) zero e at = omega arith
found-below (x ∷ es) (suc i) e at = omega (arith, found-below es i e at)

same_variant : {e f : GenericErr} → some e ≡ some f → e ≡ f
same_variant h = cc

pub consts-IsCodes : IsCodes consts
consts-IsCodes = record {
  distinct = λ e f same.
      same_variant (sym (position e).1 ∙ ap (get_elem? generic_errs) same ∙ (position f).1);
  small = λ e. omega (arith, found-below generic_errs (position e).0 e (position e).1);
}

-- Constants and an allocator that counts up.
abbrev cap_consts : CapConsts
cap_consts = record { invalid_cap_bit = 2048; cap_mask = 0xfffff000; single_cap = 1; local_id = 2 }

abbrev counter : CapAlloc
counter = record { World = ℕ; cap_alloc = λ n. (n * 4096, n + 1) }

abbrev manager : BufferManager
manager = new cap_consts 8

alloc_capslots-Served_example :
    (left : Left cap_consts counter) × (alloc_capslots cap_consts counter 2 manager 1 ≡ some left)
    × Served cap_consts counter 2 manager 1 left
alloc_capslots-Served_example =
    alloc_capslots-Served cap_consts counter 2 manager 1 (omega arith) (omega arith) (omega arith)

-- A server that answers the label 1 with an error and every other with a tag, and counts.
abbrev host : Host
host = record {
  State = ℕ;
  setup_wait = λ n. some n;
  callback = λ label tag n.
      (if label == 1 then err (generic GenericErr.no_mem) else ok (new_tag (pos 0) 1 0 0), suc n);
  ipc_error_code = λ tag n. 2;
}

said :
    (b : Bool) (t : MsgTag) (n m : ℕ) (e : Error)
    → (◌≡◌ {A = Result MsgTag × ℕ}
        (if b then err (generic GenericErr.no_mem) else ok t, n)
        (err e, m))
    → (u : MsgTag) × (error_reply consts e ≡ some u)
unfolding error_reply into_ipc_err
said true t n m e same =
    let which : generic GenericErr.no_mem ≡ e = cc in (_, sym (ap (error_reply consts) which))
said false t n m e same = absurd cc

host-IsSound : IsSound consts host
host-IsSound = record {
  ready = λ s. (s, refl);
  sayable = λ label tag s s' e same. said (label == 1) (new_tag (pos 0) 1 0 0) _ s' e same;
  small = λ tag s. omega arith;
}

abbrev plain : MsgTag
plain = new_tag (pos 0) 2 0 0

start-default_hooks_example :
    (q : Phase) × (s' : ℕ) × (out : List MsgTag) × (start 0x8000 host
        (default_hooks consts 0x8000 host)
        ((plain, 1) ∷ (plain, 2) ∷ [])
        0
      ≡ some (q, s', out))
    × (q ≢ stopped)
    × (length out + unanswered 0x8000 waiting ((plain, 1) ∷ (plain, 2) ∷ []) ≡ 2)
start-default_hooks_example =
    start-default_hooks consts 0x8000 host host-IsSound ((plain, 1) ∷ (plain, 2) ∷ []) 0

body-error_arrives_example :
    (s' : ℕ) × (t : MsgTag) × (body 0x8000 host (default_hooks consts 0x8000 host) plain 1 0
      ≡ some (replied, s', t ∷ []))
    × (result consts 0x8000 0 t ≡ some (err (generic GenericErr.no_mem)))
unfolding sent_as has_error new_tag
body-error_arrives_example =
    body-error_arrives consts host consts-IsCodes (λ s. (s, refl)) plain 1 0 0 1
      (generic GenericErr.no_mem) GenericErr.no_mem refl refl refl (omega arith)
