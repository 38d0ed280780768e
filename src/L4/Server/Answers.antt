-- ===== src/L4/Server/Answers.antt =====
-- With the default hooks the loop goes on and answers every message.
use l4rerust.Base.{
  ℕ, suc, ◌+◌, ◌^◌, ◌<◌, true, false, ◌&&◌, Bool-cases, Option-cases, Option, none, some, List, [],
  ◌∷◌, ◌++◌, length, length-append, ◌==◌, if◌then◌else◌, ◌≡◌, ◌≢◌, ◌⊎◌, inl, inr, refl, ap, ◌∙◌,
  arith,
}
use l4rerust.Base.Int.{pos, neg}
use l4rerust.Base.Word.{as_i64}
use l4rerust.L4.Codes.{Consts, IsCodes, GenericErr, TcrErr, tcr_from_u64}
use l4rerust.L4.Error.{Error, generic, tcr, unknown, Result, ok, err, from_tag_u, tcr_from_tag_u}
use l4rerust.L4.MsgTag.{MsgTag, new, has_error, result}
use l4rerust.L4.MsgTag.Errors.{error_reply, sent_as, result-error_reply}
use l4rerust.L4.Server.{
  LoopAction, reply_and_wait, Host, LoopHook, code_reply, replying, failure, default_ipc_error,
  default_application_error, default_hooks, acted, dispatch, Phase, waiting, replied, stopped,
  finish, body, step, run, start,
}

-- The buffers can be set up, an error of a server implementation has a number that can be negated, and
-- so has an error of the kernel.
pub record IsSound (k : Consts) (host : Host) : Type 0 where
  pub ready : (s : host.State) → (s' : host.State) × (host.setup_wait s ≡ some s')
  pub sayable :
      (label : ℕ) (tag : MsgTag) (s s' : host.State) (e : Error)
      → host.callback label tag s ≡ (err e, s')
      → (t : MsgTag) × (error_reply k e ≡ some t)
  pub small : (tag : MsgTag) (s : host.State) → host.ipc_error_code tag s < 2 ^ 63

from_tag_u-cases :
    (k : Consts) (v : ℕ)
    → ((e : TcrErr) × (from_tag_u k v ≡ tcr e)) ⊎ (from_tag_u k v ≡ unknown (as_i64 v))
unfolding from_tag_u tcr_from_tag_u
from_tag_u-cases k v = elim (Option-cases (tcr_from_u64 k v)) [
  | inl e ↦ inr (rw (e, from_tag_u, tcr_from_tag_u) refl)
  | inr (c, e) ↦ inl (c, rw (e, from_tag_u, tcr_from_tag_u) refl)
]

code_reply-tag :
    (k : Consts) (v : ℕ) → v < 2 ^ 63 → (t : MsgTag) × (code_reply k (from_tag_u k v) ≡ some t)
unfolding code_reply
code_reply-tag k v h = elim (from_tag_u-cases k v) [
  | inl (e, same) ↦ (new (neg (pos (k.tcr_code e))) 0 0 0, ap (code_reply k) same)
  | inr same ↦
      let word : as_i64 v ≡ pos v = ground arith in
      (new (neg (pos v)) 0 0 0, ap (code_reply k) (same ∙ ap unknown word))
]

module _ (k : Consts) (error_flag : ℕ) (host : Host) (sound : IsSound k host) where
  hooks : LoopHook host
  hooks = default_hooks k error_flag host

  ipc_error-replies :
      (tag : MsgTag) (s : host.State)
      → has_error error_flag tag ≡ true
      → (t : MsgTag) × (default_ipc_error k error_flag host tag s ≡ some (reply_and_wait t, s))
  unfolding default_ipc_error result
  ipc_error-replies tag s bad =
      let v = host.ipc_error_code tag s in
      let (t, e) = code_reply-tag k v (sound.small tag s) in
      let failed : result k error_flag v tag ≡ some (err (from_tag_u k v)) =
        rw (bad, result) refl in
      (
        t,
        ap (λ r. elim (failure r) [ none ↦ none | some e ↦ replying s (code_reply k e) ]) failed
            ∙ ap (replying s) e,
      )

  application_error-replies :
      (label : ℕ) (tag : MsgTag) (s : host.State) (o : Result MsgTag × host.State)
      → host.callback label tag s ≡ o
      → (t : MsgTag) × (acted error_flag host hooks o ≡ some (reply_and_wait t, o.1))
  unfolding hooks default_application_error
  application_error-replies label tag s (ok t, s') same = (t, refl)
  application_error-replies label tag s (err e, s') same =
      let (t, reply) = sound.sayable label tag s s' e same in (t, ap (replying s') reply)

  finish-replied :
      (a : Option (LoopAction × host.State)) (t : MsgTag) (s : host.State)
      → a ≡ some (reply_and_wait t, s)
      → (s' : host.State) × (finish error_flag host hooks a ≡ some (replied, s', t ∷ []))
  finish-replied a t s e =
      let (s', set) = sound.ready s in
      (
        s',
        ap (finish error_flag host hooks) e
            ∙ ap (λ o. elim o [ none ↦ none | some s' ↦ some (replied, s', t ∷ []) ]) set,
      )

  -- A message leads to one reply.
  body-replied :
      (tag : MsgTag) (label : ℕ) (s : host.State)
      → (s' : host.State) × (t : MsgTag) × (body error_flag host hooks tag label s
          ≡ some (replied, s', t ∷ []))
  unfolding body dispatch hooks
  body-replied tag label s = elim (Bool-cases (has_error error_flag tag)) [
    | inl bad ↦
        let (t, e) = ipc_error-replies tag s bad in
        let (s', f) = finish-replied _ t s e in (s', t, rw (bad, body) f)
    | inr good ↦
        let (t, e) = application_error-replies label tag s (host.callback label tag s) refl in
        let (s', f) = finish-replied _ t _ e in (s', t, rw (good, body) f)
  ]

-- The messages that get no reply: a failed reply without a label, which is followed by a wait.
unfoldable pub unanswered : ℕ → Phase → List (MsgTag × ℕ) → ℕ
unanswered error_flag p [] = 0
unanswered error_flag waiting (m ∷ ms) = unanswered error_flag replied ms
unanswered error_flag replied ((tag, label) ∷ ms) =
    if label == 0 && has_error error_flag tag
    then suc (unanswered error_flag waiting ms)
    else unanswered error_flag replied ms
unanswered error_flag stopped (m ∷ ms) = 0

module _ (k : Consts) (error_flag : ℕ) (host : Host) (sound : IsSound k host) where
  -- The loop has gone over the messages, and is in a call.
  Answered : List (MsgTag × ℕ) → Phase → host.State → Type 0
  Answered ms p s =
      (q : Phase) × (s' : host.State) × (out : List MsgTag) × (run error_flag host
          (default_hooks k error_flag host) ms p s
        ≡ some (q, s', out))
      × (q ≢ stopped)
      × (length out + unanswered error_flag p ms ≡ length ms)

  -- One message and the run over the others.
  then_run :
      (m : MsgTag × ℕ) (ms : List (MsgTag × ℕ)) (p q : Phase) (s s' : host.State)
      (out : List MsgTag)
      → step error_flag host (default_hooks k error_flag host) p m s ≡ some (q, s', out)
      → Answered ms q s'
      → length out + unanswered error_flag p (m ∷ ms) ≡ suc (unanswered error_flag q ms)
      → Answered (m ∷ ms) p s
  unfolding Answered run unanswered
  then_run m ms p q s s' out first (q', s'', rest, done, going, count) one = (
    q',
    s'',
    out ++ rest,
    rw (first, run) (rw (done, run) refl),
    going,
    omega (arith, length-append out rest, one),
  )

  run-Answered :
      (ms : List (MsgTag × ℕ)) (p : Phase) (s : host.State) → p ≢ stopped → Answered ms p s
  unfolding Answered run unanswered step hooks
  run-Answered [] p s going = (p, s, [], refl, going, omega arith)
  run-Answered (m ∷ ms) waiting s going =
      let (tag, label) = m in
      let (s', t, e) = body-replied k error_flag host sound tag label s in
      then_run m ms waiting replied s s' (t ∷ []) e (run-Answered ms replied s' (λ e. cc))
        (omega arith)
  run-Answered ((tag, label) ∷ ms) replied s going =
      elim (Bool-cases (label == 0 && has_error error_flag tag)) [
        | inl failed ↦
            then_run (tag, label) ms replied waiting s s [] (rw (failed, step) refl)
              (run-Answered ms waiting s (λ e. cc)) (rw (failed, unanswered) (omega arith))
        | inr arrived ↦
            let (s', t, e) = body-replied k error_flag host sound tag label s in
            then_run (tag, label) ms replied replied s s' (t ∷ []) (rw (arrived, step) e)
              (run-Answered ms replied s' (λ e. cc)) (rw (arrived, unanswered) (omega arith))
      ]
  run-Answered (m ∷ ms) stopped s going = absurd (going refl)

  -- With the default hooks, if the buffers can be set up and the numbers of errors can be negated:
  -- over any sequence of messages and failed calls of the kernel the loop does not panic and does not
  -- stop, and it sends one reply for each of them but a failed reply without a label.
  pub start-default_hooks :
      (ms : List (MsgTag × ℕ)) (s : host.State)
      → (q : Phase) × (s' : host.State) × (out : List MsgTag) × (start error_flag host
            (default_hooks k error_flag host)
            ms
            s
          ≡ some (q, s', out))
        × (q ≢ stopped)
        × (length out + unanswered error_flag waiting ms ≡ length ms)
  unfolding start Answered
  start-default_hooks ms s =
      let (ready, set) = sound.ready s in
      let (q, s', out, done, going, count) = run-Answered ms waiting ready (λ e. cc) in
      (q, s', out, rw (set, start) done, going, count)

-- An error of a server implementation that is sent as a generic error with a number other than 0:
-- with the default hooks the loop replies with one tag, from which the client's result is that
-- generic error.
pub body-error_arrives :
    (k : Consts) (host : Host)
    → IsCodes k
    → ((s : host.State) → (s' : host.State) × (host.setup_wait s ≡ some s'))
    → (tag : MsgTag) (label v : ℕ) (s s₁ : host.State) (e : Error) (g : GenericErr)
    → has_error 0x8000 tag ≡ false
    → host.callback label tag s ≡ (err e, s₁)
    → sent_as e ≡ some g
    → k.code g ≢ 0
    → (s' : host.State) × (t : MsgTag) × (body 0x8000 host (default_hooks k 0x8000 host) tag label s
        ≡ some (replied, s', t ∷ []))
      × (result k 0x8000 v t ≡ some (err (generic g)))
unfolding body dispatch default_application_error
body-error_arrives k host codes ready tag label v s s₁ e g good failed sent nonzero =
    let (t, reply, arrives) = result-error_reply k codes v e g sent nonzero in
    let (s', set) = ready s₁ in
    let h = default_hooks k 0x8000 host in
    let end = finish 0x8000 host h in
    (
      s',
      t,
      ap
            (λ b.
              end
                (if b then h.ipc_error tag s else acted 0x8000 host h (host.callback label tag s)))
            good
          ∙ ap (λ o. end (acted 0x8000 host h o)) failed
          ∙ ap (λ o. end (replying s₁ o)) reply
          ∙ ap (λ o. elim o [ none ↦ none | some s' ↦ some (replied, s', t ∷ []) ]) set,
      arrives,
    )
