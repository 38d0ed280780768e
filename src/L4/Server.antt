-- ===== src/L4/Server.antt =====
-- The server loop of crates/l4/ipc/server.rs. A run goes over what the calls of the kernel that wait
-- for a message return, one after the other; `none` is a panic.
pub mod Answers
use l4rerust.Base.{
  ℕ, ◌+◌, Bool, true, false, ◌&&◌, Option, none, some, List, [], ◌∷◌, ◌++◌, ◌==◌, if◌then◌else◌,
}
use l4rerust.Base.Int.{ℤ, pos}
use l4rerust.L4.Codes.{Consts}
use l4rerust.L4.Error.{Error, generic, tcr, unknown, Result, ok, err, negate}
use l4rerust.L4.MsgTag.{MsgTag, new, has_error, result}
use l4rerust.L4.MsgTag.Errors.{error_reply}

pub data LoopAction : Type 0 where
  reply_and_wait : MsgTag → LoopAction
  break_loop : LoopAction

-- What is outside of the loop, on a state that holds the UTCB: the buffer manager's `setup_wait`, the
-- server implementation that a label points to, and the foreign `l4_ipc_error`.
pub record Host : Type 1 where
  pub State : Type 0
  pub setup_wait : State → Option State
  pub callback : ℕ → MsgTag → State → Result MsgTag × State
  pub ipc_error_code : MsgTag → State → ℕ

module _ (host : Host) where
  pub record LoopHook : Type 0 where
    pub ipc_error : MsgTag → host.State → Option (LoopAction × host.State)
    pub application_error : Error → host.State → Option (LoopAction × host.State)

-- The reply to an error of the kernel: its number, negated. Only three kinds of errors are expected.
unfoldable pub code_reply : Consts → Error → Option MsgTag
code_reply k (generic e) = elim (negate (pos (k.code e))) [
  | none ↦ none
  | some c ↦ some (new c 0 0 0)
]
code_reply k (tcr e) = elim (negate (pos (k.tcr_code e))) [
  | none ↦ none
  | some c ↦ some (new c 0 0 0)
]
code_reply k (unknown n) = elim (negate n) [ none ↦ none | some c ↦ some (new c 0 0 0) ]
code_reply k _ = none

-- A tag that could be made is the reply.
abbrev pub replying : {S : Type 0} → S → Option MsgTag → Option (LoopAction × S)
replying s none = none
replying s (some t) = some (reply_and_wait t, s)

-- The error of a tag that has one; `Ok` is unreachable there.
abbrev pub failure : Option (Result MsgTag) → Option Error
failure (some (err e)) = some e
failure _ = none

module _ (k : Consts) (error_flag : ℕ) (host : Host) where
  -- The methods of `LoopHook` that `DefaultHooks` inherits.
  unfoldable pub default_ipc_error : MsgTag → host.State → Option (LoopAction × host.State)
  default_ipc_error tag s = elim (failure (result k error_flag (host.ipc_error_code tag s) tag)) [
    | none ↦ none
    | some e ↦ replying s (code_reply k e)
  ]

  unfoldable pub default_application_error : Error → host.State → Option (LoopAction × host.State)
  default_application_error e s = replying s (error_reply k e)

  abbrev pub default_hooks : LoopHook host
  default_hooks = record {
    ipc_error = default_ipc_error;
    application_error = default_application_error;
  }

-- Which call the loop is in: the wait, the reply with a wait, or none any more.
pub data Phase : Type 0 where
  waiting replied stopped : Phase

module _ (error_flag : ℕ) (host : Host) (hooks : LoopHook host) where
  -- What the server implementation returned, as an action.
  abbrev pub acted : Result MsgTag × host.State → Option (LoopAction × host.State)
  acted (ok t, s) = some (reply_and_wait t, s)
  acted (err e, s) = hooks.application_error e s

  unfoldable pub dispatch : MsgTag → ℕ → host.State → Option (LoopAction × host.State)
  dispatch tag label s = acted (host.callback label tag s)

  -- The phase after a call has returned, the state, and the replies that the next call sends.
  abbrev pub Step : Type 0
  Step = Phase × host.State × List MsgTag

  -- The end of the body of the loop: `break`, or `setup_wait` and the next call.
  abbrev pub finish : Option (LoopAction × host.State) → Option Step
  finish none = none
  finish (some (break_loop, s)) = some (stopped, s, [])
  finish (some (reply_and_wait t, s)) = elim (host.setup_wait s) [
    | none ↦ none
    | some s' ↦ some (replied, s', t ∷ [])
  ]

  unfoldable pub body : MsgTag → ℕ → host.State → Option Step
  body tag label s =
      finish (if has_error error_flag tag then hooks.ipc_error tag s else dispatch tag label s)

  -- A reply that failed, without a label, is followed by a wait.
  unfoldable pub step : Phase → MsgTag × ℕ → host.State → Option Step
  step waiting (tag, label) s = body tag label s
  step replied (tag, label) s =
      if label == 0 && has_error error_flag tag then some (waiting, s, []) else body tag label s
  step stopped _ s = some (stopped, s, [])

  unfoldable pub run : List (MsgTag × ℕ) → Phase → host.State → Option Step
  run [] p s = some (p, s, [])
  run (m ∷ ms) p s = elim (step p m s) [
    | none ↦ none
    | some (p', s', out) ↦ elim (run ms p' s') [
      | none ↦ none
      | some (q, u, rest) ↦ some (q, u, out ++ rest)
    ]
  ]

  unfoldable pub start : List (MsgTag × ℕ) → host.State → Option Step
  start ms s = elim (host.setup_wait s) [ none ↦ none | some s' ↦ run ms waiting s' ]
