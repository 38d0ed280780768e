-- ===== src/EpollServer/Waiting.antt =====
-- The events that `handle_wait` of src/epoll_server/src/main.rs replies.
use l4rerust.Base.{
  ℕ, ◌*◌, ◌/◌, ◌≤◌, ◌<◌, ◌≡◌, refl, ap, ◌∙◌, sym, List, [], ◌∷◌, ◌++◌, length, take, drop,
  length-append, take-append, take_all, some, Bool-cases, true, false, inl, inr, min, ◌==◌, arith,
  ◌⊎◌,
}
use native.Mathlib.Nat.{le-div_iff_mul-le}
use l4rerust.Base.Int.{is_neg, to_ℕ}
use l4rerust.Base.Word.{as_i32}
use l4rerust.Ipc.{Utcb, set_mr, br_data_bytes}
use l4rerust.Ipc.Slab.{Slab}
use l4rerust.EpollServer.Host.{Sys, Sized, none_left, one_more, WaitLaws}
use l4rerust.EpollServer.{
  EpollInstance, Instances, concat, max_serialised_events, br_write_events, wait_done, handle_wait,
}

length-concat : (n : ℕ) (es : List (List ℕ)) → Sized n es → length (concat es) ≡ length es * n
length-concat n [] none_left = omega arith
length-concat n (e ∷ es) (one_more size rest) =
    omega (arith, length-append e (concat es), length-concat n es rest)

module _ (sys : Sys) where
  -- Events that fit are all written, one behind the other.
  written :
      (events : List (List ℕ)) (u : Utcb)
      → Sized sys.event_size events
      → length events ≤ max_serialised_events sys
      → ((br_write_events sys events u).len ≡ length events * sys.event_size)
        × (take (length events * sys.event_size) (br_write_events sys events u).payload
            ≡ concat events)
  unfolding br_write_events
  written events u sized fits =
      let all : min (length events) (max_serialised_events sys) ≡ length events = omega arith in
      let n = length events * sys.event_size in
      let size = length-concat sys.event_size events sized in
      rw (br_write_events, all)
        (elim (Bool-cases (n == 0)) [
          | inl nothing ↦
              let none_at_all : n ≡ 0 = ground arith in
              rw nothing (
                refl,
                ap (λ m. take m u.payload) none_at_all ∙ take_all 0 (concat events) (omega arith),
              )
          | inr some_bytes ↦ rw some_bytes (
            refl,
            ap (λ es. take n (concat es ++ drop n u.payload))
                  (take_all (length events) events (omega arith))
                ∙ take-append (concat events) (drop n u.payload) n (sym size),
          )
        ])

  -- What `handle_wait` asks for fits the buffer registers, so no event that the kernel has handed over
  -- is lost: a wait that succeeds replies their number, at most the number that the client asked for,
  -- and all their bytes, in order.
  pub handle_wait-events :
      (slab : Slab) (c : Instances slab sys) (instance : EpollInstance)
      → WaitLaws sys
      → slab.get (c.utcb.mr 1) c.table ≡ some instance
      → is_neg (as_i32 (c.utcb.mr 2)) ≡ false
      → 0 < to_ℕ (as_i32 (c.utcb.mr 2))
      → 0 < max_serialised_events sys
      → let limit = min (to_ℕ (as_i32 (c.utcb.mr 2))) (max_serialised_events sys) in
        let call = sys.epoll_wait instance.fd limit (as_i32 (c.utcb.mr 3)) c.os in
        let u = (handle_wait slab sys c).utcb in
        (is_neg call.0 ≡ true)
        ⊎ ((u.mr 0 ≡ length call.1)
            × (u.mr 0 ≤ to_ℕ (as_i32 (c.utcb.mr 2)))
            × (u.len ≡ u.mr 0 * sys.event_size)
            × (u.len ≤ br_data_bytes sys.br_words)
            × (take u.len u.payload ≡ concat call.1))
  unfolding handle_wait wait_done
  handle_wait-events slab c instance laws held valid positive room =
      let max = max_serialised_events sys in
      let limit = min (to_ℕ (as_i32 (c.utcb.mr 2))) max in
      let call = sys.epoll_wait instance.fd limit (as_i32 (c.utcb.mr 3)) c.os in
      let limited = laws.limited instance.fd limit (as_i32 (c.utcb.mr 3)) c.os in
      let sized = laws.sized instance.fd limit (as_i32 (c.utcb.mr 3)) c.os in
      let some_asked : (to_ℕ (as_i32 (c.utcb.mr 2)) == 0) ≡ false = ground arith in
      let some_room : (max == 0) ≡ false = ground arith in
      elim (Bool-cases (is_neg call.0)) [
        | inl failed ↦ inl failed
        | inr done ↦
            let count = laws.counted instance.fd limit (as_i32 (c.utcb.mr 3)) c.os done in
            let w = written call.1 c.utcb sized (omega arith) in
            let outcome : (handle_wait slab sys c).utcb
                ≡ set_mr 0 (to_ℕ call.0) (br_write_events sys call.1 c.utcb) =
              rw (held, handle_wait) (rw (valid, some_asked, some_room, done, wait_done) refl) in
            let same_size : max ≡ br_data_bytes sys.br_words / sys.event_size = ground arith in
            let total : length call.1 * sys.event_size ≤ br_data_bytes sys.br_words =
              (le-div_iff_mul-le {k = sys.event_size} {x = length call.1}
                  {y = br_data_bytes sys.br_words} (ground arith)).0
                (omega arith) in
            let replied : (handle_wait slab sys c).utcb.mr 0 ≡ to_ℕ call.0 =
              ap (λ v. v.mr 0) outcome in
            let bytes : (handle_wait slab sys c).utcb.len
                ≡ (handle_wait slab sys c).utcb.mr 0 * sys.event_size =
              ap (λ v. v.len) outcome ∙ w.0 ∙ ap (λ n. n * sys.event_size) (count ∙ sym replied) in
            inr (
              replied ∙ sym count,
              omega arith,
              bytes,
              omega (arith, ap (λ v. v.len) outcome, w.0),
              ap (λ v. take v.len v.payload) outcome
                  ∙ ap (λ n. take n (br_write_events sys call.1 c.utcb).payload) w.0
                  ∙ w.1,
            )
      ]
