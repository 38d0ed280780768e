-- ===== src/L4/Tests/Calls.antt =====
-- A call of a server of crates/l4/ipc/iface.rs that adds a byte and a word.
use l4rerust.Base.{
  ℕ, ◌+◌, ◌*◌, ◌≡◌, refl, arith, some, List, [], ◌∷◌, take, replicate, length-take, take-append,
}
use l4rerust.Base.Ranges.{write_at, length-write_at}
use l4rerust.Base.Int.{pos}
use l4rerust.L4.Codes.{GenericErr}
use l4rerust.L4.Error.{ok, err, generic}
use l4rerust.L4.MsgTag.Errors.{sent_as}
use l4rerust.L4.MsgTag.Fields.{FitsLabel}
use l4rerust.L4.Utcb.{usize, byte, align_offset}
use l4rerust.L4.Utcb.RoundTrip.{Field, IsField, Fits}
use l4rerust.L4.Rpc.{Arm, call, linked, i32, find_arm}
use l4rerust.L4.Rpc.Delivery.{CopiesWords}
use l4rerust.L4.Rpc.Dispatch.{IsRequest}
use l4rerust.L4.Rpc.Calls.{call-returned, call-failed}
use l4rerust.L4.Tests.Loops.{consts, consts-IsCodes}

abbrev copy : ℕ → List ℕ → List ℕ → List ℕ
copy n from to = write_at to 0 (take (n * 8) from)

copy-CopiesWords : CopiesWords copy
copy-CopiesWords = record {
  same_size = λ n from to fits same.
      length-write_at to (take (n * 8) from) 0 (omega (arith, length-take (n * 8) from));
  copied = λ n from to fits same.
      take-append (take (n * 8) from) _ (n * 8) (omega (arith, length-take (n * 8) from));
}

-- A server that counts: its first method adds a number to it, its second one fails.
abbrev add_arm : Arm ℕ
add_arm = record {
  opcode = 0;
  args = byte ∷ usize ∷ [];
  ret = byte;
  method = λ vals s. (ok (7 ∷ []), s + 1);
}

abbrev fail_arm : Arm ℕ
fail_arm = record {
  opcode = 1;
  args = [];
  ret = byte;
  method = λ vals s. (err (generic GenericErr.invalid_arg), s);
}

abbrev both_arms : List (Arm ℕ)
both_arms = add_arm ∷ fail_arm ∷ []

abbrev values : List Field
values =
    record { layout = byte; value = 3 ∷ [] }
    ∷ record { layout = usize; value = 4 ∷ 0 ∷ 0 ∷ 0 ∷ 0 ∷ 0 ∷ 0 ∷ 0 ∷ [] }
    ∷ []

byte-IsField : (b : ℕ) → IsField (record { layout = byte; value = b ∷ [] })
byte-IsField b = record {
  sized = refl;
  aligned = record { exponent = 0; is_power = refl; bounded = omega arith };
}

values-IsRequest : IsRequest 63 add_arm values
unfolding Fits align_offset
values-IsRequest = record {
  op = omega arith;
  typed = refl;
  lawful = (
    byte-IsField 3,
    (
      record {
        sized = refl;
        aligned = record { exponent = 3; is_power = refl; bounded = omega arith };
      },
      tt,
    ),
  );
  fits = (omega arith, (omega arith, (omega arith, tt)));
}

none-IsRequest : IsRequest 63 fail_arm []
unfolding Fits align_offset
none-IsRequest = record { op = omega arith; typed = refl; lawful = tt; fits = (omega arith, tt) }

byte_fits : (b : ℕ) → Fits 504 (record { layout = byte; value = b ∷ [] } ∷ []) 0
unfolding Fits align_offset
byte_fits b = (omega arith, tt)

small_label : FitsLabel (pos 5)
unfolding FitsLabel
small_label = omega arith

abbrev empty_regs : List ℕ
empty_regs = replicate 504 0

call-returned_example :
    (base' : List ℕ) × (sbase' : List ℕ) × (call consts 0x8000 63
        (linked consts 63 copy (λ _. 0) (λ (c : ℕ). (ok tt, c)) (pos 5) i32 both_arms)
        (pos 5)
        0
        values
        byte
        empty_regs
        (9, empty_regs, 2)
      ≡ some (ok (7 ∷ []), base', (9, sbase', 3)))
unfolding find_arm sent_as
call-returned_example =
    call-returned consts consts-IsCodes 63 (omega arith) copy copy-CopiesWords (λ _. 0)
      (λ (c : ℕ). (ok tt, c)) (pos 5) small_label both_arms add_arm values (7 ∷ []) empty_regs
      empty_regs 2 3 9 9 values-IsRequest refl refl refl refl refl (byte-IsField 7) (byte_fits 7)

call-failed_example :
    (base' : List ℕ) × (sbase' : List ℕ) × (call consts 0x8000 63
        (linked consts 63 copy (λ _. 0) (λ (c : ℕ). (ok tt, c)) (pos 5) i32 both_arms)
        (pos 5)
        1
        []
        byte
        empty_regs
        (9, empty_regs, 2)
      ≡ some (err (generic GenericErr.invalid_arg), base', (9, sbase', 2)))
unfolding find_arm sent_as
call-failed_example =
    call-failed consts consts-IsCodes 63 (omega arith) copy copy-CopiesWords (λ _. 0)
      (λ (c : ℕ). (ok tt, c)) (pos 5) small_label both_arms fail_arm []
      (generic GenericErr.invalid_arg) GenericErr.invalid_arg empty_regs empty_regs 2 2 9 9
      none-IsRequest refl refl refl refl refl refl (omega arith)
