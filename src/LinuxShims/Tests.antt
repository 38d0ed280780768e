-- ===== src/LinuxShims/Tests.antt =====
-- A driver of src/linux_shims/src/lib.rs that fails once and comes and goes.
use l4rerust.Base.{List, [], ◌∷◌}
use l4rerust.Base.Int.{pos}
use l4rerust.LinuxShims.{initial}
use l4rerust.LinuxShims.Cycle.{
  Call, inits, exits, shuts_down, Log, after_all, IsBalanced, after_all-IsBalanced,
}

abbrev calls : List Call
calls = inits (pos 1) ∷ exits 4 ∷ inits (pos 0) ∷ exits 5 ∷ shuts_down ∷ shuts_down ∷ []

after_all-IsBalanced_example :
    IsBalanced (after_all calls (initial Log (record { ran = 0; succeeded = 0; handlers = [] })))
after_all-IsBalanced_example = after_all-IsBalanced calls
