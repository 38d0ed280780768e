-- ===== src/LinuxShims.antt =====
-- The module life cycle of src/linux_shims/src/lib.rs. The atomic operations are steps of one thread
-- after the other; an init function and an exit handler of C are functions on what they can change,
-- and do not call the shims.
pub mod Cycle
mod Tests
use l4rerust.Base.{Bool, true, false, Option, none, some, if◌then◌else◌, not}
use l4rerust.Base.Int.{ℤ, pos, eq_ℤ}

module _ (W : Type 0) where
  -- The statics `INIT_DONE` and `EXIT_HANDLER`, and the rest of the world.
  pub record Shims : Type 0 where
    pub init_done : Bool
    pub exit_handler : Option (W → W)
    pub world : W

  abbrev pub initial : W → Shims
  initial w = record { init_done = false; exit_handler = none; world = w }

  -- What `init` returned, after `compare_exchange` has set `INIT_DONE`.
  abbrev pub inited : ℤ × W → Shims → Shims
  inited (result, w) s = record s { init_done = eq_ℤ result (pos 0); world = w }

  unfoldable pub module_init : (W → ℤ × W) → Shims → Shims
  module_init init s =
      if s.init_done then s else inited (init s.world) (record s { init_done = true })

  unfoldable pub module_exit : (W → W) → Shims → Shims
  module_exit exit s = if s.init_done then record s { exit_handler = some exit } else s

  abbrev pub handled : Option (W → W) → Shims → Shims
  handled none s = s
  handled (some handler) s = record s { world = handler s.world; exit_handler = none }

  unfoldable pub module_shutdown : Shims → Shims
  module_shutdown s =
      if s.init_done then handled s.exit_handler (record s { init_done = false }) else s
