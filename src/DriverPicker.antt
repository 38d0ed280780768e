-- ===== src/DriverPicker.antt =====
-- The choice of a driver in tools/driver_picker/src/main.rs. A string is its bytes, and a hash map the
-- list of its entries in the order in which its iterator yields them.
pub mod Order
pub mod Resolving
mod Tests
use l4rerust.Base.Text.{same, same→≡, same_refl, same_comm}
use l4rerust.Base.{
  ℕ, Bool, true, false, ◌&&◌, List, [], ◌∷◌, Option, none, some, ◌==◌, if◌then◌else◌,
}

pub record DriverInfo : Type 0 where
  pub symbol : List ℕ
  pub dir : List ℕ
  pub kconfig : List ℕ

-- `HashMap<String, Vec<DriverInfo>>`
abbrev pub DriverMap : Type 0
DriverMap = List (List ℕ × List DriverInfo)

-- `HashMap::get`
unfoldable pub get : DriverMap → List ℕ → Option (List DriverInfo)
get [] subsystem = none
get (entry ∷ map) subsystem =
    let rest = get map subsystem in if same entry.0 subsystem then some entry.1 else rest

-- `drivers.iter().find(|d| d.symbol == driver)`
unfoldable pub find : List DriverInfo → List ℕ → Option DriverInfo
find [] driver = none
find (d ∷ drivers) driver =
    let rest = find drivers driver in if same d.symbol driver then some d else rest

-- The result of `resolve_driver`, with a constructor for each error.
pub data Resolution : Type 0 where
  resolved : List ℕ → DriverInfo → Resolution
  subsystem_not_found : Resolution
  not_found_in_subsystem : Resolution
  driver_not_found : Resolution
  in_multiple_subsystems : Resolution

abbrev pub from_found : List ℕ → Option DriverInfo → Resolution
from_found subsystem none = not_found_in_subsystem
from_found subsystem (some d) = resolved subsystem d

abbrev pub in_subsystem : List ℕ → List ℕ → Option (List DriverInfo) → Resolution
in_subsystem subsystem driver none = subsystem_not_found
in_subsystem subsystem driver (some drivers) = from_found subsystem (find drivers driver)

-- What one round of the loop adds to the matches that the others give.
abbrev pub add_match :
    List ℕ → Option DriverInfo → List (List ℕ × DriverInfo) → List (List ℕ × DriverInfo)
add_match subsystem none found = found
add_match subsystem (some d) found = (subsystem, d) ∷ found

-- The loop over the map
unfoldable pub matches : DriverMap → List ℕ → List (List ℕ × DriverInfo)
matches [] driver = []
matches (entry ∷ map) driver = add_match entry.0 (find entry.1 driver) (matches map driver)

-- The `match` on the number of matches
abbrev pub only_match : List (List ℕ × DriverInfo) → Resolution
only_match [] = driver_not_found
only_match (found ∷ []) = resolved found.0 found.1
only_match (found ∷ second ∷ more) = in_multiple_subsystems

abbrev pub resolve_driver : DriverMap → Option (List ℕ) → List ℕ → Resolution
resolve_driver map (some subsystem) driver = in_subsystem subsystem driver (get map subsystem)
resolve_driver map none driver = only_match (matches map driver)
