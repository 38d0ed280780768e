-- ===== src/DriverPicker/Tests.antt =====
-- A map of three subsystems for tools/driver_picker/src/main.rs.
use mathlib.Core.List.{Permᴰ}
use l4rerust.Base.{ℕ, ◌≡◌, refl, List, [], ◌∷◌, none}
use l4rerust.DriverPicker.{DriverInfo, DriverMap, resolve_driver}
use l4rerust.DriverPicker.Order.{HasKeys}
use l4rerust.DriverPicker.Resolving.{Resolves, resolve_driver_lem}

abbrev driver_of : ℕ → DriverInfo
driver_of c = record { symbol = c ∷ []; dir = 47 ∷ []; kconfig = 75 ∷ [] }

abbrev net : List ℕ × List DriverInfo
net = (110 ∷ [], driver_of 1 ∷ driver_of 2 ∷ [])

abbrev gpu : List ℕ × List DriverInfo
gpu = (103 ∷ [], driver_of 3 ∷ [])

abbrev drivers : DriverMap
drivers = net ∷ gpu ∷ []

drivers-HasKeys : HasKeys drivers
drivers-HasKeys = ((refl, record {}), (record {}, record {}))

resolve_driver_lem_example :
    Resolves drivers none (2 ∷ []) (resolve_driver drivers none (2 ∷ []))
    × (resolve_driver (gpu ∷ net ∷ []) none (2 ∷ []) ≡ resolve_driver drivers none (2 ∷ []))
resolve_driver_lem_example =
    resolve_driver_lem drivers (gpu ∷ net ∷ []) none (2 ∷ []) drivers-HasKeys (Permᴰ.swap refl refl)
