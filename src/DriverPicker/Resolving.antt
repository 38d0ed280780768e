-- ===== src/DriverPicker/Resolving.antt =====
-- What `resolve_driver` of tools/driver_picker/src/main.rs finds.
use mathlib.Core.List.{Permᴰ, Memᴰ}
use l4rerust.Base.Text.{same, same→≡, same_refl}
use l4rerust.Base.{
  ℕ, ◌≡◌, refl, ap, ◌∙◌, sym, subst, true, false, Bool-cases, ◌⊎◌, inl, inr, List, [], ◌∷◌, Option,
  none, some, All,
}
use l4rerust.DriverPicker.{
  DriverInfo, DriverMap, get, find, Resolution, resolved, subsystem_not_found,
  not_found_in_subsystem, driver_not_found, in_multiple_subsystems, add_match, matches, only_match,
  from_found, in_subsystem, resolve_driver,
}
use l4rerust.DriverPicker.Order.{HasKeys, resolve_driver-Perm}

-- The drivers have one of that name.
abbrev pub Offers : List ℕ → List DriverInfo → Type 0
Offers driver drivers = (d : DriverInfo) × Memᴰ d drivers × (d.symbol ≡ driver)

-- The entry of the map for `subsystem` has the driver `d`.
abbrev pub Listed : DriverMap → List ℕ → DriverInfo → Type 0
Listed map subsystem d =
    (drivers : List DriverInfo) × Memᴰ (subsystem, drivers) map × Memᴰ d drivers

-- What each result means, for a call with a subsystem and for one without.
abbrev pub Resolves : DriverMap → Option (List ℕ) → List ℕ → Resolution → Type 0
Resolves map (some subsystem) driver (resolved name d) =
    (name ≡ subsystem) × Listed map subsystem d × (d.symbol ≡ driver)
Resolves map (some subsystem) driver subsystem_not_found =
    (drivers : List DriverInfo) → ¬ (Memᴰ (subsystem, drivers) map)
Resolves map (some subsystem) driver not_found_in_subsystem =
    (drivers : List DriverInfo) × Memᴰ (subsystem, drivers) map × (¬ (Offers driver drivers))
Resolves map (some subsystem) driver driver_not_found = ⊥
Resolves map (some subsystem) driver in_multiple_subsystems = ⊥
Resolves map none driver (resolved name d) =
    Listed map name d
    × (d.symbol ≡ driver)
    × ((other : List ℕ) (k : DriverInfo) → Listed map other k → k.symbol ≡ driver → other ≡ name)
Resolves map none driver subsystem_not_found = ⊥
Resolves map none driver not_found_in_subsystem = ⊥
Resolves map none driver driver_not_found =
    (subsystem : List ℕ) (d : DriverInfo) → Listed map subsystem d → ¬ (d.symbol ≡ driver)
Resolves map none driver in_multiple_subsystems =
    (s : List ℕ) × (t : List ℕ) × (d : DriverInfo) × (k : DriverInfo) × (same s t ≡ false)
    × Listed map s d
    × Listed map t k
    × (d.symbol ≡ driver)
    × (k.symbol ≡ driver)

-- What `find` gives.
abbrev Finds : List DriverInfo → List ℕ → Option DriverInfo → Type 0
Finds drivers driver none = ¬ (Offers driver drivers)
Finds drivers driver (some d) = Memᴰ d drivers × (d.symbol ≡ driver)

not_in_nil : {A : Type 0} {a : A} → ¬ (Memᴰ a [])
not_in_nil m = elim m [ ]

in_cons : {A : Type 0} {a b : A} {l : List A} → Memᴰ a (b ∷ l) → (a ≡ b) ⊎ Memᴰ a l
in_cons (Memᴰ.head e) = inl e
in_cons (Memᴰ.tail m) = inr m

Finds-skip :
    (d : DriverInfo) (drivers : List DriverInfo) (driver : List ℕ) (o : Option DriverInfo)
    → same d.symbol driver ≡ false
    → Finds drivers driver o
    → Finds (d ∷ drivers) driver o
Finds-skip d drivers driver none h f = λ x. elim (in_cons x.1) [
  | inl e ↦ absurd (
      let yes : same d.symbol driver ≡ true =
        subst (λ w. same w driver ≡ true) (sym x.2 ∙ ap (λ k. k.symbol) e) (same_refl driver) in
      cc)
  | inr m ↦ f (x.0, m, x.2)
]
Finds-skip d drivers driver (some k) h f = (Memᴰ.tail f.0, f.1)

find-Finds :
    (drivers : List DriverInfo) (driver : List ℕ) → Finds drivers driver (find drivers driver)
unfolding find
find-Finds [] driver = λ x. not_in_nil x.1
find-Finds (d ∷ drivers) driver = elim (Bool-cases (same d.symbol driver)) [
  | inl e ↦ rw (e, find) (Memᴰ.head refl, same→≡ d.symbol driver e)
  | inr e ↦
      rw (e, find) (Finds-skip d drivers driver (find drivers driver) e (find-Finds drivers driver))
]

-- What `get` gives.
abbrev Gets : DriverMap → List ℕ → Option (List DriverInfo) → Type 0
Gets map s none = (drivers : List DriverInfo) → ¬ (Memᴰ (s, drivers) map)
Gets map s (some drivers) = Memᴰ (s, drivers) map

Gets-skip :
    (entry : List ℕ × List DriverInfo) (map : DriverMap) (s : List ℕ) (o : Option (List DriverInfo))
    → same entry.0 s ≡ false
    → Gets map s o
    → Gets (entry ∷ map) s o
Gets-skip entry map s none h g = λ drivers x. elim (in_cons x) [
  | inl e ↦ absurd (
      let yes : same entry.0 s ≡ true =
        subst (λ w. same w s ≡ true) (ap (λ (k : List ℕ × List DriverInfo). k.0) e) (same_refl s) in
      cc)
  | inr m ↦ g drivers m
]
Gets-skip entry map s (some drivers) h g = Memᴰ.tail g

get-Gets : (map : DriverMap) (s : List ℕ) → Gets map s (get map s)
unfolding get
get-Gets [] s = λ drivers x. not_in_nil x
get-Gets (entry ∷ map) s = elim (Bool-cases (same entry.0 s)) [
  | inl e ↦ rw (e, get) (Memᴰ.head (ap (λ n. (n, entry.1)) (sym (same→≡ entry.0 s e))))
  | inr e ↦ rw (e, get) (Gets-skip entry map s (get map s) e (get-Gets map s))
]

from_found-Resolves :
    (map : DriverMap) (s driver : List ℕ) (drivers : List DriverInfo) (o : Option DriverInfo)
    → Memᴰ (s, drivers) map
    → Finds drivers driver o
    → Resolves map (some s) driver (from_found s o)
from_found-Resolves map s driver drivers none m f = (drivers, m, f)
from_found-Resolves map s driver drivers (some d) m f = (refl, (drivers, m, f.0), f.1)

in_subsystem-Resolves :
    (map : DriverMap) (s driver : List ℕ) (o : Option (List DriverInfo))
    → Gets map s o
    → Resolves map (some s) driver (in_subsystem s driver o)
in_subsystem-Resolves map s driver none g = g
in_subsystem-Resolves map s driver (some drivers) g =
    from_found-Resolves map s driver drivers (find drivers driver) g (find-Finds drivers driver)

-- What the loop over the map finds: drivers of that name that are listed under different subsystems,
-- one for each subsystem that has such a driver.
record Matched (map : DriverMap) (driver : List ℕ) (found : List (List ℕ × DriverInfo))
    : Type 0 where
  listed : (s : List ℕ) (d : DriverInfo) → Memᴰ (s, d) found → Listed map s d × (d.symbol ≡ driver)
  complete :
      (s : List ℕ) (d : DriverInfo)
      → Listed map s d
      → d.symbol ≡ driver
      → (k : DriverInfo) × Memᴰ (s, k) found
  keys :
      (t : List ℕ)
      → All (λ (e : List ℕ × List DriverInfo). same t e.0 ≡ false) map
      → All (λ (f : List ℕ × DriverInfo). same t f.0 ≡ false) found

widen :
    (entry : List ℕ × List DriverInfo) (map : DriverMap) (s : List ℕ) (d : DriverInfo)
    → Listed map s d
    → Listed (entry ∷ map) s d
widen entry map s d l = (l.0, Memᴰ.tail l.1, l.2)

add_match-Matched :
    (entry : List ℕ × List DriverInfo) (map : DriverMap) (driver : List ℕ) (o : Option DriverInfo)
    (found : List (List ℕ × DriverInfo))
    → Finds entry.1 driver o
    → Matched map driver found
    → Matched (entry ∷ map) driver (add_match entry.0 o found)
add_match-Matched entry map driver none found f v = record {
  listed = λ s d m. let l = v.listed s d m in (widen entry map s d l.0, l.1);
  complete = λ s d l e. elim (in_cons l.1) [
    | inl at ↦ absurd (f (d, subst (λ (x : List ℕ × List DriverInfo). Memᴰ d x.1) at l.2, e))
    | inr m ↦ v.complete s d (l.0, m, l.2) e
  ];
  keys = λ t h. v.keys t h.1;
}
add_match-Matched entry map driver (some k) found f v = record {
  listed = λ s d m. elim (in_cons m) [
    | inl at ↦
        let back : (entry.0, k) ≡ (s, d) = sym at in
        subst (λ (x : List ℕ × DriverInfo). Listed (entry ∷ map) x.0 x.1 × (x.1.symbol ≡ driver))
          back ((entry.1, Memᴰ.head refl, f.0), f.1)
    | inr m' ↦ let l = v.listed s d m' in (widen entry map s d l.0, l.1)
  ];
  complete = λ s d l e. elim (in_cons l.1) [
    | inl at ↦ (k, Memᴰ.head (ap (λ (x : List ℕ × List DriverInfo). (x.0, k)) at))
    | inr m ↦ let c = v.complete s d (l.0, m, l.2) e in (c.0, Memᴰ.tail c.1)
  ];
  keys = λ t h. (h.0, v.keys t h.1);
}

matches-Matched : (map : DriverMap) (driver : List ℕ) → Matched map driver (matches map driver)
unfolding matches
matches-Matched [] driver = record {
  listed = λ s d m. absurd (not_in_nil m);
  complete = λ s d l e. absurd (not_in_nil l.1);
  keys = λ t h. record {};
}
matches-Matched (entry ∷ map) driver =
    add_match-Matched entry map driver (find entry.1 driver) (matches map driver)
      (find-Finds entry.1 driver) (matches-Matched map driver)

-- The subsystems of the matches differ.
abbrev Apart : List (List ℕ × DriverInfo) → Type 0
Apart [] = Unit
Apart (found ∷ more) = All (λ (f : List ℕ × DriverInfo). same found.0 f.0 ≡ false) more × Apart more

add_match-Apart :
    (s : List ℕ) (o : Option DriverInfo) (found : List (List ℕ × DriverInfo))
    → All (λ (f : List ℕ × DriverInfo). same s f.0 ≡ false) found
    → Apart found
    → Apart (add_match s o found)
add_match-Apart s none found h a = a
add_match-Apart s (some k) found h a = (h, a)

matches-Apart : (map : DriverMap) (driver : List ℕ) → HasKeys map → Apart (matches map driver)
unfolding matches
matches-Apart [] driver h = record {}
matches-Apart (entry ∷ map) driver h =
    add_match-Apart entry.0 (find entry.1 driver) (matches map driver)
      ((matches-Matched map driver).keys entry.0 h.0) (matches-Apart map driver h.1)

only_match-Resolves :
    (map : DriverMap) (driver : List ℕ) (found : List (List ℕ × DriverInfo))
    → Matched map driver found
    → Apart found
    → Resolves map none driver (only_match found)
only_match-Resolves map driver [] v a = λ s d l e. not_in_nil (v.complete s d l e).1
only_match-Resolves map driver ((s, d) ∷ []) v a =
    let l = v.listed s d (Memᴰ.head refl) in
    (
      l.0,
      l.1,
      λ other k lk e. elim (in_cons (v.complete other k lk e).1) [
        | inl at ↦ ap (λ (x : List ℕ × DriverInfo). x.0) at
        | inr m ↦ absurd (not_in_nil m)
      ],
    )
only_match-Resolves map driver ((s, d) ∷ (t, k) ∷ more) v a =
    let l = v.listed s d (Memᴰ.head refl) in
    let r = v.listed t k (Memᴰ.tail (Memᴰ.head refl)) in (s, t, d, k, a.0.0, l.0, r.0, l.1, r.1)

-- For a map of the drivers whose keys differ, `resolve_driver` gives a driver of that name listed
-- under the subsystem it gives, which is the one asked for, or without one the only subsystem that
-- lists such a driver. It fails only if the subsystem is missing or does not list one, or if no
-- subsystem does or two do, with the error that says so. The order in which the map yields its entries
-- plays no part.
pub resolve_driver_lem :
    (m m' : DriverMap) (subsystem : Option (List ℕ)) (driver : List ℕ)
    → HasKeys m
    → Permᴰ m m'
    → Resolves m subsystem driver (resolve_driver m subsystem driver)
      × (resolve_driver m' subsystem driver ≡ resolve_driver m subsystem driver)
resolve_driver_lem m m' (some s) driver keys p = (
  in_subsystem-Resolves m s driver (get m s) (get-Gets m s),
  resolve_driver-Perm m m' (some s) driver keys p,
)
resolve_driver_lem m m' none driver keys p = (
  only_match-Resolves m driver (matches m driver) (matches-Matched m driver)
      (matches-Apart m driver keys),
  resolve_driver-Perm m m' none driver keys p,
)
