-- ===== src/Derive/Iface/Demand.antt =====
-- The demand that crates/l4_derive/iface.rs counts in a byte.
use l4rerust.Base.{ℕ, ◌+◌, ◌%◌, ◌^◌, ◌<◌, ◌≡◌, ap, ◌∙◌, some, List, [], ◌∷◌, leb, if_false, arith}
use l4rerust.Derive.Iface.{IfaceMethod, inner, count_caps, count_from, count_demand}

abbrev pub total_caps : List IfaceMethod → ℕ
total_caps [] = 0
total_caps (m ∷ ms) = count_caps (inner m).inputs + total_caps ms

count_from_lem :
    (count : ℕ) (ms : List IfaceMethod)
    → count + total_caps ms < 2 ^ 8
    → count_from count ms ≡ some (count + total_caps ms)
unfolding count_from
count_from_lem count [] h = ap some (omega arith)
count_from_lem count (m ∷ ms) h =
    let small : count + count_caps (inner m).inputs % 2 ^ 8 ≡ count + count_caps (inner m).inputs =
      omega (arith, h) in
    if_false (leb (2 ^ 8) (count + count_caps (inner m).inputs % 2 ^ 8)) _ _
      (ground (arith, small, h))
    ∙ ap (λ n. count_from n ms) small
    ∙ count_from_lem (count + count_caps (inner m).inputs) ms (omega (arith, h))
    ∙ ap some (omega arith)

-- With fewer than 256 capabilities among the arguments of all methods, the demand is their number.
count_demand_lem :
    (methods : List IfaceMethod)
    → total_caps methods < 2 ^ 8
    → count_demand methods ≡ some (total_caps methods)
count_demand_lem methods h = count_from_lem 0 methods (omega (arith, h)) ∙ ap some (omega arith)
