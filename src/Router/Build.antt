-- ===== src/Router/Build.antt =====
-- Building a map by calls of `add_target`, as the platforms do.
use cdc_vp.Base.{
  ℕ, ◌+◌, ◌≤◌, ◌<◌, ◌≡◌, ◌∙◌, Option, none, some, List, [], ◌∷◌, ◌++◌, length, length-append, leb,
  if◌then◌else◌, Bool-cases, inl, inr, arith,
}
use mathlib.Core.List.{append-nil, append_assoc}
use cdc_vp.Range.{AddressRange}
use cdc_vp.Router.{BusRouter, bus_router, add_target}

-- The calls of `add_target` for a list of regions, in order; `none` if one throws.
pub add_targets : BusRouter → List AddressRange → Option BusRouter
add_targets r [] = some r
add_targets r (a ∷ rest) = elim (add_target r a.base a.size) [
  | none ↦ none
  | some (idx, r') ↦ add_targets r' rest
]

-- A call succeeds while a socket is left, gives the index of the next one, and appends the region.
pub add_target_ok :
    (r : BusRouter) (a : AddressRange)
    → length r.ranges < r.num_sockets
    → add_target r a.base a.size ≡ some (length r.ranges, record r { ranges = r.ranges ++ a ∷ [] })
unfolding add_target
add_target_ok r a h = ground arith

pub add_target_full :
    (r : BusRouter) (base size : ℕ)
    → r.num_sockets ≤ length r.ranges
    → add_target r base size ≡ none
unfolding add_target
add_target_full r base size h = ground arith

pub add_targets_ok :
    (r : BusRouter) (regions : List AddressRange)
    → length r.ranges + length regions ≤ r.num_sockets
    → add_targets r regions ≡ some (record r { ranges = r.ranges ++ regions })
unfolding add_targets
add_targets_ok r [] h = rw append-nil
add_targets_ok r (a ∷ rest) h =
    rw (add_target_ok r a (omega arith), add_targets)
      (add_targets_ok (record r { ranges = r.ranges ++ a ∷ [] }) rest
          (omega (arith, length-append r.ranges (a ∷ [])))
        ∙ rw append_assoc)

pub add_targets_full :
    (r : BusRouter) (regions : List AddressRange)
    → length r.ranges ≤ r.num_sockets
    → r.num_sockets < length r.ranges + length regions
    → add_targets r regions ≡ none
unfolding add_targets
add_targets_full r [] h k = absurd (omega arith)
add_targets_full r (a ∷ rest) h k = elim (Bool-cases (leb r.num_sockets (length r.ranges))) [
  | inl full ↦ rw (add_target_full r a.base a.size (ground arith), add_targets)
  | inr free ↦
      rw (add_target_ok r a (ground arith), add_targets)
        (add_targets_full (record r { ranges = r.ranges ++ a ∷ [] }) rest
          (ground (arith, length-append r.ranges (a ∷ [])))
          (omega (arith, length-append r.ranges (a ∷ []))))
]

-- A router made for `n` targets accepts a list of regions exactly if it has at most `n`, and then
-- maps them in the order of the calls.
pub add_targets-bus_router :
    (n ports : ℕ) (regions : List AddressRange)
    → add_targets (bus_router n ports) regions ≡ (
        if leb (length regions) n
        then some (record (bus_router n ports) { ranges = regions })
        else none)
unfolding bus_router
add_targets-bus_router n ports regions = elim (Bool-cases (leb (length regions) n)) [
  | inl fits ↦ rw fits (add_targets_ok (bus_router n ports) regions (ground arith))
  | inr over ↦ rw over (add_targets_full (bus_router n ports) regions (omega arith) (ground arith))
]
