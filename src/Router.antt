-- ===== src/Router.antt =====
-- components/bus_router: the address-decoding router. A socket is the index it was created with;
-- what is bound to it, with the state behind it, is a parameter.
pub mod Decode
pub mod Transport
pub mod Build
mod Tests
use cdc_vp.Base.{
  ℕ, zero, suc, ◌+◌, ◌-◌, ◌%◌, ◌^◌, Bool, true, false, Option, none, some, List, [], ◌∷◌, ◌++◌, leb,
  ltb, ◌==◌, if◌then◌else◌, length, get_or,
}
use cdc_vp.Tlm.{Payload, SimTime, address_error, respond, set_address}
use cdc_vp.Range.{AddressRange, contains}

-- `ranges_`, and the sizes of `sockets_` and `extra_ports_`.
pub record BusRouter : Type 0 where
  pub ranges : List AddressRange
  pub num_sockets : ℕ
  pub num_extra_ports : ℕ

-- The constructor: all sockets exist from the start, and no region is mapped. The loop over the
-- extra ports begins at 1.
unfoldable pub bus_router : ℕ → ℕ → BusRouter
bus_router num_targets num_initiators = record {
  ranges = [];
  num_sockets = num_targets;
  num_extra_ports = num_initiators - 1;
}

pub data CpuPort : Type 0 where
  target_socket : CpuPort
  extra_port : ℕ → CpuPort

-- `none` is `std::out_of_range`.
unfoldable pub cpu_port : BusRouter → ℕ → Option CpuPort
cpu_port r index =
    if index == 0
    then some target_socket
    else if leb r.num_extra_ports (index - 1)
    then none
    else some (extra_port (index - 1))

-- The index of the socket to bind, and the router after; `none` is `std::out_of_range`.
pub add_target : BusRouter → ℕ → ℕ → Option (ℕ × BusRouter)
add_target r base size =
    if leb r.num_sockets (length r.ranges)
    then none
    else some (
      length r.ranges,
      record r { ranges = r.ranges ++ record { base = base; size = size } ∷ [] },
    )

-- The loop of `decode`, from index `i` on; `none` is the -1.
decode_from : ℕ → List AddressRange → ℕ → Option ℕ
decode_from i [] addr = none
decode_from i (r ∷ rs) addr = if contains r addr then some i else decode_from (suc i) rs addr

unfoldable pub decode : BusRouter → ℕ → Option ℕ
unfolding decode_from
decode r addr = decode_from 0 r.ranges addr

-- The region of an index; `decode` gives no index past the end.
abbrev pub range_at : BusRouter → ℕ → AddressRange
range_at r idx = get_or r.ranges idx (record { base = 0; size = 0 })

-- `addr - ranges_[idx].base`, in 64 bits.
abbrev pub local_address : BusRouter → ℕ → ℕ → ℕ
local_address r idx addr = (addr + 2 ^ 64 - (range_at r idx).base) % 2 ^ 64

-- What the socket of an index calls: `b_transport` and `transport_dbg` of the bound target.
module _ {ℓ} {World : Type ℓ}
    (targets : ℕ → World → Payload → SimTime → World × Payload × SimTime) where
  unfoldable pub b_transport : BusRouter → World → Payload → SimTime → World × Payload × SimTime
  b_transport r w trans delay = elim (decode r trans.address) [
    | none ↦ (w, respond trans address_error, delay)
    | some idx ↦
        let (w', t', delay') =
          targets idx w (set_address trans (local_address r idx trans.address)) delay in
        (w', set_address t' trans.address, delay')
  ]

module _ {ℓ} {World : Type ℓ} (targets : ℕ → World → Payload → World × Payload × ℕ) where
  pub transport_dbg : BusRouter → World → Payload → World × Payload × ℕ
  transport_dbg r w trans = elim (decode r trans.address) [
    | none ↦ (w, respond trans address_error, 0)
    | some idx ↦
        let (w', t', n) = targets idx w (set_address trans (local_address r idx trans.address)) in
        (w', set_address t' trans.address, n)
  ]
