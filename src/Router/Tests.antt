-- ===== src/Router/Tests.antt =====
-- The router at concrete maps and transactions.
use cdc_vp.Base.{
  ℕ, ◌+◌, ◌-◌, ◌<◌, ◌≡◌, ◌↔◌, ◌^◌, refl, true, false, none, some, [], ◌∷◌, inl, arith,
}
use cdc_vp.Tlm.{Payload, SimTime, ok_response, respond, set_address, address_error}
use cdc_vp.Fixtures.{write_word}
use cdc_vp.Range.{AddressRange, contains, InRange, contains_iff, contains_wrapped}
use cdc_vp.Router.{
  BusRouter, target_socket, extra_port, bus_router, cpu_port, decode, range_at, b_transport,
  transport_dbg,
}
use cdc_vp.Router.Decode.{IsMap, decode_first, decode-IsMap}
use cdc_vp.Router.Build.{add_targets, add_targets-bus_router}
use cdc_vp.Router.Transport.{b_transport_forwards, transport_dbg_forwards}

abbrev uart_range : AddressRange
uart_range = record { base = 0x10000000; size = 0x1000 }

abbrev ram_range : AddressRange
ram_range = record { base = 0x80000000; size = 0x10000 }

abbrev two_targets : BusRouter
two_targets = record { ranges = uart_range ∷ ram_range ∷ []; num_sockets = 2; num_extra_ports = 1 }

two_targets-IsMap : IsMap two_targets.ranges
two_targets-IsMap = (omega arith, (inl (omega arith), tt), (omega arith, tt, tt))

contains_iff_example : (contains ram_range 0x80000010 ≡ true) ↔ InRange ram_range 0x80000010
contains_iff_example = contains_iff ram_range 0x80000010 (omega arith)

contains_wrapped_example :
    contains (record { base = 2 ^ 64 - 0x1000; size = 0x1000 }) (2 ^ 64 - 1) ≡ false
contains_wrapped_example =
    contains_wrapped (record { base = 2 ^ 64 - 0x1000; size = 0x1000 }) (2 ^ 64 - 1) (omega arith)
      (omega arith) (omega arith)

decode-ram : decode two_targets 0x80000010 ≡ some 1
unfolding decode contains
decode-ram = refl

decode_first_example :
    (1 < 2)
    × (contains ram_range 0x80000010 ≡ true)
    × ((j : ℕ) → j < 1 → contains (range_at two_targets j) 0x80000010 ≡ false)
decode_first_example = decode_first two_targets 0x80000010 1 decode-ram

decode-IsMap_example : decode two_targets 0x80000010 ≡ some 1
decode-IsMap_example =
    decode-IsMap two_targets 1 0x80000010 two_targets-IsMap (omega arith) (omega arith)

-- Targets that count the calls they get, and move the address.
abbrev counting : ℕ → ℕ → Payload → SimTime → ℕ × Payload × SimTime
counting idx w trans delay = (w + 1, respond (set_address trans 7) ok_response, delay + 10)

b_transport_forwards_example :
    b_transport counting two_targets 0 (write_word 0x80000010 5) 1
    ≡ (1, respond (write_word 0x80000010 5) ok_response, 11)
b_transport_forwards_example =
    b_transport_forwards counting two_targets 0 (write_word 0x80000010 5) 1 1 two_targets-IsMap
      (omega arith) (omega arith)

abbrev counting_dbg : ℕ → ℕ → Payload → ℕ × Payload × ℕ
counting_dbg idx w trans = (w + 1, respond (set_address trans 7) ok_response, trans.data_length)

transport_dbg_forwards_example :
    transport_dbg counting_dbg two_targets 0 (write_word 0x10000004 5)
    ≡ (1, respond (write_word 0x10000004 5) ok_response, 4)
transport_dbg_forwards_example =
    transport_dbg_forwards counting_dbg two_targets 0 (write_word 0x10000004 5) 0 two_targets-IsMap
      (omega arith) (omega arith)

unmapped :
    (b_transport counting two_targets 0 (write_word 0x90000000 5) 1).1.response ≡ address_error
unfolding b_transport decode contains
unmapped = refl

ports :
    (cpu_port (bus_router 3 2) 0 ≡ some target_socket)
    × (cpu_port (bus_router 3 2) 1 ≡ some (extra_port 0))
    × (cpu_port (bus_router 3 2) 2 ≡ none)
unfolding cpu_port bus_router
ports = (refl, refl, refl)

add_targets-bus_router_example :
    add_targets (bus_router 2 1) (uart_range ∷ ram_range ∷ [])
    ≡ some (record (bus_router 2 1) { ranges = uart_range ∷ ram_range ∷ [] })
add_targets-bus_router_example = add_targets-bus_router 2 1 (uart_range ∷ ram_range ∷ [])
