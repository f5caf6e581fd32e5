-- ===== src/Probe/RouterTest.antt =====
-- components/bus_router/tests/test_bus_router.cpp, with any words for its two constants.
use cdc_vp.Base.{ℕ, zero, suc, ◌^◌, ◌<◌, ◌≡◌, refl, false, some, [], ◌∷◌, ◌==◌}
use cdc_vp.Tlm.{Payload, SimTime}
use cdc_vp.Range.{contains}
use cdc_vp.Memory
use cdc_vp.Memory.{MemoryTlm, memory_tlm, transfer}
use cdc_vp.Router
use cdc_vp.Router.{BusRouter, bus_router, decode}
use cdc_vp.Router.Build.{add_targets, add_targets-bus_router}
use cdc_vp.Probe.{cdc_check, is_ok, is_address_error, word_in, write, read}
use cdc_vp.Probe.MemoryTest.{word_same}

-- The two memories.
abbrev Memories : Type 0
Memories = MemoryTlm × MemoryTlm

abbrev sockets : ℕ → Memories → Payload → SimTime → Memories × Payload × SimTime
sockets zero w trans delay = let (m, t, d) = Memory.b_transport w.0 trans delay in ((m, w.1), t, d)
sockets (suc idx) w trans delay =
    let (m, t, d) = Memory.b_transport w.1 trans delay in ((w.0, m), t, d)

abbrev mapped : BusRouter
mapped = record {
  ranges = record { base = 0x1000; size = 0x100 } ∷ record { base = 0x2000; size = 0x100 } ∷ [];
  num_sockets = 2;
  num_extra_ports = 0;
}

pub router_test : ℕ → ℕ → ℕ
unfolding memory_tlm Memory.b_transport transfer Router.b_transport decode contains
router_test a b =
    let bus = Router.b_transport sockets mapped in
    let w0 : Memories = (memory_tlm 0x100 false 0, memory_tlm 0x100 false 0) in
    let (w1, ack1, sent1) = write bus 0x1004 a w0 in
    let f1 = cdc_check (is_ok ack1) 0 in
    let (w2, ack2, sent2) = write bus 0x2008 b w1 in
    let f2 = cdc_check (is_ok ack2) f1 in
    let (w3, got1, rb1) = read bus 0x1004 0 w2 in
    let f3 = cdc_check (is_ok got1) f2 in
    let f4 = cdc_check (word_in rb1 == a) f3 in
    let (w4, got2, rb2) = read bus 0x2008 (word_in rb1) w3 in
    let f5 = cdc_check (is_ok got2) f4 in
    let f6 = cdc_check (word_in rb2 == b) f5 in
    let (w5, got3, rb3) = read bus 0x1000 0xDEADBEEF w4 in
    let f7 = cdc_check (is_ok got3) f6 in
    let f8 = cdc_check (word_in rb3 == 0) f7 in
    let (w6, got4, rb4) = read bus 0x2004 0xDEADBEEF w5 in
    let f9 = cdc_check (is_ok got4) f8 in
    let f10 = cdc_check (word_in rb4 == 0) f9 in
    let (w7, out, rb5) = read bus 0x3000 (word_in rb4) w6 in cdc_check (is_address_error out) f10

-- The regions of the test are those that its construction of the router leaves.
mapped_lem : add_targets (bus_router 2 1) mapped.ranges ≡ some mapped
unfolding bus_router
mapped_lem = add_targets-bus_router 2 1 mapped.ranges

-- The test finds no failure, with any two words of 32 bits.
pub router_test_passes : (a b : ℕ) → a < 2 ^ 32 → b < 2 ^ 32 → router_test a b ≡ 0
unfolding router_test
router_test_passes a b p q = rw (word_same a p, word_same b q) refl
