-- ===== src/Probe/MemoryTest.antt =====
-- components/memory_tlm/tests/test_memory_tlm.cpp, with any words for its two constants.
use cdc_vp.Base.{ℕ, ◌^◌, ◌<◌, ◌≡◌, refl, true, false, ◌==◌, take, le_bytes, of_le, arith}
use cdc_vp.Tlm.{read_command, write_command}
use cdc_vp.Memory.{memory_tlm, b_transport, transfer, transport_dbg, debug_transfer}
use cdc_vp.Probe.{cdc_check, is_ok, is_address_error, is_command_error, word_in, write, read, debug}

pub memory_test : ℕ → ℕ → ℕ
unfolding memory_tlm b_transport transfer transport_dbg debug_transfer
memory_test pattern dbg_val =
    let ram = memory_tlm 0x100 false 0 in
    let rom = memory_tlm 0x100 true 0 in
    let (ram1, ack, sent) = write b_transport 0x10 pattern ram in
    let f1 = cdc_check (is_ok ack) 0 in
    let (ram2, got, rb) = read b_transport 0x10 0 ram1 in
    let f2 = cdc_check (is_ok got) f1 in
    let f3 = cdc_check (word_in rb == pattern) f2 in
    let (ram3, out, rb3) = read b_transport 0x100 (word_in rb) ram2 in
    let f4 = cdc_check (is_address_error out) f3 in
    let (rom1, refused, kept) = write b_transport 0x0 pattern rom in
    let f5 = cdc_check (is_command_error refused) f4 in
    let (rom2, allowed, rb5) = read b_transport 0x0 (word_in rb3) rom1 in
    let f6 = cdc_check (is_ok allowed) f5 in
    let (ram4, put, back) = debug transport_dbg write_command 0x20 dbg_val ram3 in
    let f7 = cdc_check (put == 4) f6 in
    let (ram5, taken, dbg_rb) = debug transport_dbg read_command 0x20 0 ram4 in
    let f8 = cdc_check (taken == 4) f7 in cdc_check (word_in dbg_rb == dbg_val) f8

pub word_same : (v : ℕ) → v < 2 ^ 32 → (of_le (take 4 (le_bytes 4 v)) == v) ≡ true
word_same v small = ground arith

-- The test finds no failure, with any two words of 32 bits.
pub memory_test_passes :
    (pattern dbg_val : ℕ) → pattern < 2 ^ 32 → dbg_val < 2 ^ 32 → memory_test pattern dbg_val ≡ 0
unfolding memory_test
memory_test_passes pattern dbg_val p d = rw (word_same pattern p, word_same dbg_val d) refl
