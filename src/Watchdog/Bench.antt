-- ===== src/Watchdog/Bench.antt =====
-- components/wdt_tlm/test.cpp: the test bench of the watchdog, a client that sends transactions to it,
-- lets its clock tick and counts the answers that are not as it expects. What it prints is left out.
pub mod Passes
use cdc_vp.Base.{
  ℕ, zero, suc, ◌+◌, ◌%◌, ◌^◌, Bool, true, false, not, ◌&&◌, ◌||◌, some, none, List, [], ◌∷◌, ◌==◌,
  if◌then◌else◌, le_bytes, of_le, take,
}
use cdc_vp.Tlm.{
  Payload, Command, read_command, write_command, incomplete_response, is_response_error,
}
use cdc_vp.Watchdog.{Watchdog, b_transport, tick, drive_outputs}

abbrev wdog_load : ℕ
wdog_load = 0x000

abbrev wdog_value : ℕ
wdog_value = 0x004

abbrev wdog_control : ℕ
wdog_control = 0x008

abbrev wdog_intclr : ℕ
wdog_intclr = 0x00C

abbrev wdog_ris : ℕ
wdog_ris = 0x010

abbrev wdog_mis : ℕ
wdog_mis = 0x014

abbrev wdog_lock : ℕ
wdog_lock = 0xC00

-- `Testbench` with the watchdog that its socket and its ports are bound to.
pub record Testbench : Type 0 where
  pub dut : Watchdog
  pub errors : ℕ

abbrev pub passed : Testbench → Bool
passed tb = tb.errors == 0

-- A part of `run`.
abbrev pub Step : Type 0
Step = Testbench → Testbench

infixl 5 ◌then◌
abbrev pub ◌then◌ : Step → Step → Step
(f then g) tb = g (f tb)

abbrev count_error : Testbench → Testbench
count_error tb = record tb { errors = (tb.errors + 1) % 2 ^ 32 }

-- `wait(SC_ZERO_TIME)`, which lets the delta cycle pass that delivers `m_output_changed`.
unfoldable delta : Step
delta tb = record tb { dut = drive_outputs tb.dut }

unfoldable settle_outputs : Step
unfolding delta
settle_outputs = delta then delta

-- Each tick comes after what the one before has notified is delivered.
unfoldable wait_ticks : ℕ → Step
wait_ticks zero tb = tb
wait_ticks (suc ticks) tb = wait_ticks ticks (record tb { dut = tick (drive_outputs tb.dut) })

abbrev transaction : Command → ℕ → List ℕ → Payload
transaction c addr bytes = record {
  command = c;
  address = addr;
  buffer = some bytes;
  data_length = 4;
  streaming_width = 4;
  byte_enables = false;
  dmi_allowed = false;
  response = incomplete_response;
}

-- The call and the wait for its delay, which is a delta cycle, since the watchdog adds nothing to it.
unfoldable send : Payload → Testbench → Payload × Testbench
unfolding delta
send trans tb =
    let (w, t, delay) = b_transport tb.dut trans 0 in
    let tb' = delta (record tb { dut = w }) in
    (t, if is_response_error t.response then count_error tb' else tb')

unfoldable write32 : ℕ → ℕ → Step
unfolding send
write32 addr value tb = (send (transaction write_command addr (le_bytes 4 value)) tb).1

abbrev word : Payload → ℕ
word t = elim t.buffer [ none ↦ 0 | some bytes ↦ of_le (take 4 bytes) ]

unfoldable read32 : ℕ → Testbench → ℕ × Testbench
unfolding send
read32 addr tb =
    let (t, tb') = send (transaction read_command addr (le_bytes 4 0)) tb in (word t, tb')

abbrev expect_eq : ℕ → ℕ → Step
expect_eq actual expected tb = if actual == expected then tb else count_error tb

abbrev expect_signal : Bool → Bool → Step
expect_signal actual expected tb =
    if (actual && expected) || (not actual && not expected) then tb else count_error tb

-- A register is read and compared.
unfoldable expect_reg : ℕ → ℕ → Step
unfolding read32
expect_reg addr expected tb = let (value, tb') = read32 addr tb in expect_eq value expected tb'

unfoldable expect_irq : Bool → Step
expect_irq expected tb = expect_signal tb.dut.irq expected tb

unfoldable expect_reset : Bool → Step
expect_reset expected tb = expect_signal tb.dut.reset_o expected tb

unfoldable first_timeout : Step
unfolding write32 wait_ticks settle_outputs expect_reg expect_irq expect_reset
first_timeout =
    write32 wdog_load 5
    then write32 wdog_control 1
    then wait_ticks 6
    then settle_outputs
    then expect_irq true
    then expect_reset false
    then expect_reg wdog_ris 1
    then expect_reg wdog_mis 1

unfoldable interrupt_clear : Step
unfolding write32 settle_outputs expect_reg expect_irq
interrupt_clear =
    write32 wdog_intclr 0xABCD1234
    then settle_outputs
    then expect_irq false
    then expect_reg wdog_ris 0
    then expect_reg wdog_mis 0
    then expect_reg wdog_value 5

-- The value that is read when the reset is asserted is the one that is expected two ticks later.
unfoldable stopped : Step
unfolding wait_ticks settle_outputs read32 expect_reg
stopped tb =
    let (value, tb') = read32 wdog_value tb in
    (wait_ticks 2 then settle_outputs then expect_reg wdog_value value) tb'

unfoldable second_timeout : Step
unfolding write32 wait_ticks settle_outputs expect_reg expect_irq expect_reset stopped
second_timeout =
    wait_ticks 6
    then settle_outputs
    then expect_irq true
    then expect_reset false
    then expect_reg wdog_ris 1
    then expect_reg wdog_mis 1
    then write32 wdog_control 3
    then settle_outputs
    then expect_irq true
    then expect_reset false
    then expect_reg wdog_ris 1
    then expect_reg wdog_mis 1
    then wait_ticks 6
    then settle_outputs
    then expect_reset true
    then stopped

unfoldable lock : Step
unfolding write32 expect_reg
lock =
    write32 wdog_load 0x22
    then expect_reg wdog_load 0x22
    then write32 wdog_lock 0
    then expect_reg wdog_lock 1
    then write32 wdog_load 0x12345678
    then expect_reg wdog_load 0x22
    then write32 wdog_lock 0x1ACCE551
    then expect_reg wdog_lock 0
    then write32 wdog_load 0x12345678
    then expect_reg wdog_load 0x12345678

unfoldable id_registers : Step
unfolding expect_reg
id_registers =
    expect_reg 0xFE0 0x05
    then expect_reg 0xFE4 0x18
    then expect_reg 0xFE8 0x14
    then expect_reg 0xFEC 0x00
    then expect_reg 0xFF0 0x0D
    then expect_reg 0xFF4 0xF0
    then expect_reg 0xFF8 0x05
    then expect_reg 0xFFC 0xB1

pub run : Step
unfolding delta first_timeout interrupt_clear second_timeout lock id_registers
run = delta then first_timeout then interrupt_clear then second_timeout then lock then id_registers
