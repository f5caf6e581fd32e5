-- ===== src/Watchdog.antt =====
-- components/wdt_tlm: the watchdog. The processes are step functions: `tick` is a round of
-- `counter_thread`, `drive_outputs` the method that a notification of `m_output_changed` runs.
pub mod Outputs
pub mod Locking
pub mod Timeout
pub mod Bounds
pub mod Bench
mod Tests
use cdc_vp.Base.{
  ℕ, ◌-◌, ◌%◌, ◌^◌, Bool, true, false, not, ◌&&◌, ◌||◌, Option, none, some, List, ltb, ◌==◌,
  if◌then◌else◌, bit, overwrite, take, le_bytes, of_le,
}
use cdc_vp.Tlm.{
  Payload, Command, read_command, write_command, ignore_command, SimTime, ok_response,
  byte_enable_error, burst_error, generic_error, command_error, respond,
}

-- `watchdog`, the members without their `m_`. `irq` and `reset_o` are the output ports, and
-- `notified` says that `m_output_changed` is notified and not yet delivered.
pub record Watchdog : Type 0 where
  pub load : ℕ
  pub counter : ℕ
  pub control : ℕ
  pub ris : ℕ
  pub mis : ℕ
  pub locked : Bool
  pub reset_asserted : Bool
  pub irq_level : Bool
  pub reset_level : Bool
  pub notified : Bool
  pub irq : Bool
  pub reset_o : Bool

-- The constructor. `drive_outputs` has no `dont_initialize`, so it is due at the start.
pub watchdog : Watchdog
watchdog = record {
  load = 0xFFFFFFFF;
  counter = 0xFFFFFFFF;
  control = 0;
  ris = 0;
  mis = 0;
  locked = false;
  reset_asserted = false;
  irq_level = false;
  reset_level = false;
  notified = true;
  irq = false;
  reset_o = false;
}

-- `CTRL_INTEN` is bit 0 and `CTRL_RESEN` bit 1.
abbrev pub interrupt_enabled : Watchdog → Bool
interrupt_enabled w = bit w.control 0

abbrev pub reset_enabled : Watchdog → Bool
reset_enabled w = bit w.control 1

-- `(m_ris & RIS_ASSERTED) != 0`
abbrev pub ris_asserted : Watchdog → Bool
ris_asserted w = bit w.ris 0

abbrev pub reload_counter : Watchdog → Watchdog
reload_counter w = record w { counter = w.load }

unfoldable pub update_outputs : Watchdog → Watchdog
update_outputs w =
    let level = ris_asserted w && interrupt_enabled w in
    record w {
      mis = if level then 1 else 0;
      irq_level = level;
      reset_level = w.reset_asserted;
      notified = true;
    }

abbrev pub clear_interrupt : Watchdog → Watchdog
clear_interrupt w = update_outputs (reload_counter (record w { ris = 0 }))

unfoldable pub drive_outputs : Watchdog → Watchdog
drive_outputs w =
    if w.notified
    then record w { irq = w.irq_level; reset_o = w.reset_level; notified = false }
    else w

-- The value of a register once `update_outputs` has run.
unfoldable pub register_value : Watchdog → ℕ → ℕ
register_value w addr =
    if addr == 0x000
    then w.load
    else if addr == 0x004
    then w.counter
    else if addr == 0x008
    then w.control
    else if addr == 0x00C
    then 0
    else if addr == 0x010
    then w.ris % 2
    else if addr == 0x014
    then w.mis % 2
    else if addr == 0xC00
    then (if w.locked then 1 else 0)
    else if addr == 0xFE0
    then 0x05
    else if addr == 0xFE4
    then 0x18
    else if addr == 0xFE8
    then 0x14
    else if addr == 0xFEC
    then 0x00
    else if addr == 0xFF0
    then 0x0D
    else if addr == 0xFF4
    then 0xF0
    else if addr == 0xFF8
    then 0x05
    else if addr == 0xFFC
    then 0xB1
    else 0

unfoldable pub read_reg : Watchdog → ℕ → ℕ × Watchdog
read_reg w addr = let w' = update_outputs w in (register_value w' addr, w')

-- The case of WDOG_CONTROL.
unfoldable pub write_control : Watchdog → ℕ → Watchdog
unfolding update_outputs
write_control w value =
    let w' = record w { control = value % 4 } in
    update_outputs (
      if not (interrupt_enabled w) && interrupt_enabled w' && not w'.reset_asserted
      then reload_counter w'
      else w')

-- Writes to the read-only registers and to unmapped addresses only print.
unfoldable pub write_reg : Watchdog → ℕ → ℕ → Watchdog
unfolding write_control
write_reg w addr value =
    if addr == 0xC00
    then record w { locked = not (value == 0x1ACCE551) }
    else if w.locked
    then w
    else if addr == 0x000
    then reload_counter (record w { load = value })
    else if addr == 0x008
    then write_control w value
    else if addr == 0x00C
    then clear_interrupt w
    else w

-- The switch over the command, with the data pointer checked.
unfoldable pub access : Command → Watchdog → Payload → List ℕ → ℕ → Watchdog × Payload
access read_command w trans bytes addr =
    let (value, w') = read_reg w addr in
    (
      w',
      record trans { buffer = some (overwrite bytes 0 (le_bytes 4 value)); response = ok_response },
    )
access write_command w trans bytes addr =
    (write_reg w addr (of_le (take 4 bytes)), respond trans ok_response)
access ignore_command w trans bytes addr = (w, respond trans command_error)

unfoldable pub b_transport : Watchdog → Payload → SimTime → Watchdog × Payload × SimTime
unfolding access
b_transport w trans delay =
    let (w', t') : Watchdog × Payload =
      (if trans.byte_enables
        then (w, respond trans byte_enable_error)
        else if ltb trans.data_length 4
        then (w, respond trans burst_error)
        else elim trans.buffer [
          | none ↦ (w, respond trans generic_error)
          | some bytes ↦ access trans.command w trans bytes (trans.address % 2 ^ 12)
        ]) in
    (w', t', delay)

unfoldable pub handle_timeout : Watchdog → Watchdog
unfolding update_outputs
handle_timeout w =
    if ris_asserted w
    then (if reset_enabled w
        then update_outputs (record w { reset_asserted = true })
        else reload_counter w)
    else reload_counter (update_outputs (record w { ris = 1 }))

-- A round of `counter_thread` after its wait.
unfoldable pub tick : Watchdog → Watchdog
unfolding handle_timeout
tick w =
    if not (interrupt_enabled w) || w.reset_asserted
    then w
    else if w.counter == 0
    then handle_timeout w
    else record w { counter = w.counter - 1 }
