-- ===== src/Timer.antt =====
-- components/timer_tlm: the APB timer. The thread is modelled by where it waits and by what it does
-- from there to its next wait; the input signals are arguments. `none` is a null data pointer that
-- is followed.
pub mod Period
pub mod Bus
mod Tests
use cdc_vp.Base.{
  ℕ, zero, suc, ◌+◌, ◌-◌, ◌%◌, ◌^◌, Bool, true, false, not, ◌&&◌, ◌||◌, Option, none, some, List,
  ltb, ◌==◌, if◌then◌else◌, bit, overwrite, take, le_bytes, of_le,
}
use cdc_vp.Tlm.{
  Payload, Command, read_command, write_command, ignore_command, SimTime, ok_response,
  generic_error, burst_error, address_error, is_read, respond,
}

-- The waits of the thread: in `reset`, with the counter disabled, for the external clock, and for
-- the tick period.
pub data Wait : Type 0 where
  in_reset disabled external ticking : Wait

-- What ends a wait: the two edges of `prstn`, the rising edge of `extin`, the two events, and the
-- end of the tick period.
pub data Wake : Type 0 where
  reset_released reset_asserted ext_rises update_reg intr_clear period_over : Wake

-- `Timer`. `timerint` is the output port.
pub record Timer : Type 0 where
  pub ctrl_reg : ℕ
  pub value_reg : ℕ
  pub reload_reg : ℕ
  pub intr_status : Bool
  pub intr_clear_inc : Bool
  pub timerint : Bool
  pub waits : Wait

-- `ENABLE`, `EX_EN`, `EX_CLK` and `INTR_EN` are the bits 0 to 3 of the control register.
abbrev pub enabled : Timer → Bool
enabled t = bit t.ctrl_reg 0

abbrev pub ext_enabled : Timer → Bool
ext_enabled t = bit t.ctrl_reg 1

abbrev pub ext_clocked : Timer → Bool
ext_clocked t = bit t.ctrl_reg 2

abbrev pub intr_enabled : Timer → Bool
intr_enabled t = bit t.ctrl_reg 3

-- `reset`, up to its wait.
unfoldable pub reset : Timer → Timer
reset t = record t {
  ctrl_reg = 0;
  value_reg = 0;
  reload_reg = 0;
  intr_status = false;
  timerint = false;
  waits = in_reset;
}

-- From the head of the loop of `timer_thread` to its next wait.
unfoldable pub loop_head : Timer → Bool → Timer
unfolding reset
loop_head t prstn = if not prstn then reset t else record t {
  waits = if not (enabled t) then disabled else (if ext_clocked t then external else ticking);
}

-- From behind the wait of a running counter to the end of the loop's body.
unfoldable pub count : Timer → Bool → Timer
count t extin =
    if t.intr_clear_inc
    then record t { intr_clear_inc = false; timerint = false }
    else if ext_enabled t && not extin
    then t
    else if t.value_reg == 0
    then record t {
      value_reg = t.reload_reg;
      intr_status = true;
      timerint = if intr_enabled t then true else t.timerint;
    }
    else record t { value_reg = t.value_reg - 1 }

abbrev counting : Wait → Bool
counting in_reset = false
counting disabled = false
counting external = true
counting ticking = true

-- The thread from where it waits to its next wait.
unfoldable pub resume : Timer → Bool → Bool → Timer
unfolding loop_head count
resume t prstn extin = loop_head (if counting t.waits then count t extin else t) prstn

-- The events that each wait is sensitive to.
unfoldable pub wakes : Wait → Wake → Bool
wakes in_reset reset_released = true
wakes disabled update_reg = true
wakes disabled reset_asserted = true
wakes external ext_rises = true
wakes external update_reg = true
wakes external reset_asserted = true
wakes external intr_clear = true
wakes ticking period_over = true
wakes ticking update_reg = true
wakes ticking reset_asserted = true
wakes ticking intr_clear = true
wakes _ _ = false

-- The thread gets an event and runs before anything else happens, the inputs having these levels.
unfoldable pub deliver : Timer → Wake → Bool → Bool → Timer
unfolding wakes resume
deliver t e prstn extin = if wakes t.waits e then resume t prstn extin else t

-- The constructor, and the thread up to its first wait.
unfoldable pub timer : Bool → Timer
unfolding loop_head
timer prstn =
    loop_head
      (record {
        ctrl_reg = 0;
        value_reg = 0;
        reload_reg = 0;
        intr_status = false;
        intr_clear_inc = false;
        timerint = false;
        waits = disabled;
      })
      prstn

unfoldable pub read_register : Timer → ℕ → Option ℕ
read_register t adr =
    if adr == 0x00
    then some t.ctrl_reg
    else if adr == 0x04
    then some t.value_reg
    else if adr == 0x08
    then some t.reload_reg
    else if adr == 0x0C
    then some (if t.intr_status then 1 else 0)
    else none

-- The state after, and the event that the write notifies at once; `none` is the default case.
unfoldable pub write_register : Timer → ℕ → ℕ → Option (Timer × Option Wake)
write_register t adr value =
    if adr == 0x00
    then some (record t { ctrl_reg = value % 16 }, some update_reg)
    else if adr == 0x04
    then some (record t { value_reg = value }, some update_reg)
    else if adr == 0x08
    then some (record t { reload_reg = value; value_reg = value }, some update_reg)
    else if adr == 0x0C
    then some (
        if bit value 0
        then (record t { intr_status = false; intr_clear_inc = true }, some intr_clear)
        else (t, none))
    else none

unfoldable pub read_access : Timer → Payload → Option (Timer × Payload × Option Wake)
unfolding read_register
read_access t trans = elim (read_register t trans.address) [
  | none ↦ some (t, respond trans address_error, none)
  | some value ↦ elim trans.buffer [
    | none ↦ none
    | some bytes ↦ some (
      t,
      record trans { buffer = some (overwrite bytes 0 (le_bytes 4 value)); response = ok_response },
      none,
    )
  ]
]

unfoldable pub write_access : Timer → Payload → Option (Timer × Payload × Option Wake)
write_access t trans = elim trans.buffer [
  | none ↦ none
  | some bytes ↦ elim (write_register t trans.address (of_le (take 4 bytes))) [
    | none ↦ some (t, respond trans address_error, none)
    | some (t', e) ↦ some (t', respond trans ok_response, e)
  ]
]

-- The delay is not changed.
unfoldable pub b_transport : Timer → Payload → Option (Timer × Payload × Option Wake)
unfolding read_access write_access
b_transport t trans =
    if not (trans.data_length == 4)
    then some (t, respond trans generic_error, none)
    else if trans.byte_enables || ltb trans.streaming_width trans.data_length
    then some (t, respond trans burst_error, none)
    else if is_read trans.command
    then read_access t trans
    else write_access t trans

-- The module with its thread: `runnable` says that an event has ended the wait, and that the kernel has yet
-- to run the thread. Until then no other event reaches it.
pub record Process : Type 0 where
  pub timer : Timer
  pub runnable : Bool

-- An event is notified.
unfoldable pub notify : Process → Wake → Process
unfolding wakes
notify p e = if not p.runnable && wakes p.timer.waits e then record p { runnable = true } else p

-- The kernel runs the thread, if it is runnable, the inputs having these levels.
unfoldable pub dispatch : Process → Bool → Bool → Process
unfolding resume
dispatch p prstn extin =
    if p.runnable then record { timer = resume p.timer prstn extin; runnable = false } else p

-- A transaction, with its notification. The thread does not run in it.
unfoldable pub bus_access : Process → Payload → Option (Process × Payload)
unfolding b_transport notify
bus_access p trans = elim (b_transport p.timer trans) [
  | none ↦ none
  | some (t', trans', notified) ↦
      let p' = record p { timer = t' } in
      some (elim notified [ none ↦ p' | some e ↦ notify p' e ], trans')
]
