-- ===== src/Timer/Tests.antt =====
-- The timer at concrete values.
use cdc_vp.Base.{
  ℕ, ◌+◌, ◌*◌, ◌≡◌, ◌||◌, ◌&&◌, refl, true, false, none, some, List, [], ◌∷◌, leb, arith, le_bytes,
}
use cdc_vp.Tlm.{ok_response, address_error, respond}
use cdc_vp.Fixtures.{write_word, read_word}
use cdc_vp.Timer.{
  Timer, ticking, disabled, in_reset, period_over, reset_asserted, reset_released, intr_enabled,
  reset, loop_head, count, resume, deliver, notify, dispatch, timer, read_register, write_register,
  read_access, b_transport, bus_access,
}
use cdc_vp.Timer.Period.{IsTicking, ticks, interrupt_deadline, ticks_period}
use cdc_vp.Timer.Bus.{
  WritesWord, access_and_run, start, run_thread, clear_while_ticking, clear_while_disabled,
  reload_loses_count, deliver-reset, Event, bus, wake, run, step, IsConsistent,
  run-timer-IsConsistent,
}

-- Enabled with its interrupt, at 3.
abbrev at_three : Timer
at_three = record {
  ctrl_reg = 9;
  value_reg = 3;
  reload_reg = 4;
  intr_status = false;
  intr_clear_inc = false;
  timerint = false;
  waits = ticking;
}

at_three-IsTicking : IsTicking at_three
at_three-IsTicking = record {
  is_enabled = refl;
  no_gate = refl;
  own_clock = refl;
  no_clear = refl;
  waiting = refl;
}

-- Disabled, with its interrupt raised.
abbrev stopped : Timer
stopped = record at_three { ctrl_reg = 8; intr_status = true; timerint = true; waits = disabled }

write_word-WritesWord : (adr value : ℕ) → WritesWord (write_word adr value) adr (le_bytes 4 value)
write_word-WritesWord adr value = record {
  is_write = refl;
  at = refl;
  word = refl;
  whole = omega arith;
  plain = refl;
  data_ptr = refl;
}

interrupt_deadline_example :
    let u = ticks 6 false at_three in
    let expired = leb (at_three.value_reg + 1) 6 in
    (u.intr_status ≡ at_three.intr_status || expired)
    × (u.timerint ≡ at_three.timerint || (intr_enabled at_three && expired))
interrupt_deadline_example = interrupt_deadline 6 at_three false at_three-IsTicking

ticks_period_example : ticks (3 + 1 + 2 * (4 + 1)) false at_three ≡ ticks (3 + 1) false at_three
ticks_period_example = ticks_period 2 at_three false at_three-IsTicking

clear_while_ticking_example :
    access_and_run at_three (write_word 0x0C 1) true false
    ≡ some (
      record at_three { intr_status = false; timerint = false },
      respond (write_word 0x0C 1) ok_response,
    )
clear_while_ticking_example =
    clear_while_ticking at_three (write_word 0x0C 1) (le_bytes 4 1) false at_three-IsTicking
      (write_word-WritesWord 0x0C 1) refl

clear_while_disabled_example :
    access_and_run stopped (write_word 0x0C 1) true false
    ≡ some (
      record stopped { intr_status = false; intr_clear_inc = true },
      respond (write_word 0x0C 1) ok_response,
    )
clear_while_disabled_example =
    clear_while_disabled stopped (write_word 0x0C 1) (le_bytes 4 1) true false refl
      (write_word-WritesWord 0x0C 1) refl

reload_loses_count_example :
    access_and_run at_three (write_word 0x08 5) true false
    ≡ some
        (record at_three { reload_reg = 5; value_reg = 4 }, respond (write_word 0x08 5) ok_response)
reload_loses_count_example =
    reload_loses_count at_three (write_word 0x08 5) (le_bytes 4 5) false at_three-IsTicking
      (write_word-WritesWord 0x08 5) (omega arith)

deliver-reset_example :
    let u = deliver at_three reset_asserted false false in
    (u.ctrl_reg ≡ 0)
    × (u.value_reg ≡ 0)
    × (u.reload_reg ≡ 0)
    × (u.intr_status ≡ false)
    × (u.timerint ≡ false)
    × (u.waits ≡ in_reset)
deliver-reset_example = deliver-reset at_three false (λ e. ground arith)

-- Reload 1 and enable the interrupt, with no wait between the two; two ticks, a write to the control
-- register that the thread has not seen, and one more that comes before it runs.
abbrev raise_interrupt : List Event
raise_interrupt =
    bus (write_word 0x08 1)
    ∷ bus (write_word 0x00 9)
    ∷ run_thread true false
    ∷ wake period_over
    ∷ run_thread true false
    ∷ wake period_over
    ∷ run_thread true false
    ∷ bus (write_word 0x00 8)
    ∷ bus (write_word 0x00 9)
    ∷ []

abbrev raised : Timer
raised = record {
  ctrl_reg = 9;
  value_reg = 1;
  reload_reg = 1;
  intr_status = true;
  intr_clear_inc = false;
  timerint = true;
  waits = ticking;
}

raised_process :
    run (start true) raise_interrupt ≡ some (record { timer = raised; runnable = true })
unfolding run step bus_access notify dispatch timer write_register
raised_process = refl

run-timer-IsConsistent_example : IsConsistent (record { timer = raised; runnable = true })
run-timer-IsConsistent_example =
    run-timer-IsConsistent true raise_interrupt (record { timer = raised; runnable = true })
      raised_process

read_value :
    b_transport at_three (read_word 0x04)
    ≡ some (
      at_three,
      record (read_word 0x04) { buffer = some (3 ∷ 0 ∷ 0 ∷ 0 ∷ []); response = ok_response },
      none,
    )
unfolding b_transport read_access read_register
read_value = refl

read_unmapped :
    b_transport at_three (read_word 0x10)
    ≡ some (at_three, respond (read_word 0x10) address_error, none)
unfolding b_transport read_access read_register
read_unmapped = refl

released :
    deliver (reset at_three) reset_released true false
    ≡ record (reset at_three) { waits = disabled }
unfolding deliver resume loop_head count reset
released = refl
