-- ===== src/Watchdog/Bench/Passes.antt =====
-- The watchdog passes the tests of components/wdt_tlm/test.cpp.
use cdc_vp.Base.{ℕ, ◌≡◌, refl, ap, ◌∙◌, Bool, true, false}
use cdc_vp.Watchdog
use cdc_vp.Watchdog.{
  Watchdog, update_outputs, drive_outputs, tick, read_reg, register_value, write_reg,
}
use cdc_vp.Watchdog.Bench.{Testbench, run}

-- What the tests suppose of the watchdog: it is unlocked and disabled, and neither an interrupt nor a
-- reset is pending.
pub record IsIdle (w : Watchdog) : Type 0 where
  pub disabled : w.control ≡ 0
  pub no_interrupt : w.ris ≡ 0
  pub unlocked : w.locked ≡ false
  pub no_reset : w.reset_asserted ≡ false

abbrev idle : Watchdog → Watchdog
idle w = record w { control = 0; ris = 0; locked = false; reset_asserted = false }

run-idle :
    (w : Watchdog) (delivery : Bool) (e : ℕ)
    → (run (record { dut = record (idle w) { notified = delivery }; errors = e })).errors ≡ e
unfolding run update_outputs drive_outputs tick read_reg register_value write_reg
    Watchdog.b_transport
run-idle w true e = refl
run-idle w false e = refl

-- The whole run of the test bench finds no error, from any state of the watchdog in which it is
-- unlocked and disabled and neither an interrupt nor a reset is pending: the first timeout raises the
-- interrupt and no reset, a write to the clear register takes it down and reloads the counter, the
-- second timeout raises the reset if RESEN is set and then the counter stands, a locked watchdog ignores a
-- write to the load register, and the identification registers hold the values that the test bench expects.
pub run-errors : (tb : Testbench) → IsIdle tb.dut → (run tb).errors ≡ tb.errors
run-errors tb h =
    ap (λ w. (run (record tb { dut = w })).errors) (same tb.dut h)
    ∙ run-idle tb.dut tb.dut.notified tb.errors
  where
    same : (w : Watchdog) → IsIdle w → w ≡ record (idle w) { notified = w.notified }
    same w h i = record w {
      control = h.disabled i;
      ris = h.no_interrupt i;
      locked = h.unlocked i;
      reset_asserted = h.no_reset i;
    }
