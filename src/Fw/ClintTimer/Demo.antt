-- ===== src/Fw/ClintTimer/Demo.antt =====
-- The demonstration from its start on.
use cdc_vp.Base.{
  subst, sym, ℕ, ◌+◌, ◌^◌, ◌≤◌, ◌<◌, ◌≡◌, ◌⊎◌, inl, inr, refl, ap, Bool, true, false, ◌||◌, List,
  [], ltb, Bool-cases, arith,
}
use cdc_vp.Clint.{ClintTlm, clint_tlm, now_mtime}
use cdc_vp.Tlm.{SimTime}
use cdc_vp.Device.{Transport}
use cdc_vp.Stub.Words.{Accepts, fed, fed-append}
use cdc_vp.Platform.CustomSoc.{CustomSoc}
use cdc_vp.Platform.SocAccess.{uart_said}
use cdc_vp.Fw.{hello, uart_puts}
use cdc_vp.Fw.SocIrq.Log.{Log}
use cdc_vp.Fw.ClintTimer.State.{left, interruptible, Timed, Behaves, performed}
use cdc_vp.Fw.ClintTimer.Invariant.{run-Behaves}
use cdc_vp.Fw.ClintTimer.{
  Event, MainPc, read_hi, read_lo, write_hi, write_lo, set_mie, set_mstatus, waiting, finishing,
  parked, elapsed, main_entry, boot, run,
}

Timed-past :
    (pc : MainPc) (hi lo : ℕ) (c : ClintTlm) (taken : Bool) (t : ℕ)
    → interruptible pc ≡ true
    → taken ≡ true
    → Timed pc hi lo c taken t
    → lo + 100 ≤ t
Timed-past read_hi hi lo c taken t on h k = ground (arith, on)
Timed-past read_lo hi lo c taken t on h k = ground (arith, on)
Timed-past write_hi hi lo c taken t on h k = ground (arith, on)
Timed-past write_lo hi lo c taken t on h k = ground (arith, on)
Timed-past set_mie hi lo c taken t on h k = ground (arith, on)
Timed-past set_mstatus hi lo c taken t on h k = ground (arith, on)
Timed-past waiting hi lo c taken t on h k = k.1 (ground (arith, h))
Timed-past (finishing text) hi lo c taken t on h k = k.1 (ground (arith, h))
Timed-past parked hi lo c taken t on h k = k.1 (ground (arith, h))

module _ {U I : Type 0} (unified : Bool) (uart : Transport U) (i2c : Transport I)
    (accepts : Accepts uart 0) where
  boot-Behaves :
      (w : CustomSoc U I)
      → w.clint ≡ clint_tlm
      → w.faulted ≡ false
      → Behaves unified uart i2c w.uart w.now (boot unified uart i2c w)
  unfolding boot clint_tlm
  boot-Behaves w reset defined =
      let all : w.clint.mtimecmp ≡ 0 = ap (λ c. c.mtimecmp) reset in
      performed unified uart i2c w.uart w.now (uart_puts unified uart i2c hello) (λ _ m. m)
        (main_entry w) tt (record w { uart = fed uart 0 hello w.uart })
        (uart_said unified uart i2c hello w accepts)
        (record {
          no_crash = refl;
          clock = refl;
          defined = defined;
          fits = omega (arith, all);
          hi_fits = omega arith;
          log = record {
            said = [];
            output = fed-append uart 0 hello [] w.uart;
            timer_once = refl;
            ext_some = refl;
            last = refl;
          };
          once = omega arith;
          masked = refl;
          enabled = refl;
          closed = refl;
          over = refl;
          timed = λ soon. (ap (λ c. c.timer_irq) reset, all);
        })

  -- The demonstration, on a bus where the UART answers the writes of the program by OK, from the reset
  -- state of the CLINT and while `mtime` stays 100 below 2 ^ 32: after every sequence of steps of the
  -- program, timer interrupts, rounds of the CLINT's thread and passing of time, no access has failed or
  -- was undefined; the interrupt was not handled, or it was handled once and `mtime` is at least 100
  -- beyond the value that the program had read; the UART has got the greeting, the text of the handler exactly if
  -- it was, and of the last text exactly what `main` has sent, in order.
  pub timer_on_time :
      (es : List Event) (w : CustomSoc U I)
      → w.clint ≡ clint_tlm
      → w.faulted ≡ false
      → now_mtime (w.now + elapsed es) + 100 < 2 ^ 32
      → let m = run unified uart i2c es (boot unified uart i2c w) in
        (m.crashed ≡ false)
        × (m.soc.faulted ≡ false)
        × ((m.ticks ≡ 0) ⊎ ((m.ticks ≡ 1) × (m.lo + 100 ≤ now_mtime (w.now + elapsed es))))
        × Log uart w.uart m.soc.uart (ltb 0 m.ticks) false (left m.main)
  timer_on_time es w reset defined soon =
      let m = run unified uart i2c es (boot unified uart i2c w) in
      let h : Behaves unified uart i2c w.uart (w.now + elapsed es) m =
        run-Behaves unified uart i2c w.uart accepts w.now es (boot unified uart i2c w)
          (boot-Behaves w reset defined) in
      let soon_at : SimTime → Type 0 = λ t. now_mtime t + 100 < 2 ^ 32 in
      let closed = h.closed in
      let once = h.once in
      let handled : (m.ticks ≡ 0)
          ⊎ ((m.ticks ≡ 1) × (m.lo + 100 ≤ now_mtime (w.now + elapsed es))) =
        elim (Bool-cases (ltb 0 m.ticks)) [
          | inl ticked ↦ inr (
            ground (arith, ticked, once),
            subst (λ t. m.lo + 100 ≤ now_mtime t) h.clock
                (Timed-past m.main m.hi m.lo m.soc.clint (m.trapped || ltb 0 m.ticks)
                  (now_mtime m.soc.now) (ground (arith, closed, ticked)) (ground (arith, ticked))
                  (h.timed (subst soon_at (sym h.clock) soon))),
          )
          | inr none_yet ↦ inl (ground (arith, none_yet))
        ] in
      (h.no_crash, h.defined, handled, h.log)
