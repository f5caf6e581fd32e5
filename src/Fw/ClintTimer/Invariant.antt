-- ===== src/Fw/ClintTimer/Invariant.antt =====
-- Every event keeps it.
use cdc_vp.Base.{
  ℕ, suc, ◌+◌, ◌≡◌, refl, ap, subst, sym, ◌∙◌, Bool, true, false, not, ◌&&◌, List, [], ◌∷◌, ltb,
  Bool-cases, inl, inr, arith,
}
use cdc_vp.Tlm.{SimTime}
use cdc_vp.Clint.{now_mtime}
use cdc_vp.Clint.Timer.{timer_proc_level}
use cdc_vp.Device.{Transport}
use cdc_vp.Stub.Words.{Accepts, fed}
use cdc_vp.Platform.SocAccess.{uart_said}
use cdc_vp.Fw.{timer_text}
use cdc_vp.Fw.SocIrq.Log.{Log, Log-timer}
use cdc_vp.Fw.ClintTimer.State.{left, interruptible, Timed, Behaves, performed}
use cdc_vp.Fw.ClintTimer.{
  Machine, Event, program, timer_round, trap, time_passes, trap_handler, step, run, elapsed,
}
use cdc_vp.Fw.ClintTimer.Main.{main-Behaves}
use cdc_vp.Fw.ClintTimer.Timely.{Timed-later, Timed-round, Timed-taken}

later :
    (t : SimTime) (e : Event) (es : List Event)
    → t + elapsed (e ∷ []) + elapsed es ≡ t + elapsed (e ∷ es)
later t program es = omega arith
later t timer_round es = omega arith
later t trap es = omega arith
later t (time_passes d) es = omega arith

positive : (n : ℕ) → true ≡ ltb 0 (suc n)
positive n = ground arith

module _ {U I : Type 0} (unified : Bool) (uart : Transport U) (i2c : Transport I) (u0 : U)
    (accepts : Accepts uart 0) where
  abbrev Good : SimTime → Machine U I → Type 0
  Good = Behaves unified uart i2c u0

  handler-Behaves :
      (t : SimTime) (m : Machine U I)
      → let n = record m { trapped = true } in Good t n → Good t (trap_handler unified uart i2c n)
  unfolding trap_handler
  handler-Behaves t m h =
      let first : ltb 0 m.ticks ≡ false = ground (arith, h.masked) in
      performed unified uart i2c u0 t _ _ (record m { trapped = true }) tt
        (record m.soc { uart = fed uart 0 timer_text m.soc.uart })
        (uart_said unified uart i2c timer_text m.soc accepts)
        (record {
          no_crash = h.no_crash;
          clock = h.clock;
          defined = h.defined;
          fits = h.fits;
          hi_fits = h.hi_fits;
          log =
              subst (λ b. Log uart u0 (fed uart 0 timer_text m.soc.uart) b false (left m.main))
                (positive m.ticks) (Log-timer uart h.log first);
          once = ground (arith, first);
          masked = refl;
          enabled = h.enabled;
          closed = ap (λ b. not (interruptible m.main) && b) (sym (positive m.ticks)) ∙ h.closed;
          over = ground arith;
          timed = λ soon.
              subst (λ b. Timed m.main m.hi m.lo m.soc.clint b (now_mtime m.soc.now))
                (positive m.ticks) (h.timed soon);
        })

  program-Behaves :
      (t : SimTime) (trapped : Bool) (m : Machine U I)
      → let n = record m { trapped = trapped } in
        Good t n → Good t (step unified uart i2c program n)
  unfolding step
  program-Behaves t true m h = handler-Behaves t m h
  program-Behaves t false m h = main-Behaves unified uart i2c u0 accepts t m.main m h

  trap-Behaves :
      (t : SimTime) (m : Machine U I)
      → let n = record m { trapped = false } in
        (m.mstatus_mie && m.mtie && m.soc.clint.timer_irq) ≡ true
        → Good t n
        → Good t (record m { trapped = true })
  trap-Behaves t m taken h =
      let on : interruptible m.main ≡ true = ground (arith, taken, h.enabled) in
      let raised : m.soc.clint.timer_irq ≡ true = ground (arith, taken) in
      record {
        no_crash = h.no_crash;
        clock = h.clock;
        defined = h.defined;
        fits = h.fits;
        hi_fits = h.hi_fits;
        log = h.log;
        once = h.once;
        masked = ground (arith, h.masked, taken);
        enabled = h.enabled;
        closed = ap (λ b. not b && true) on;
        over = h.over;
        timed = λ soon.
            Timed-taken m.main m.hi m.lo m.soc.clint _ (now_mtime m.soc.now) on raised
              (h.timed soon);
      }

  traps-Behaves :
      (t : SimTime) (trapped : Bool) (m : Machine U I)
      → let n = record m { trapped = trapped } in Good t n → Good t (step unified uart i2c trap n)
  unfolding step
  traps-Behaves t true m h = h
  traps-Behaves t false m h = elim (Bool-cases (m.mstatus_mie && m.mtie && m.soc.clint.timer_irq)) [
    | inl taken ↦ rw taken (trap-Behaves t m taken h)
    | inr ignored ↦ rw ignored h
  ]

  step-Behaves :
      (t : SimTime) (e : Event) (m : Machine U I)
      → Good t m
      → Good (t + elapsed (e ∷ [])) (step unified uart i2c e m)
  unfolding step
  step-Behaves t program m h =
      subst (λ u. Good u (step unified uart i2c program m)) (omega arith)
        (program-Behaves t m.trapped m h)
  step-Behaves t trap m h =
      subst (λ u. Good u (step unified uart i2c trap m)) (omega arith)
        (traps-Behaves t m.trapped m h)
  step-Behaves t timer_round m h = record {
    no_crash = h.no_crash;
    clock = omega (arith, h.clock);
    defined = h.defined;
    fits = omega (arith, h.fits, (timer_proc_level m.soc.clint m.soc.now).1);
    hi_fits = h.hi_fits;
    log = h.log;
    once = h.once;
    masked = h.masked;
    enabled = h.enabled;
    closed = h.closed;
    over = h.over;
    timed = λ soon. Timed-round m.main m.hi m.lo m.soc.clint _ m.soc.now soon (h.timed soon);
  }
  step-Behaves t (time_passes d) m h = record {
    no_crash = h.no_crash;
    clock = omega (arith, h.clock);
    defined = h.defined;
    fits = h.fits;
    hi_fits = h.hi_fits;
    log = h.log;
    once = h.once;
    masked = h.masked;
    enabled = h.enabled;
    closed = h.closed;
    over = h.over;
    timed = λ soon.
        Timed-later m.main m.hi m.lo m.soc.clint _ (now_mtime m.soc.now) _ (omega arith)
          (h.timed (omega (arith, soon)));
  }

  pub run-Behaves :
      (t : SimTime) (es : List Event) (m : Machine U I)
      → Good t m
      → Good (t + elapsed es) (run unified uart i2c es m)
  unfolding run
  run-Behaves t [] m h = subst (λ u. Good u m) (omega arith) h
  run-Behaves t (e ∷ es) m h =
      subst (λ u. Good u (run unified uart i2c es (step unified uart i2c e m))) (later t e es)
        (run-Behaves (t + elapsed (e ∷ [])) es (step unified uart i2c e m) (step-Behaves t e m h))
