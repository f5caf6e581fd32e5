-- ===== src/Fw/SocIrq/Invariant.antt =====
-- Every event keeps it.
use cdc_vp.Base.{ℕ, Bool, ◌&&◌, Option, none, some, List, [], ◌∷◌, Bool-cases, inl, inr, arith}
use cdc_vp.Clint.Timer.{timer_proc_level}
use cdc_vp.Device.{Transport}
use cdc_vp.Platform.CustomSoc.{i2c_irq}
use cdc_vp.Fw.SocIrq.Controllers.{serving, Controllers-line}
use cdc_vp.Fw.SocIrq.State.{Devices, Behaves}
use cdc_vp.Fw.SocIrq.Main.{main-Behaves}
use cdc_vp.Fw.SocIrq.Handler.{handler-Behaves}
use cdc_vp.Fw.SocIrq.{
  Machine, Event, program, timer_round, trap, line, time_passes, HandlerPc, pending, take_trap,
  program_step, step, run,
}

module _ {U I : Type 0} (unified : Bool) (uart : Transport U) (i2c : Transport I) (u0 : U)
    (d : Devices uart i2c) where
  program-Behaves :
      (h : Option HandlerPc) (m : Machine U I)
      → let n = record m { handler = h } in
        Behaves unified uart i2c u0 n
        → Behaves unified uart i2c u0 (program_step unified uart i2c n)
  unfolding program_step
  program-Behaves none m h = main-Behaves unified uart i2c u0 d m.main m h
  program-Behaves (some pc) m h = handler-Behaves unified uart i2c u0 d pc m h

  trap-Behaves :
      (code : ℕ) (h : Option HandlerPc) (m : Machine U I)
      → let n = record m { handler = h } in
        Behaves unified uart i2c u0 n → Behaves unified uart i2c u0 (take_trap code n)
  unfolding take_trap
  trap-Behaves code (some pc) m h = h
  trap-Behaves code none m h = elim (Bool-cases (m.mstatus_mie && pending code m)) [
    | inl taken ↦ rw taken (record {
      no_crash = h.no_crash;
      controllers = record {
        line = h.controllers.line;
        plic = h.controllers.plic;
        compare_fits = h.controllers.compare_fits;
        defined = h.controllers.defined;
      };
      log = h.log;
      handler_holds = λ is_timer. ground (arith, taken, is_timer, h.masked);
      main_holds = h.main_holds;
      masked = h.masked;
      enabled = h.enabled;
      both = h.both;
    })
    | inr ignored ↦ rw ignored h
  ]

  pub step-Behaves :
      (e : Event) (m : Machine U I)
      → Behaves unified uart i2c u0 m
      → Behaves unified uart i2c u0 (step unified uart i2c e m)
  unfolding step i2c_irq
  step-Behaves program m h = program-Behaves m.handler m h
  step-Behaves (trap code) m h = trap-Behaves code m.handler m h
  step-Behaves (line level) m h = record {
    no_crash = h.no_crash;
    controllers = Controllers-line (serving m.handler) level m.soc h.controllers;
    log = h.log;
    handler_holds = h.handler_holds;
    main_holds = h.main_holds;
    masked = h.masked;
    enabled = h.enabled;
    both = h.both;
  }
  step-Behaves timer_round m h = record {
    no_crash = h.no_crash;
    controllers = record {
      line = h.controllers.line;
      plic = h.controllers.plic;
      compare_fits =
          omega (arith, h.controllers.compare_fits, (timer_proc_level m.soc.clint m.soc.now).1);
      defined = h.controllers.defined;
    };
    log = h.log;
    handler_holds = h.handler_holds;
    main_holds = h.main_holds;
    masked = h.masked;
    enabled = h.enabled;
    both = h.both;
  }
  step-Behaves (time_passes d) m h = record {
    no_crash = h.no_crash;
    controllers = record {
      line = h.controllers.line;
      plic = h.controllers.plic;
      compare_fits = h.controllers.compare_fits;
      defined = h.controllers.defined;
    };
    log = h.log;
    handler_holds = h.handler_holds;
    main_holds = h.main_holds;
    masked = h.masked;
    enabled = h.enabled;
    both = h.both;
  }

  pub run-Behaves :
      (es : List Event) (m : Machine U I)
      → Behaves unified uart i2c u0 m
      → Behaves unified uart i2c u0 (run unified uart i2c es m)
  unfolding run
  run-Behaves [] m h = h
  run-Behaves (e ∷ es) m h = run-Behaves es (step unified uart i2c e m) (step-Behaves e m h)
