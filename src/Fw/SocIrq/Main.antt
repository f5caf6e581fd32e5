-- ===== src/Fw/SocIrq/Main.antt =====
-- The steps of `main` keep it.
use cdc_vp.Base.{
  ℕ, ◌+◌, ◌%◌, ◌^◌, ◌<◌, ◌≡◌, refl, ap, subst, Bool, true, false, not, ◌&&◌, none, [], ◌∷◌,
  Bool-cases, inl, inr, arith,
}
use cdc_vp.Device.{Transport}
use cdc_vp.Stub.{write32}
use cdc_vp.Stub.Words.{fed}
use cdc_vp.Platform.CustomSoc.{bus, i2c_base}
use cdc_vp.Platform.SocAccess.{
  i2c_set, AnswersI2c, uart_said, i2c_written, armed, compare_written, mtime_read,
}
use cdc_vp.Fw.SocIrq.Controllers.{Controllers-same, Controllers-armed}
use cdc_vp.Fw.SocIrq.State.{Devices, MainHolds, left, ending, Behaves, performed}
use cdc_vp.Fw.SocIrq.Log.{Log, Log-byte}
use cdc_vp.Fw.SocIrq.{
  Machine, MainPc, read_hi, read_lo, write_hi, write_lo, set_iier, set_ier, set_ictlr, waiting,
  finishing, parked, perform, main_step,
}

module _ {U I : Type 0} (unified : Bool) (uart : Transport U) (i2c : Transport I) (u0 : U)
    (d : Devices uart i2c) where
  i2c_step :
      (local : ℕ) (near : local < 0x1000) (answers : AnswersI2c i2c local) (pc pc' : MainPc)
      (m : Machine U I)
      → ending pc' ≡ false
      → MainHolds pc'
      → left pc ≡ left pc'
      → let n = record m { main = pc; handler = none } in
        Behaves unified uart i2c u0 n
        → Behaves unified uart i2c u0 (
            perform unified uart i2c
              (write32 (bus unified uart i2c) (i2c_base + local) 1)
              (λ _ m'. record m' { main = pc' })
              n)
  i2c_step local near answers pc pc' m going holds same h =
      performed unified uart i2c u0 _ _ (record m { main = pc; handler = none }) tt
        (record m.soc { i2c = i2c_set i2c local m.soc.i2c })
        (i2c_written unified uart i2c m.soc local near answers)
        (record {
          no_crash = h.no_crash;
          controllers = Controllers-same h.controllers;
          log = subst (Log uart u0 m.soc.uart m.timer_done m.ext_done) same h.log;
          handler_holds = tt;
          main_holds = holds;
          masked = h.masked;
          enabled = h.enabled;
          both = ap (λ b. b && not (m.timer_done && m.ext_done)) going;
        })

  pub main-Behaves :
      (pc : MainPc) (m : Machine U I)
      → let n = record m { main = pc; handler = none } in
        Behaves unified uart i2c u0 n
        → Behaves unified uart i2c u0 (main_step unified uart i2c pc n)
  unfolding main_step
  main-Behaves read_hi m h =
      performed unified uart i2c u0 _ _ (record m { main = read_hi; handler = none }) _ m.soc
        (mtime_read unified uart i2c m.soc true)
        (record {
          no_crash = h.no_crash;
          controllers = h.controllers;
          log = h.log;
          handler_holds = tt;
          main_holds = omega arith;
          masked = h.masked;
          enabled = h.enabled;
          both = h.both;
        })
  main-Behaves (read_lo hi) m h =
      performed unified uart i2c u0 _ _ (record m { main = read_lo hi; handler = none }) _ m.soc
        (mtime_read unified uart i2c m.soc false)
        (record {
          no_crash = h.no_crash;
          controllers = h.controllers;
          log = h.log;
          handler_holds = tt;
          main_holds = h.main_holds;
          masked = h.masked;
          enabled = h.enabled;
          both = h.both;
        })
  main-Behaves (write_hi hi lo) m h =
      performed unified uart i2c u0 _ _ (record m { main = write_hi hi lo; handler = none }) _
        (armed true hi m.soc)
        (compare_written unified uart i2c m.soc true hi h.main_holds h.controllers.compare_fits)
        (record {
          no_crash = h.no_crash;
          controllers = Controllers-armed true hi m.soc h.main_holds h.controllers;
          log = h.log;
          handler_holds = tt;
          main_holds = tt;
          masked = h.masked;
          enabled = h.enabled;
          both = h.both;
        })
  main-Behaves (write_lo hi lo) m h =
      performed unified uart i2c u0 _ _ (record m { main = write_lo hi lo; handler = none }) _
        (armed false ((lo + 100) % 2 ^ 32) m.soc)
        (compare_written unified uart i2c m.soc false ((lo + 100) % 2 ^ 32) (omega arith)
          h.controllers.compare_fits)
        (record {
          no_crash = h.no_crash;
          controllers =
              Controllers-armed false ((lo + 100) % 2 ^ 32) m.soc (omega arith) h.controllers;
          log = h.log;
          handler_holds = tt;
          main_holds = tt;
          masked = h.masked;
          enabled = h.enabled;
          both = h.both;
        })
  main-Behaves set_iier m h = i2c_step 0x4C (omega arith) d.iier set_iier set_ier m refl tt refl h
  main-Behaves set_ier m h = i2c_step 0x00 (omega arith) d.ier set_ier set_ictlr m refl tt refl h
  main-Behaves set_ictlr m h =
      i2c_step 0x04 (omega arith) d.ictlr set_ictlr waiting m refl tt refl h
  main-Behaves waiting m h = elim (Bool-cases (m.timer_done && m.ext_done)) [
    | inl finished ↦ rw finished (record {
      no_crash = h.no_crash;
      controllers = h.controllers;
      log = h.log;
      handler_holds = tt;
      main_holds = tt;
      masked = h.masked;
      enabled = h.enabled;
      both = ap not finished;
    })
    | inr busy ↦ rw busy h
  ]
  main-Behaves (finishing []) m h = record {
    no_crash = h.no_crash;
    controllers = h.controllers;
    log = h.log;
    handler_holds = tt;
    main_holds = tt;
    masked = h.masked;
    enabled = h.enabled;
    both = h.both;
  }
  main-Behaves (finishing (c ∷ text)) m h =
      performed unified uart i2c u0 _ _ (record m { main = finishing (c ∷ text); handler = none })
        tt (record m.soc { uart = fed uart 0 (c ∷ []) m.soc.uart })
        (uart_said unified uart i2c (c ∷ []) m.soc d.accepts)
        (record {
          no_crash = h.no_crash;
          controllers = Controllers-same h.controllers;
          log = Log-byte uart c h.log;
          handler_holds = tt;
          main_holds = tt;
          masked = h.masked;
          enabled = h.enabled;
          both = h.both;
        })
  main-Behaves parked m h = h
