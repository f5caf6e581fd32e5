-- ===== src/Fw/ClintTimer/Main.antt =====
-- The steps of `main` keep it.
use cdc_vp.Base.{
  ◌+◌, ◌%◌, ◌^◌, refl, ap, Bool, true, false, not, [], ◌∷◌, ltb, Bool-cases, inl, inr, arith,
}
use cdc_vp.Tlm.{SimTime}
use cdc_vp.Device.{Transport}
use cdc_vp.Stub.Words.{Accepts, fed}
use cdc_vp.Platform.SocAccess
use cdc_vp.Platform.SocAccess.{uart_said, compare_written, mtime_read}
use cdc_vp.Fw.SocIrq.Log.{Log-byte}
use cdc_vp.Fw.ClintTimer.{
  Machine, MainPc, read_hi, read_lo, write_hi, write_lo, set_mie, set_mstatus, waiting, finishing,
  parked, main_step,
}
use cdc_vp.Fw.ClintTimer.State.{Behaves, performed}

module _ {U I : Type 0} (unified : Bool) (uart : Transport U) (i2c : Transport I) (u0 : U)
    (accepts : Accepts uart 0) (t : SimTime) where
  abbrev Good : Machine U I → Type 0
  Good = Behaves unified uart i2c u0 t

  pub main-Behaves :
      (pc : MainPc) (m : Machine U I)
      → let n = record m { main = pc; trapped = false } in
        Good n → Good (main_step unified uart i2c pc n)
  unfolding main_step
  main-Behaves read_hi m h =
      performed unified uart i2c u0 t _ _ (record m { main = read_hi; trapped = false }) _ m.soc
        (mtime_read unified uart i2c m.soc true)
        (record {
          no_crash = h.no_crash;
          clock = h.clock;
          defined = h.defined;
          fits = h.fits;
          hi_fits = omega arith;
          log = h.log;
          once = h.once;
          masked = h.masked;
          enabled = h.enabled;
          closed = h.closed;
          over = h.over;
          timed = λ soon. ((h.timed soon).0, (h.timed soon).1, omega (arith, soon));
        })
  main-Behaves read_lo m h =
      performed unified uart i2c u0 t _ _ (record m { main = read_lo; trapped = false }) _ m.soc
        (mtime_read unified uart i2c m.soc false)
        (record {
          no_crash = h.no_crash;
          clock = h.clock;
          defined = h.defined;
          fits = h.fits;
          hi_fits = h.hi_fits;
          log = h.log;
          once = h.once;
          masked = h.masked;
          enabled = h.enabled;
          closed = h.closed;
          over = h.over;
          timed = λ soon.
              let (quiet, all, zero) = h.timed soon in (quiet, all, zero, omega (arith, soon));
        })
  main-Behaves write_hi m h =
      performed unified uart i2c u0 t _ _ (record m { main = write_hi; trapped = false }) _
        (SocAccess.armed true m.hi m.soc)
        (compare_written unified uart i2c m.soc true m.hi h.hi_fits h.fits)
        (record {
          no_crash = h.no_crash;
          clock = h.clock;
          defined = h.defined;
          fits = omega (arith, h.fits, h.hi_fits);
          hi_fits = h.hi_fits;
          log = h.log;
          once = h.once;
          masked = h.masked;
          enabled = h.enabled;
          closed = h.closed;
          over = h.over;
          timed = λ soon.
              let (quiet, all, zero, past) = h.timed soon in
              (quiet, omega (arith, all, zero), past);
        })
  main-Behaves write_lo m h =
      performed unified uart i2c u0 t _ _ (record m { main = write_lo; trapped = false }) _
        (SocAccess.armed false ((m.lo + 100) % 2 ^ 32) m.soc)
        (compare_written unified uart i2c m.soc false ((m.lo + 100) % 2 ^ 32) (omega arith) h.fits)
        (record {
          no_crash = h.no_crash;
          clock = h.clock;
          defined = h.defined;
          fits = omega (arith, h.fits);
          hi_fits = h.hi_fits;
          log = h.log;
          once = h.once;
          masked = h.masked;
          enabled = h.enabled;
          closed = h.closed;
          over = h.over;
          timed = λ soon.
              let (quiet, ones, past) = h.timed soon in
              (omega (arith, ones, past, soon), λ e. ground (arith, e, quiet, h.closed));
        })
  main-Behaves set_mie m h = record {
    no_crash = h.no_crash;
    clock = h.clock;
    defined = h.defined;
    fits = h.fits;
    hi_fits = h.hi_fits;
    log = h.log;
    once = h.once;
    masked = h.closed;
    enabled = h.enabled;
    closed = h.closed;
    over = h.over;
    timed = h.timed;
  }
  main-Behaves set_mstatus m h = record {
    no_crash = h.no_crash;
    clock = h.clock;
    defined = h.defined;
    fits = h.fits;
    hi_fits = h.hi_fits;
    log = h.log;
    once = h.once;
    masked = h.masked;
    enabled = refl;
    closed = refl;
    over = h.over;
    timed = h.timed;
  }
  main-Behaves waiting m h = elim (Bool-cases (ltb 0 m.ticks)) [
    | inl ticked ↦ rw ticked (record {
      no_crash = h.no_crash;
      clock = h.clock;
      defined = h.defined;
      fits = h.fits;
      hi_fits = h.hi_fits;
      log = h.log;
      once = h.once;
      masked = h.masked;
      enabled = h.enabled;
      closed = refl;
      over = ap not ticked;
      timed = h.timed;
    })
    | inr waits ↦ rw waits h
  ]
  main-Behaves (finishing []) m h = record {
    no_crash = h.no_crash;
    clock = h.clock;
    defined = h.defined;
    fits = h.fits;
    hi_fits = h.hi_fits;
    log = h.log;
    once = h.once;
    masked = h.masked;
    enabled = h.enabled;
    closed = refl;
    over = h.over;
    timed = h.timed;
  }
  main-Behaves (finishing (c ∷ text)) m h =
      performed unified uart i2c u0 t _ _
        (record m { main = finishing (c ∷ text); trapped = false }) tt
        (record m.soc { uart = fed uart 0 (c ∷ []) m.soc.uart })
        (uart_said unified uart i2c (c ∷ []) m.soc accepts)
        (record {
          no_crash = h.no_crash;
          clock = h.clock;
          defined = h.defined;
          fits = h.fits;
          hi_fits = h.hi_fits;
          log = Log-byte uart c h.log;
          once = h.once;
          masked = h.masked;
          enabled = h.enabled;
          closed = refl;
          over = h.over;
          timed = h.timed;
        })
  main-Behaves parked m h = h
