-- ===== src/Fw/SocIrq/Arm.antt =====
-- The arming of the timer.
use cdc_vp.Base.{
  ◌+◌, ◌*◌, ◌/◌, ◌%◌, ◌^◌, ◌<◌, ◌≡◌, refl, ap, ◌∙◌, Bool, true, false, none, some, [], ◌∷◌, arith,
}
use cdc_vp.Tlm.{SimTime}
use cdc_vp.Clint.{now_mtime}
use cdc_vp.Clint.Registers.{with_half}
use cdc_vp.Plic.{plic_tlm}
use cdc_vp.Plic.Single.{single}
use cdc_vp.Device.{Transport}
use cdc_vp.Stub.Words.{fed}
use cdc_vp.Platform.CustomSoc.{CustomSoc}
use cdc_vp.Platform.SocAccess
use cdc_vp.Platform.SocAccess.{compare_written, mtime_read}
use cdc_vp.Fw.{hello}
use cdc_vp.Fw.SocIrq.State.{Devices, perform-ok}
use cdc_vp.Fw.SocIrq.Boot.{set_up_lem}
use cdc_vp.Fw.SocIrq.{
  Machine, program, time_passes, read_hi, read_lo, write_hi, write_lo, set_iier, boot, main_step,
  program_step, step, run,
}

module _ {U I : Type 0} (unified : Bool) (uart : Transport U) (i2c : Transport I)
    (d : Devices uart i2c) where
  abbrev booted : CustomSoc U I → Machine U I
  booted w = record {
    soc = record w {
      uart = fed uart 0 hello w.uart;
      plic = single 0 false 1 2 0 false false false;
    };
    timer_done = false;
    ext_done = false;
    mtie = true;
    meie = true;
    mstatus_mie = true;
    main = read_hi;
    handler = none;
    crashed = false;
  }

  boot_lem : (w : CustomSoc U I) → w.plic ≡ plic_tlm 1 → boot unified uart i2c w ≡ booted w
  unfolding boot
  boot_lem w reset = rw (set_up_lem unified uart i2c d w reset) refl

  -- On the bus of `demonstration_safe`, from the reset state of the interrupt controller: with no trap,
  -- and any time between the two reads of `mtime`, the program has sent the greeting, has given source 1
  -- the priority 1 and enabled it over the threshold 0, and has stored in the compare register the upper
  -- word of the first `mtime` and the lower word of the second plus 100, which wraps at 32 bits; it has
  -- left the rest of the system.
  pub timer_armed :
      (t : SimTime) (w : CustomSoc U I)
      → w.plic ≡ plic_tlm 1
      → w.clint.mtimecmp < 2 ^ 64
      → let hi = now_mtime w.now / 2 ^ 32 % 2 ^ 32 in
        let lo = now_mtime (w.now + t) % 2 ^ 32 in
        run unified uart i2c
          (program ∷ time_passes t ∷ program ∷ program ∷ program ∷ [])
          (boot unified uart i2c w)
        ≡ record {
          soc = record w {
            uart = fed uart 0 hello w.uart;
            plic = single 0 false 1 2 0 false false false;
            now = w.now + t;
            clint = record w.clint {
              mtimecmp = hi * 2 ^ 32 + (lo + 100) % 2 ^ 32;
              notified = some 0;
            };
          };
          timer_done = false;
          ext_done = false;
          mtie = true;
          meie = true;
          mstatus_mie = true;
          main = set_iier;
          handler = none;
          crashed = false;
        }
  unfolding run step program_step main_step
  timer_armed t w reset fits =
      let hi = now_mtime w.now / 2 ^ 32 % 2 ^ 32 in
      let lo = now_mtime (w.now + t) % 2 ^ 32 in
      let m0 = booted w in
      let m1 = record m0 { main = read_lo hi } in
      let m2 = record m1 { soc = record m1.soc { now = w.now + t } } in
      let m3 = record m2 { main = write_hi hi lo } in
      let m4 = record m3 { soc = SocAccess.armed true hi m3.soc; main = write_lo hi lo } in
      let next = run unified uart i2c in
      let halves : with_half false ((lo + 100) % 2 ^ 32) (with_half true hi w.clint.mtimecmp)
          ≡ hi * 2 ^ 32 + (lo + 100) % 2 ^ 32 =
        omega (arith, fits) in
      ap (next (program ∷ time_passes t ∷ program ∷ program ∷ program ∷ [])) (boot_lem w reset)
      ∙ ap (next (time_passes t ∷ program ∷ program ∷ program ∷ []))
          (perform-ok unified uart i2c w.uart _ _ m0 _ _ (mtime_read unified uart i2c m0.soc true))
      ∙ ap (next (program ∷ program ∷ []))
          (perform-ok unified uart i2c w.uart _ _ m2 _ _ (mtime_read unified uart i2c m2.soc false))
      ∙ ap (next (program ∷ [])) (
          perform-ok unified uart i2c w.uart _ _ m3 _ _
            (compare_written unified uart i2c m3.soc true hi (omega arith) fits))
      ∙ perform-ok unified uart i2c w.uart _ _ m4 _ _ (
          compare_written unified uart i2c m4.soc false ((lo + 100) % 2 ^ 32) (omega arith)
            (omega (arith, fits)))
      ∙ ap
          (λ v. record m4 {
            soc = record m4.soc { clint = record m4.soc.clint { mtimecmp = v } };
            main = set_iier;
          })
          halves
