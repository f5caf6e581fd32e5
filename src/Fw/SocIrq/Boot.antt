-- ===== src/Fw/SocIrq/Boot.antt =====
-- `main` up to the enabling of the interrupts, and the demonstration from there on.
use cdc_vp.Base.{◌+◌, ◌^◌, ◌<◌, ◌≡◌, refl, ◌∙◌, Bool, false, List, [], arith}
use cdc_vp.Plic.{plic_tlm}
use cdc_vp.Plic.Single.{single, plic_tlm-single, priority_of_source, enable_word, threshold_word}
use cdc_vp.Device.{Transport}
use cdc_vp.Stub.{ok, ◌>>◌, write32}
use cdc_vp.Stub.Words.{fed, fed-append, >>-ok}
use cdc_vp.Platform.CustomSoc.{CustomSoc, bus, plic_base}
use cdc_vp.Platform.SocAccess.{uart_said, plic_configured}
use cdc_vp.Fw.{hello, uart_puts}
use cdc_vp.Fw.SocIrq.State.{Devices, Behaves}
use cdc_vp.Fw.SocIrq.Invariant.{run-Behaves}
use cdc_vp.Fw.SocIrq.{Event, set_up, boot, run}

module _ {U I : Type 0} (unified : Bool) (uart : Transport U) (i2c : Transport I)
    (d : Devices uart i2c) where
  pub set_up_lem :
      (w : CustomSoc U I)
      → w.plic ≡ plic_tlm 1
      → set_up unified uart i2c w ≡ (
        ok tt,
        record w { uart = fed uart 0 hello w.uart; plic = single 0 false 1 2 0 false false false },
      )
  unfolding set_up
  set_up_lem w reset =
      let w1 = record w { uart = fed uart 0 hello w.uart } in
      let w2 = record w1 { plic = single 0 false 1 0 0 false false false } in
      let w3 = record w1 { plic = single 0 false 1 2 0 false false false } in
      let b = bus unified uart i2c in
      >>-ok (uart_puts unified uart i2c hello)
        (write32 b (plic_base + 0x000004) 1
          >> (write32 b (plic_base + 0x002000) 2 >> write32 b (plic_base + 0x200000) 0))
        w w1 (uart_said unified uart i2c hello w d.accepts)
      ∙ >>-ok (write32 b (plic_base + 0x000004) 1)
          (write32 b (plic_base + 0x002000) 2 >> write32 b (plic_base + 0x200000) 0) w1 w2
          (plic_configured unified uart i2c priority_of_source w1 0 0 0 1 (omega arith)
            (reset ∙ plic_tlm-single))
      ∙ >>-ok (write32 b (plic_base + 0x002000) 2) (write32 b (plic_base + 0x200000) 0) w2 w3
          (plic_configured unified uart i2c enable_word w2 1 0 0 2 (omega arith) refl)
      ∙ plic_configured unified uart i2c threshold_word w3 1 2 0 0 (omega arith) refl

  pub boot-Behaves :
      (w : CustomSoc U I)
      → w.plic ≡ plic_tlm 1
      → w.clint.mtimecmp < 2 ^ 64
      → w.faulted ≡ false
      → Behaves unified uart i2c w.uart (boot unified uart i2c w)
  unfolding boot
  boot-Behaves w reset fits defined = rw (set_up_lem w reset) (record {
    no_crash = refl;
    controllers = record { line = false; plic = refl; compare_fits = fits; defined = defined };
    log = record {
      said = [];
      output = fed-append uart 0 hello [] w.uart;
      timer_once = refl;
      ext_some = refl;
      last = refl;
    };
    handler_holds = tt;
    main_holds = tt;
    masked = refl;
    enabled = refl;
    both = refl;
  })

  -- The demonstration, on a bus where the UART and the I2C controller answer the writes of the program
  -- by OK, from the reset state of the interrupt controller and with a compare register of 64 bits:
  -- after every sequence of steps of the program, traps, levels of the I2C line, rounds of the CLINT
  -- and passing of time, no access has failed or was undefined; the interrupt controller has source 1
  -- in service exactly from its claim to its completion and raises the external interrupt exactly while
  -- the line is high and it is not; the UART has got the greeting, the text of the timer once or not at
  -- all, by its flag, the other text if and only if its flag is set, and of the last text exactly what
  -- `main` has sent, in order; the timer interrupt is masked exactly when it was handled; and the wait
  -- has ended only with both flags set.
  pub demonstration_safe :
      (es : List Event) (w : CustomSoc U I)
      → w.plic ≡ plic_tlm 1
      → w.clint.mtimecmp < 2 ^ 64
      → w.faulted ≡ false
      → Behaves unified uart i2c w.uart (run unified uart i2c es (boot unified uart i2c w))
  demonstration_safe es w reset fits defined =
      run-Behaves unified uart i2c w.uart d es (boot unified uart i2c w)
        (boot-Behaves w reset fits defined)
