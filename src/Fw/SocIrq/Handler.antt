-- ===== src/Fw/SocIrq/Handler.antt =====
-- The steps of the trap handler keep it.
use cdc_vp.Base.{
  ℕ, ◌+◌, ◌≤◌, ◌≡◌, refl, ap, subst, Bool, true, false, some, ◌==◌, if◌then◌else◌, Bool-cases, inl,
  inr, arith,
}
use cdc_vp.Plic.Single.{single}
use cdc_vp.Device.{Transport}
use cdc_vp.Stub.{ok, write32}
use cdc_vp.Stub.Words.{fed}
use cdc_vp.Platform.CustomSoc.{CustomSoc, bus, plic_base}
use cdc_vp.Platform.SocAccess.{i2c_set, uart_said, i2c_written, plic_claimed, plic_completed}
use cdc_vp.Fw.{timer_text, ext_text}
use cdc_vp.Fw.SocIrq.Controllers.{Controllers-same, and_true}
use cdc_vp.Fw.SocIrq.State.{Devices, Behaves, performed}
use cdc_vp.Fw.SocIrq.Log.{Log-timer, Log-ext}
use cdc_vp.Fw.SocIrq.{Machine, HandlerPc, dispatch, clear_source, announce, complete, handler_step}

is_id : (id : ℕ) → id ≤ 1 → (if id == 1 then 1 else 0) ≡ id
is_id id h = ground arith

pub completed :
    {U I : Type 0} (unified : Bool) (uart : Transport U) (i2c : Transport I) (w : CustomSoc U I)
    (id : ℕ)
    → id ≤ 1
    → (line level : Bool) → w.plic ≡ single 0 false 1 2 0 line (id == 1) level
    → write32 (bus unified uart i2c) (plic_base + 0x200004) id w
      ≡ (ok tt, record w { plic = single 0 false 1 2 0 line false line })
completed unified uart i2c w id small line level p =
    subst
      (λ v.
        write32 (bus unified uart i2c) (plic_base + 0x200004) v w
        ≡ (ok tt, record w { plic = single 0 false 1 2 0 line false line }))
      (is_id id small)
      (plic_completed unified uart i2c 0 false 1 2 0 refl refl w line (id == 1) level p)

module _ {U I : Type 0} (unified : Bool) (uart : Transport U) (i2c : Transport I) (u0 : U)
    (d : Devices uart i2c) where
  claimed-Behaves :
      (line : Bool) (code : ℕ) (m : Machine U I)
      → Behaves unified uart i2c u0 (record m { handler = some (dispatch code) })
      → let id : ℕ = if line then 1 else 0 in
        Behaves unified uart i2c u0 (record m {
          soc = record m.soc { plic = single 0 false 1 2 0 line line false };
          handler = some (if id == 1 then clear_source else complete id);
        })
  claimed-Behaves true code m h = record {
    no_crash = h.no_crash;
    controllers = record {
      line = true;
      plic = refl;
      compare_fits = h.controllers.compare_fits;
      defined = h.controllers.defined;
    };
    log = h.log;
    handler_holds = tt;
    main_holds = h.main_holds;
    masked = h.masked;
    enabled = h.enabled;
    both = h.both;
  }
  claimed-Behaves false code m h = record {
    no_crash = h.no_crash;
    controllers = record {
      line = false;
      plic = refl;
      compare_fits = h.controllers.compare_fits;
      defined = h.controllers.defined;
    };
    log = h.log;
    handler_holds = omega arith;
    main_holds = h.main_holds;
    masked = h.masked;
    enabled = h.enabled;
    both = h.both;
  }

  pub handler-Behaves :
      (pc : HandlerPc) (m : Machine U I)
      → let n = record m { handler = some pc } in
        Behaves unified uart i2c u0 n
        → Behaves unified uart i2c u0 (handler_step unified uart i2c pc n)
  unfolding handler_step
  handler-Behaves (dispatch code) m h = elim (Bool-cases (code == 7)) [
    | inl timer ↦
        let first = h.handler_holds (ground (arith, timer)) in
        rw timer (
          performed unified uart i2c u0 _ _ (record m { handler = some (dispatch code) }) tt
            (record m.soc { uart = fed uart 0 timer_text m.soc.uart })
            (uart_said unified uart i2c timer_text m.soc d.accepts)
            (record {
              no_crash = h.no_crash;
              controllers = Controllers-same h.controllers;
              log = Log-timer uart h.log first;
              handler_holds = tt;
              main_holds = h.main_holds;
              masked = refl;
              enabled = h.enabled;
              both = ground (arith, h.both, first);
            }))
    | inr other ↦ elim (Bool-cases (code == 11)) [
      | inl external ↦
          rw (other, external)
            (performed unified uart i2c u0 _ _ (record m { handler = some (dispatch code) }) _ _
              (plic_claimed unified uart i2c 0 false 1 2 0 refl refl m.soc h.controllers.line _
                h.controllers.plic)
              (claimed-Behaves h.controllers.line code m h))
      | inr neither ↦
          rw (other, neither)
            (record {
              no_crash = h.no_crash;
              controllers = h.controllers;
              log = h.log;
              handler_holds = tt;
              main_holds = h.main_holds;
              masked = h.masked;
              enabled = h.enabled;
              both = h.both;
            })
    ]
  ]
  handler-Behaves clear_source m h =
      performed unified uart i2c u0 _ _ (record m { handler = some clear_source }) tt
        (record m.soc { i2c = i2c_set i2c 0x50 m.soc.i2c })
        (i2c_written unified uart i2c m.soc 0x50 (omega arith) d.iicr)
        (record {
          no_crash = h.no_crash;
          controllers = Controllers-same h.controllers;
          log = h.log;
          handler_holds = tt;
          main_holds = h.main_holds;
          masked = h.masked;
          enabled = h.enabled;
          both = h.both;
        })
  handler-Behaves announce m h =
      performed unified uart i2c u0 _ _ (record m { handler = some announce }) tt
        (record m.soc { uart = fed uart 0 ext_text m.soc.uart })
        (uart_said unified uart i2c ext_text m.soc d.accepts)
        (record {
          no_crash = h.no_crash;
          controllers = Controllers-same h.controllers;
          log = Log-ext uart h.log;
          handler_holds = omega arith;
          main_holds = h.main_holds;
          masked = h.masked;
          enabled = h.enabled;
          both = ground (arith, h.both);
        })
  handler-Behaves (complete id) m h =
      performed unified uart i2c u0 _ _ (record m { handler = some (complete id) }) tt
        (record m.soc { plic = single 0 false 1 2 0 h.controllers.line false h.controllers.line })
        (completed unified uart i2c m.soc id h.handler_holds _ _ h.controllers.plic)
        (record {
          no_crash = h.no_crash;
          controllers = record {
            line = h.controllers.line;
            plic = ap (single 0 false 1 2 0 h.controllers.line false) (and_true h.controllers.line);
            compare_fits = h.controllers.compare_fits;
            defined = h.controllers.defined;
          };
          log = h.log;
          handler_holds = tt;
          main_holds = h.main_holds;
          masked = h.masked;
          enabled = h.enabled;
          both = h.both;
        })
