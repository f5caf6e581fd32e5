-- ===== src/Fw/SocIrq/Progress.antt =====
-- The demonstration can always be finished.
use cdc_vp.Base.{
  ℕ, ◌+◌, ◌*◌, ◌≡◌, ◌≢◌, refl, sym, ap, subst, Bool, true, false, ◌&&◌, none, some, List, [], ◌∷◌,
  arith,
}
use cdc_vp.Plic.{PlicTlm}
use cdc_vp.Plic.Single.{single}
use cdc_vp.Clint.{timer_proc, scaler}
use cdc_vp.Clint.Timer.{timer_proc_level}
use cdc_vp.Device.{Transport}
use cdc_vp.Stub.Words.{fed}
use cdc_vp.Platform.CustomSoc.{CustomSoc, i2c_irq}
use cdc_vp.Platform.SocAccess.{i2c_set, uart_said, i2c_written, plic_claimed}
use cdc_vp.Fw.{timer_text, ext_text, done_text}
use cdc_vp.Fw.SocIrq.Controllers.{Controllers-raised}
use cdc_vp.Fw.SocIrq.State.{Devices, Behaves, perform-ok}
use cdc_vp.Fw.SocIrq.Invariant.{step-Behaves}
use cdc_vp.Fw.SocIrq.Handler.{completed}
use cdc_vp.Fw.SocIrq.{
  Machine, Event, program, timer_round, trap, line, time_passes, waiting, finishing, parked,
  dispatch, clear_source, announce, complete, main_step, handler_step, program_step, take_trap,
  pending, step, run,
}

module _ {U I : Type 0} (unified : Bool) (uart : Transport U) (i2c : Transport I) (u0 : U)
    (d : Devices uart i2c) where
  -- There are events after which the machine is in the last loop.
  abbrev pub Finishes : Machine U I → Type 0
  Finishes m = (es : List Event) × ((run unified uart i2c es m).main ≡ parked)

  abbrev pub Good : Machine U I → Type 0
  Good = Behaves unified uart i2c u0

  pub by_event :
      (e : Event) (m m' : Machine U I)
      → step unified uart i2c e m ≡ m'
      → Good m
      → (Good m' → Finishes m')
      → Finishes m
  unfolding run
  by_event e m m' same h k =
      let (es, p) = k (subst Good same (step-Behaves unified uart i2c u0 d e m h)) in
      (e ∷ es, subst (λ n. (run unified uart i2c es n).main ≡ parked) (sym same) p)

  pub from_finishing :
      (text : List ℕ) (m : Machine U I)
      → let n = record m { main = finishing text; handler = none } in Good n → Finishes n
  unfolding run step program_step main_step
  from_finishing [] m h = (program ∷ [], refl)
  from_finishing (c ∷ text) m h =
      by_event program _
        (record m {
          soc = record m.soc { uart = fed uart 0 (c ∷ []) m.soc.uart };
          main = finishing text;
          handler = none;
        })
        (perform-ok unified uart i2c u0 _ _ _ _ _
          (uart_said unified uart i2c (c ∷ []) m.soc d.accepts))
        h
        (from_finishing text
          (record m { soc = record m.soc { uart = fed uart 0 (c ∷ []) m.soc.uart } }))

  from_both :
      (m : Machine U I)
      → let n = record m { timer_done = true; ext_done = true; main = waiting; handler = none } in
        Good n → Finishes n
  unfolding step program_step main_step
  from_both m h =
      by_event program _
        (record m {
          timer_done = true;
          ext_done = true;
          main = finishing done_text;
          handler = none;
        })
        refl h (from_finishing done_text (record m { timer_done = true; ext_done = true }))

  -- It can be finished from outside of the handler, whatever the handler leaves in these components.
  abbrev pub Back : Bool → Machine U I → Type 0
  Back ext m =
      (u : U) (x : I) (p : PlicTlm)
      → let n = record m {
        soc = record m.soc { uart = u; i2c = x; plic = p };
        ext_done = ext;
        handler = none;
      } in
        Good n → Finishes n

  pub from_complete :
      (m : Machine U I) (id : ℕ)
      → let n = record m { handler = some (complete id) } in Good n → Back m.ext_done m → Finishes n
  unfolding step program_step handler_step
  from_complete m id h k =
      by_event program _ _
        (perform-ok unified uart i2c u0 _ _ (record m { handler = some (complete id) }) _ _
          (completed unified uart i2c m.soc id h.handler_holds _ _ h.controllers.plic))
        h (k _ _ _)

  pub from_announce :
      (m : Machine U I)
      → let n = record m { handler = some announce } in Good n → Back true m → Finishes n
  unfolding step program_step handler_step
  from_announce m h k =
      let w = record m.soc { uart = fed uart 0 ext_text m.soc.uart } in
      by_event program _ _
        (perform-ok unified uart i2c u0 _ _ (record m { handler = some announce }) _ _
          (uart_said unified uart i2c ext_text m.soc d.accepts))
        h (λ g. from_complete (record m { soc = w; ext_done = true }) 1 g k)

  pub from_clear :
      (m : Machine U I)
      → let n = record m { handler = some clear_source } in Good n → Back true m → Finishes n
  unfolding step program_step handler_step
  from_clear m h k =
      let w = record m.soc { i2c = i2c_set i2c 0x50 m.soc.i2c } in
      by_event program _ _
        (perform-ok unified uart i2c u0 _ _ (record m { handler = some clear_source }) _ _
          (i2c_written unified uart i2c m.soc 0x50 (omega arith) d.iicr))
        h (λ g. from_announce (record m { soc = w }) g k)

  from_raised :
      (m : Machine U I)
      → m.soc.plic ≡ single 0 false 1 2 0 true false true
      → let n = record m { handler = some (dispatch 11) } in Good n → Back true m → Finishes n
  unfolding step program_step handler_step
  from_raised m high h k =
      let w = record m.soc { plic = single 0 false 1 2 0 true true false } in
      by_event program _ _
        (perform-ok unified uart i2c u0 _ _ (record m { handler = some (dispatch 11) }) _ _
          (plic_claimed unified uart i2c 0 false 1 2 0 refl refl m.soc true true high))
        h (λ g. from_clear (record m { soc = w }) g k)

  traps :
      (code : ℕ) (m : Machine U I)
      → let n = record m { handler = none } in
        (m.mstatus_mie && pending code n) ≡ true
        → step unified uart i2c (trap code) n ≡ record m { handler = some (dispatch code) }
  unfolding step take_trap
  traps code m taken = rw taken refl

  -- With the line high, the handler is entered and handles the external interrupt.
  external_handled :
      (m : Machine U I) → let n = record m { handler = none } in Good n → Back true m → Finishes n
  unfolding step i2c_irq
  external_handled m h k =
      let w = i2c_irq true m.soc in
      let high : w.plic ≡ single 0 false 1 2 0 true false true =
        Controllers-raised m.soc h.controllers in
      let irq : w.plic.irq ≡ true = ap (λ p. p.irq) high in
      by_event (line true) _ (record m { soc = w; handler = none }) refl h
        (λ g.
          by_event (trap 11) _ (record m { soc = w; handler = some (dispatch 11) })
            (traps 11 (record m { soc = w }) (ground (arith, irq, h.enabled))) g
            (λ f. from_raised (record m { soc = w }) high f k))

  -- When the compare time has come, the handler is entered and handles the timer interrupt.
  timer_handled :
      (m : Machine U I)
      → m.soc.clint.mtimecmp ≢ 0
      → let n = record m { timer_done = false; handler = none } in
        Good n
        → ((w : CustomSoc U I)
            → let n' = record m { soc = w; timer_done = true; mtie = false; handler = none } in
              Good n' → Finishes n')
        → Finishes n
  unfolding step program_step handler_step
  timer_handled m set h k =
      let n = record m { timer_done = false } in
      let late = m.soc.clint.mtimecmp * scaler in
      let w1 = record m.soc { now = m.soc.now + late } in
      let w2 = record w1 { clint = timer_proc m.soc.clint w1.now } in
      let irq : w2.clint.timer_irq ≡ true =
        (timer_proc_level m.soc.clint w1.now).0.1 (set, omega arith) in
      by_event (time_passes late) _ (record n { soc = w1; handler = none }) refl h
        (λ g1.
          by_event timer_round _ (record n { soc = w2; handler = none }) refl g1
            (λ g2.
              by_event (trap 7) _ (record n { soc = w2; handler = some (dispatch 7) })
                (traps 7 (record n { soc = w2 }) (ground (arith, irq, h.enabled, h.masked))) g2
                (λ g3.
                  by_event program _ _
                    (perform-ok unified uart i2c u0 _ _
                      (record n { soc = w2; handler = some (dispatch 7) }) _ _
                      (uart_said unified uart i2c timer_text w2 d.accepts))
                    g3 (k _))))

  from_timer_done :
      (ext : Bool) (m : Machine U I)
      → let n = record m { timer_done = true; ext_done = ext; main = waiting; handler = none } in
        Good n → Finishes n
  from_timer_done true m h = from_both m h
  from_timer_done false m h =
      external_handled (record m { timer_done = true; ext_done = false; main = waiting }) h
        (λ u x p. from_both (record m { soc = record m.soc { uart = u; i2c = x; plic = p } }))

  pub from_waiting :
      (timer : Bool) (m : Machine U I)
      → m.soc.clint.mtimecmp ≢ 0
      → let n = record m { timer_done = timer; main = waiting; handler = none } in
        Good n → Finishes n
  from_waiting true m set h = from_timer_done m.ext_done m h
  from_waiting false m set h =
      timer_handled (record m { main = waiting }) set h
        (λ w. from_timer_done m.ext_done (record m { soc = w; mtie = false }))
