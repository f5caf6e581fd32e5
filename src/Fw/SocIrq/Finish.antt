-- ===== src/Fw/SocIrq/Finish.antt =====
-- From wherever the program is behind the arming of the timer, it can reach its last loop.
use cdc_vp.Base.{
  ℕ, ◌+◌, ◌^◌, ◌<◌, ◌≡◌, ◌≢◌, refl, sym, ap, ◌∙◌, Bool, true, false, not, ◌&&◌, Option, none, some,
  List, [], ◌==◌, if◌then◌else◌, Bool-cases, inl, inr, arith,
}
use cdc_vp.Plic.{plic_tlm}
use cdc_vp.Plic.Single.{single}
use cdc_vp.Device.{Transport}
use cdc_vp.Stub.{write32}
use cdc_vp.Stub.Words.{fed}
use cdc_vp.Platform.CustomSoc.{CustomSoc, bus, i2c_base}
use cdc_vp.Platform.SocAccess.{i2c_set, AnswersI2c, uart_said, i2c_written, plic_claimed}
use cdc_vp.Fw.{timer_text}
use cdc_vp.Fw.SocIrq.State.{Devices, Behaves, ending, perform-ok}
use cdc_vp.Fw.SocIrq.Invariant.{run-Behaves}
use cdc_vp.Fw.SocIrq.Boot.{boot-Behaves}
use cdc_vp.Fw.SocIrq.Progress.{
  Finishes, Back, by_event, from_complete, from_announce, from_clear, from_waiting, from_finishing,
}
use cdc_vp.Fw.SocIrq.{
  Machine, Event, program, MainPc, read_hi, read_lo, write_hi, write_lo, set_iier, set_ier,
  set_ictlr, waiting, finishing, parked, HandlerPc, dispatch, clear_source, announce, complete,
  perform, main_step, handler_step, program_step, step, boot, run,
}

-- Has the compare register been written?
abbrev pub armed : MainPc → Bool
armed read_hi = false
armed (read_lo hi) = false
armed (write_hi hi lo) = false
armed (write_lo hi lo) = false
armed _ = true

module _ {U I : Type 0} (unified : Bool) (uart : Transport U) (i2c : Transport I) (u0 : U)
    (d : Devices uart i2c) where
  abbrev Good : Machine U I → Type 0
  Good = Behaves unified uart i2c u0

  abbrev Ends : Machine U I → Type 0
  Ends = Finishes unified uart i2c u0 d

  from_i2c :
      (local : ℕ) (near : local < 0x1000) (answers : AnswersI2c i2c local) (pc pc' : MainPc)
      (m : Machine U I)
      → let n = record m { main = pc; handler = none } in
        let n' = record m {
          soc = record m.soc { i2c = i2c_set i2c local m.soc.i2c };
          main = pc';
          handler = none;
        } in
        main_step unified uart i2c pc n
          ≡ perform unified uart i2c
              (write32 (bus unified uart i2c) (i2c_base + local) 1)
              (λ _ m'. record m' { main = pc' })
              n
        → Good n
        → (Good n' → Ends n')
        → Ends n
  unfolding step program_step
  from_i2c local near answers pc pc' m same h k =
      by_event unified uart i2c u0 d program _ _
        (same
          ∙ perform-ok unified uart i2c u0 _ _ (record m { main = pc; handler = none }) _ _
              (i2c_written unified uart i2c m.soc local near answers))
        h k

  from_main :
      (pc : MainPc) (m : Machine U I)
      → armed pc ≡ true
      → m.soc.clint.mtimecmp ≢ 0
      → let n = record m { main = pc; handler = none } in Good n → Ends n
  unfolding run main_step
  from_main read_hi m on set h = ground (arith, on)
  from_main (read_lo hi) m on set h = ground (arith, on)
  from_main (write_hi hi lo) m on set h = ground (arith, on)
  from_main (write_lo hi lo) m on set h = ground (arith, on)
  from_main set_iier m on set h =
      let w1 = record m.soc { i2c = i2c_set i2c 0x4C m.soc.i2c } in
      let w2 = record w1 { i2c = i2c_set i2c 0x00 w1.i2c } in
      let w3 = record w2 { i2c = i2c_set i2c 0x04 w2.i2c } in
      from_i2c 0x4C (omega arith) d.iier set_iier set_ier m refl h (λ g.
        from_i2c 0x00 (omega arith) d.ier set_ier set_ictlr (record m { soc = w1 }) refl g
          (λ f.
            from_i2c 0x04 (omega arith) d.ictlr set_ictlr waiting (record m { soc = w2 }) refl f
              (from_waiting unified uart i2c u0 d m.timer_done (record m { soc = w3 }) set)))
  from_main set_ier m on set h =
      let w1 = record m.soc { i2c = i2c_set i2c 0x00 m.soc.i2c } in
      let w2 = record w1 { i2c = i2c_set i2c 0x04 w1.i2c } in
      from_i2c 0x00 (omega arith) d.ier set_ier set_ictlr m refl h (λ f.
        from_i2c 0x04 (omega arith) d.ictlr set_ictlr waiting (record m { soc = w1 }) refl f
          (from_waiting unified uart i2c u0 d m.timer_done (record m { soc = w2 }) set))
  from_main set_ictlr m on set h =
      let w1 = record m.soc { i2c = i2c_set i2c 0x04 m.soc.i2c } in
      from_i2c 0x04 (omega arith) d.ictlr set_ictlr waiting m refl h
        (from_waiting unified uart i2c u0 d m.timer_done (record m { soc = w1 }) set)
  from_main waiting m on set h = from_waiting unified uart i2c u0 d m.timer_done m set h
  from_main (finishing text) m on set h = from_finishing unified uart i2c u0 d text m h
  from_main parked m on set h = ([], refl)

  from_claimed :
      (line : Bool) (m : Machine U I)
      → let id : ℕ = if line then 1 else 0 in
        let n = record m { handler = some (if id == 1 then clear_source else complete id) } in
        Good n → ((ext : Bool) → Back unified uart i2c u0 d ext m) → Ends n
  from_claimed true m h k = from_clear unified uart i2c u0 d m h (k true)
  from_claimed false m h k = from_complete unified uart i2c u0 d m 0 h (k m.ext_done)

  from_handler :
      (pc : Option HandlerPc) (m : Machine U I)
      → armed m.main ≡ true
      → m.soc.clint.mtimecmp ≢ 0
      → let n = record m { handler = pc } in Good n → Ends n
  unfolding step program_step handler_step
  from_handler none m on set h = from_main m.main m on set h
  from_handler (some clear_source) m on set h = from_clear unified uart i2c u0 d m h (λ u x p.
      from_main m.main
        (record m { soc = record m.soc { uart = u; i2c = x; plic = p }; ext_done = true }) on set)
  from_handler (some announce) m on set h = from_announce unified uart i2c u0 d m h (λ u x p.
      from_main m.main
        (record m { soc = record m.soc { uart = u; i2c = x; plic = p }; ext_done = true }) on set)
  from_handler (some (complete id)) m on set h =
      from_complete unified uart i2c u0 d m id h (λ u x p.
        from_main m.main (record m { soc = record m.soc { uart = u; i2c = x; plic = p } }) on set)
  from_handler (some (dispatch code)) m on set h = elim (Bool-cases (code == 7)) [
    | inl timer ↦
        let w = record m.soc { uart = fed uart 0 timer_text m.soc.uart } in
        let n = record m { soc = w; timer_done = true; mtie = false; handler = none } in
        by_event unified uart i2c u0 d program _ n
          (rw timer (
            perform-ok unified uart i2c u0 _ _ (record m { handler = some (dispatch code) }) _ _
              (uart_said unified uart i2c timer_text m.soc d.accepts)))
          h (from_main m.main n on set)
    | inr other ↦ elim (Bool-cases (code == 11)) [
      | inl external ↦
          let l = h.controllers.line in
          let id : ℕ = if l then 1 else 0 in
          let w = record m.soc { plic = single 0 false 1 2 0 l l false } in
          let n = record m {
            soc = w;
            handler = some (if id == 1 then clear_source else complete id);
          } in
          by_event unified uart i2c u0 d program _ n
            (rw (other, external)
              (perform-ok unified uart i2c u0 _ _ (record m { handler = some (dispatch code) }) _ _
                (plic_claimed unified uart i2c 0 false 1 2 0 refl refl m.soc l _
                  h.controllers.plic)))
            h
            (λ g. from_claimed l n g (λ ext u x p.
              from_main m.main
                (record n { soc = record w { uart = u; i2c = x; plic = p }; ext_done = ext }) on
                set))
      | inr neither ↦
          by_event unified uart i2c u0 d program _ (record m { handler = none })
            (rw (other, neither) refl) h (from_main m.main m on set)
    ]
  ]

module _ {U I : Type 0} (unified : Bool) (uart : Transport U) (i2c : Transport I)
    (d : Devices uart i2c) where
  -- The demonstration cannot get stuck: on the bus and from the start of `demonstration_safe`, wherever
  -- a sequence of events has brought the program behind the arming of the timer, in `main` or in the
  -- trap handler, and with a compare time other than zero there, further events bring it to its last
  -- loop, with both interrupts handled and the whole last text sent.
  pub demonstration_finishes :
      (es : List Event) (w : CustomSoc U I)
      → w.plic ≡ plic_tlm 1
      → w.clint.mtimecmp < 2 ^ 64
      → w.faulted ≡ false
      → armed (run unified uart i2c es (boot unified uart i2c w)).main ≡ true
      → (run unified uart i2c es (boot unified uart i2c w)).soc.clint.mtimecmp ≢ 0
      → (more : List Event) × (let m =
            run unified uart i2c more (run unified uart i2c es (boot unified uart i2c w)) in
          (m.main ≡ parked) × (m.timer_done ≡ true) × (m.ext_done ≡ true))
  demonstration_finishes es w reset fits defined on set =
      let m = run unified uart i2c es (boot unified uart i2c w) in
      let h : Behaves unified uart i2c w.uart m =
        run-Behaves unified uart i2c w.uart d es (boot unified uart i2c w)
          (boot-Behaves unified uart i2c d w reset fits defined) in
      let (more, over) = from_handler unified uart i2c w.uart d m.handler m on set h in
      let n = run unified uart i2c more m in
      let b : Behaves unified uart i2c w.uart n = run-Behaves unified uart i2c w.uart d more m h in
      let both : not (n.timer_done && n.ext_done) ≡ false =
        ap (λ pc. ending pc && not (n.timer_done && n.ext_done)) (sym over) ∙ b.both in
      (more, (over, ground (arith, both), ground (arith, both)))
