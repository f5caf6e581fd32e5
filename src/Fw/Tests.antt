-- ===== src/Fw/Tests.antt =====
-- The firmware on a bus with small devices in place of the UART and the I2C controller.
use cdc_vp.Base.{
  ℕ, ◌+◌, ◌≤◌, ◌≡◌, ◌⊎◌, ◌≢◌, refl, sym, ap, ◌∙◌, true, false, none, some, List, [], ◌∷◌, ◌++◌, ltb,
  arith,
}
use cdc_vp.Tlm.{ok_response, respond}
use cdc_vp.Clint.{clint_tlm}
use cdc_vp.Plic.{plic_tlm}
use cdc_vp.Plic.Single.{single}
use cdc_vp.Device.{Transport}
use cdc_vp.Stub.Words.{fed}
use cdc_vp.Platform.CustomSoc.{CustomSoc}
use cdc_vp.Fw.{hello}
use cdc_vp.Fw.SocIrq.Log.{Log}
use cdc_vp.Fw.SocIrq
use cdc_vp.Fw.SocIrq.{Machine, set_iier, parked}
use cdc_vp.Fw.SocIrq.State.{Devices, Behaves}
use cdc_vp.Fw.SocIrq.Boot.{demonstration_safe}
use cdc_vp.Fw.SocIrq.Arm.{timer_armed}
use cdc_vp.Fw.SocIrq.Finish.{armed, demonstration_finishes}
use cdc_vp.Fw.ClintTimer
use cdc_vp.Fw.ClintTimer.State.{left}
use cdc_vp.Fw.ClintTimer.Demo.{timer_on_time}

-- A device that keeps the addresses of the transactions that it gets, and answers them by OK.
abbrev recorder : Transport (List ℕ)
recorder seen trans delay = (seen ++ (trans.address ∷ []), respond trans ok_response, delay)

abbrev devices : Devices recorder recorder
devices = record {
  accepts = λ x v. refl;
  ier = λ x. refl;
  ictlr = λ x. refl;
  iier = λ x. refl;
  iicr = λ x. refl;
}

-- Seven milliseconds after the reset.
abbrev reset : CustomSoc (List ℕ) (List ℕ)
reset = record {
  ram = record { storage = []; read_only = false; access_latency = 0 };
  uart = [];
  clint = clint_tlm;
  plic = plic_tlm 1;
  i2c = [];
  now = 7000000000;
  faulted = false;
}

abbrev arming : List SocIrq.Event
arming =
    SocIrq.program
    ∷ SocIrq.time_passes 3000000
    ∷ SocIrq.program
    ∷ SocIrq.program
    ∷ SocIrq.program
    ∷ []

abbrev demonstration : List SocIrq.Event
demonstration =
    SocIrq.program
    ∷ SocIrq.line true
    ∷ SocIrq.trap 11
    ∷ SocIrq.program
    ∷ SocIrq.program
    ∷ SocIrq.line false
    ∷ SocIrq.program
    ∷ SocIrq.program
    ∷ SocIrq.trap 7
    ∷ []

demonstration_safe_example :
    Behaves true recorder recorder []
      (SocIrq.run true recorder recorder demonstration (SocIrq.boot true recorder recorder reset))
unfolding clint_tlm
demonstration_safe_example =
    demonstration_safe true recorder recorder devices demonstration reset refl (omega arith) refl

abbrev armed_at_7103 : Machine (List ℕ) (List ℕ)
armed_at_7103 = record {
  soc = record reset {
    uart = fed recorder 0 hello [];
    plic = single 0 false 1 2 0 false false false;
    now = 7003000000;
    clint = record clint_tlm { mtimecmp = 7103; notified = some 0 };
  };
  timer_done = false;
  ext_done = false;
  mtie = true;
  meie = true;
  mstatus_mie = true;
  main = set_iier;
  handler = none;
  crashed = false;
}

timer_armed_example :
    SocIrq.run true recorder recorder arming (SocIrq.boot true recorder recorder reset)
    ≡ armed_at_7103
unfolding clint_tlm
timer_armed_example = timer_armed true recorder recorder devices 3000000 reset refl (omega arith)

is_set : armed_at_7103.soc.clint.mtimecmp ≢ 0
is_set = omega arith

demonstration_finishes_example :
    (more : List SocIrq.Event) × (let m =
        SocIrq.run true recorder recorder more
          (SocIrq.run true recorder recorder arming (SocIrq.boot true recorder recorder reset)) in
      (m.main ≡ parked) × (m.timer_done ≡ true) × (m.ext_done ≡ true))
unfolding clint_tlm
demonstration_finishes_example =
    demonstration_finishes true recorder recorder devices arming reset refl (omega arith) refl
      (ap (λ m. armed m.main) timer_armed_example)
      (λ e. is_set (sym (ap (λ m. m.soc.clint.mtimecmp) timer_armed_example) ∙ e))

abbrev rounds : List ClintTimer.Event
rounds =
    ClintTimer.program
    ∷ ClintTimer.program
    ∷ ClintTimer.program
    ∷ ClintTimer.program
    ∷ ClintTimer.program
    ∷ ClintTimer.program
    ∷ ClintTimer.time_passes 100000000
    ∷ ClintTimer.timer_round
    ∷ ClintTimer.trap
    ∷ ClintTimer.program
    ∷ []

timer_on_time_example :
    let m =
      ClintTimer.run true recorder recorder rounds (ClintTimer.boot true recorder recorder reset) in
    (m.crashed ≡ false)
    × (m.soc.faulted ≡ false)
    × ((m.ticks ≡ 0) ⊎ ((m.ticks ≡ 1) × (m.lo + 100 ≤ 7100)))
    × Log recorder [] m.soc.uart (ltb 0 m.ticks) false (left m.main)
timer_on_time_example =
    timer_on_time true recorder recorder (λ x v. refl) rounds reset refl refl (omega arith)
