-- ===== src/Fw/SocIrq/State.antt =====
-- What holds of the machine at every point of the demonstration.
use cdc_vp.Base.{
  ℕ, ◌^◌, ◌≤◌, ◌<◌, ◌≡◌, sym, ap, subst, Bool, true, false, not, ◌&&◌, Option, some, List, [],
}
use cdc_vp.Device.{Transport}
use cdc_vp.Stub.{Action, Result, ok, threw}
use cdc_vp.Stub.Words.{Accepts}
use cdc_vp.Platform.CustomSoc.{CustomSoc}
use cdc_vp.Platform.SocAccess.{AnswersI2c}
use cdc_vp.Fw.{done_text}
use cdc_vp.Fw.SocIrq.Controllers.{serving, Controllers}
use cdc_vp.Fw.SocIrq.Log.{Log}
use cdc_vp.Fw.SocIrq.{
  Machine, MainPc, read_lo, write_hi, finishing, parked, HandlerPc, dispatch, complete, perform,
}

-- What the program relies on of the UART and the I2C controller: they answer its writes by OK.
pub record Devices {U I : Type 0} (uart : Transport U) (i2c : Transport I) : Type 0 where
  pub accepts : Accepts uart 0
  pub ier : AnswersI2c i2c 0x00
  pub ictlr : AnswersI2c i2c 0x04
  pub iier : AnswersI2c i2c 0x4C
  pub iicr : AnswersI2c i2c 0x50

abbrev pub HandlerHolds : Option HandlerPc → Bool → Type 0
HandlerHolds (some (dispatch code)) timer = code ≡ 7 → timer ≡ false
HandlerHolds (some (complete id)) timer = id ≤ 1
HandlerHolds _ timer = Unit {0}

abbrev pub MainHolds : MainPc → Type 0
MainHolds (read_lo hi) = hi < 2 ^ 32
MainHolds (write_hi hi lo) = hi < 2 ^ 32
MainHolds _ = Unit {0}

-- What is left of the last text.
abbrev pub left : MainPc → List ℕ
left (finishing text) = text
left parked = []
left _ = done_text

-- Has the wait for both interrupts ended?
abbrev pub ending : MainPc → Bool
ending (finishing text) = true
ending parked = true
ending _ = false

module _ {U I : Type 0} (unified : Bool) (uart : Transport U) (i2c : Transport I) (u0 : U) where
  -- No access failed and none was undefined, and the controllers, the output and the interrupt
  -- enables are as the program's variables and its place say; the wait has ended only when both
  -- interrupts were handled.
  pub record Behaves (m : Machine U I) : Type 0 where
    pub no_crash : m.crashed ≡ false
    pub controllers : Controllers m.soc (serving m.handler)
    pub log : Log uart u0 m.soc.uart m.timer_done m.ext_done (left m.main)
    pub handler_holds : HandlerHolds m.handler m.timer_done
    pub main_holds : MainHolds m.main
    pub masked : m.mtie ≡ not m.timer_done
    pub enabled : (m.mstatus_mie && m.meie) ≡ true
    pub both : (ending m.main && not (m.timer_done && m.ext_done)) ≡ false

  pub perform-ok :
      {A : Type 0} (act : Action (CustomSoc U I) A) (next : A → Machine U I → Machine U I)
      (m : Machine U I) (x : A) (w : CustomSoc U I)
      → act m.soc ≡ (ok x, w)
      → perform unified uart i2c act next m ≡ next x (record m { soc = w })
  unfolding perform
  perform-ok act next m x w e =
      ap
        (λ (u : Result _ × CustomSoc U I). elim u.0 [
          | ok y ↦ next y (record m { soc = u.1 })
          | threw _ ↦ record m { soc = u.1; crashed = true }
        ])
        e

  pub performed :
      {A : Type 0} (act : Action (CustomSoc U I) A) (next : A → Machine U I → Machine U I)
      (m : Machine U I) (x : A) (w : CustomSoc U I)
      → act m.soc ≡ (ok x, w)
      → Behaves (next x (record m { soc = w }))
      → Behaves (perform unified uart i2c act next m)
  performed act next m x w e h = subst Behaves (sym (perform-ok act next m x w e)) h
