-- ===== src/Fw/ClintTimer/State.antt =====
-- What holds of the machine at every point.
use cdc_vp.Base.{
  ℕ, ◌+◌, ◌^◌, ◌≤◌, ◌<◌, ◌≡◌, sym, ap, subst, Bool, true, false, not, ◌&&◌, ◌||◌, List, [], ltb,
}
use cdc_vp.Clint.{ClintTlm, now_mtime}
use cdc_vp.Tlm.{SimTime}
use cdc_vp.Device.{Transport}
use cdc_vp.Stub.{Action, Result, ok, threw}
use cdc_vp.Platform.CustomSoc.{CustomSoc}
use cdc_vp.Fw.{done_text}
use cdc_vp.Fw.SocIrq.Log.{Log}
use cdc_vp.Fw.ClintTimer.{
  Machine, MainPc, read_hi, read_lo, write_hi, write_lo, waiting, finishing, parked, perform,
}

-- What is left of the last text.
abbrev pub left : MainPc → List ℕ
left (finishing text) = text
left parked = []
left _ = done_text

-- Has the wait for the interrupt ended?
abbrev pub ending : MainPc → Bool
ending (finishing text) = true
ending parked = true
ending _ = false

-- Have the interrupts been enabled?
abbrev pub interruptible : MainPc → Bool
interruptible waiting = true
interruptible (finishing text) = true
interruptible parked = true
interruptible _ = false

-- While `mtime` is 100 below 2 ^ 32: before the lower half of the compare register is written, it is 0 and
-- no interrupt is raised; then it has the time that was read and 100, and a raised, taken or handled interrupt is not before that.
abbrev pub Timed : MainPc → ℕ → ℕ → ClintTlm → Bool → ℕ → Type 0
Timed read_hi hi lo c taken mtime = (c.timer_irq ≡ false) × (c.mtimecmp ≡ 0)
Timed read_lo hi lo c taken mtime = (c.timer_irq ≡ false) × (c.mtimecmp ≡ 0) × (hi ≡ 0)
Timed write_hi hi lo c taken mtime =
    (c.timer_irq ≡ false) × (c.mtimecmp ≡ 0) × (hi ≡ 0) × (lo ≤ mtime)
Timed write_lo hi lo c taken mtime = (c.timer_irq ≡ false) × (c.mtimecmp ≡ 0) × (lo ≤ mtime)
Timed _ hi lo c taken mtime =
    (c.mtimecmp ≡ lo + 100) × ((c.timer_irq || taken) ≡ true → lo + 100 ≤ mtime)

module _ {U I : Type 0} (unified : Bool) (uart : Transport U) (i2c : Transport I) (u0 : U)
    (t : SimTime) where
  -- No access failed and none was undefined, the output is as the program's variables and its place say,
  -- it is the time `t`, the interrupt is handled at most once, and it is timed.
  pub record Behaves (m : Machine U I) : Type 0 where
    pub no_crash : m.crashed ≡ false
    pub clock : m.soc.now ≡ t
    pub defined : m.soc.faulted ≡ false
    pub fits : m.soc.clint.mtimecmp < 2 ^ 64
    pub hi_fits : m.hi < 2 ^ 32
    pub log : Log uart u0 m.soc.uart (ltb 0 m.ticks) false (left m.main)
    pub once : m.ticks ≤ 1
    pub masked : ((m.mtie || m.trapped) && ltb 0 m.ticks) ≡ false
    pub enabled : m.mstatus_mie ≡ interruptible m.main
    pub closed : (not (interruptible m.main) && (m.trapped || ltb 0 m.ticks)) ≡ false
    pub over : (ending m.main && not (ltb 0 m.ticks)) ≡ false
    pub timed :
        now_mtime m.soc.now + 100 < 2 ^ 32
        → Timed m.main m.hi m.lo m.soc.clint (m.trapped || ltb 0 m.ticks) (now_mtime m.soc.now)

  pub performed :
      {A : Type 0} (act : Action (CustomSoc U I) A) (next : A → Machine U I → Machine U I)
      (m : Machine U I) (x : A) (w : CustomSoc U I)
      → act m.soc ≡ (ok x, w)
      → Behaves (next x (record m { soc = w }))
      → Behaves (perform unified uart i2c act next m)
  unfolding perform
  performed act next m x w e h =
      subst Behaves
        (sym (
          ap
            (λ (u : Result _ × CustomSoc U I). elim u.0 [
              | ok y ↦ next y (record m { soc = u.1 })
              | threw _ ↦ record m { soc = u.1; crashed = true }
            ])
            e))
        h
