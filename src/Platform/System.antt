-- ===== src/Platform/System.antt =====
-- riscv_custom_soc with the riscv-vp backend as a step relation. The processor's transactions, the line of
-- the I2C controller, the method of the interrupt controller that is sensitive to it, the rounds of the
-- CLINT's thread and the passing of time are steps. The calls of `set_irq` that the controllers make in a
-- step go to the core in that step.
use cdc_vp.Base.{ℕ, zero, suc, ◌+◌, ◌≡◌, Bool, true, false, List, [], ◌∷◌}
use cdc_vp.Tlm.{Payload, SimTime}
use cdc_vp.Clint
use cdc_vp.Clint.{ClintTlm, clint_tlm, timer_proc, cause_timer}
use cdc_vp.Plic
use cdc_vp.Plic.{PlicTlm, plic_tlm, any_eligible, update_meip, meip_call}
use cdc_vp.Router
use cdc_vp.Device.{Transport}
use cdc_vp.Cpu.{set_irqs}
use cdc_vp.Cpu.Vp.{Iss, RiscvVpCpu, vp_backend}
use cdc_vp.Platform.CustomSoc.{CustomSoc, bus_map, targets}

-- The system with its processor.
pub record System (U I C : Type 0) : Type 0 where
  pub soc : CustomSoc U I
  pub cpu : RiscvVpCpu C

-- The new value of the signal `i2c_irq`, before the method that is sensitive to it has run.
abbrev pub set_line : {U I C : Type 0} → Bool → System U I C → System U I C
set_line level s = record s {
  soc = record s.soc { plic = record s.soc.plic { lines = level ∷ [] } };
}

module _ {U I C : Type 0} (core : Iss C) where
  -- The run of that method.
  unfoldable pub sense : System U I C → System U I C
  sense s =
      let p = update_meip s.soc.plic in
      record {
        soc = record s.soc { plic = p };
        cpu = set_irqs (vp_backend core) (meip_call p) s.cpu;
      }

  -- A round of the CLINT's thread, which tells the processor the level of the timer interrupt.
  unfoldable pub wake_timer : System U I C → System U I C
  wake_timer s =
      let c = timer_proc s.soc.clint s.soc.now in
      record {
        soc = record s.soc { clint = c };
        cpu = set_irqs (vp_backend core) ((cause_timer, c.timer_irq) ∷ []) s.cpu;
      }

module _ {U I C : Type 0} (unified : Bool) (uart : Transport U) (i2c : Transport I)
    (core : Iss C) where
  -- The calls of `set_irq` that the component at a socket makes in a transaction, with the states before
  -- and after.
  unfoldable pub calls_at : ℕ → Payload → CustomSoc U I → CustomSoc U I → List (ℕ × Bool)
  calls_at (suc (suc zero)) trans w w' = Clint.irq_calls trans w'.clint
  calls_at (suc (suc (suc zero))) trans w w' = Plic.irq_calls w.plic trans w'.plic
  calls_at _ trans w w' = []

  -- The sockets, where the two controllers call the core.
  unfoldable pub system_targets : ℕ → Transport (System U I C)
  unfolding calls_at
  system_targets idx s trans delay =
      let (w, t, d) = targets unified uart i2c idx s.soc trans delay in
      (
        record { soc = w; cpu = set_irqs (vp_backend core) (calls_at idx trans s.soc w) s.cpu },
        t,
        d,
      )

  unfoldable pub system_bus : Transport (System U I C)
  unfolding system_targets
  system_bus = Router.b_transport system_targets (bus_map unified)

  -- What happens: a transaction of the processor that is defined, a new level of the I2C controller's
  -- line, the run of the method, a round of the CLINT's thread, and time. The Bool says whether the
  -- method has yet to run.
  pub data Reach (s : System U I C) : System U I C → Bool → Type 0 where
    here : Reach s s false
    access :
        {t : System U I C} {ready : Bool} (trans : Payload) (delay : SimTime)
        → Reach s t ready
        → (system_bus t trans delay).0.soc.faulted ≡ false
        → Reach s (system_bus t trans delay).0 ready
    line :
        {t : System U I C} {ready : Bool} (level : Bool)
        → Reach s t ready
        → Reach s (set_line level t) true
    sensed : {t : System U I C} → Reach s t true → Reach s (sense core t) false
    timer_round :
        {t : System U I C} {ready : Bool} → Reach s t ready → Reach s (wake_timer core t) ready
    time_passes :
        {t : System U I C} {ready : Bool} (d : SimTime)
        → Reach s t ready
        → Reach s (record t { soc = record t.soc { now = t.soc.now + d } }) ready
