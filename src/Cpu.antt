-- ===== src/Cpu.antt =====
-- cpu_models/include/cdc/cpu/cpu_base.h: the processor interface of the platforms. The processor
-- cores behind it are not in the repository. A bus is bound by the port that it is bound to, which
-- Platform models.
pub mod Vp
pub mod Tlm
pub mod Levels
pub mod Boot
pub mod Sample
mod Tests
use cdc_vp.Base.{ℕ, Bool, true, false, List, [], ◌∷◌}

-- `cpu_config` and its defaults.
pub record CpuConfig : Type 0 where
  pub xlen : ℕ
  pub num_irq : ℕ
  pub has_mmu : Bool
  pub has_smp : Bool

abbrev pub default_config : CpuConfig
default_config = record { xlen = 32; num_irq = 0; has_mmu = false; has_smp = false }

-- The virtual functions that take no file and no bus.
pub record CpuBase (C : Type 0) : Type 0 where
  pub has_unified_bus : Bool
  pub raise_irq : ℕ → C → C
  pub set_irq : ℕ → Bool → C → C
  pub reset_cpu : C → C
  pub get_pc : C → ℕ
  pub get_instret : C → ℕ

-- A backend that overrides what has no default.
abbrev pub cpu_base : {C : Type 0} → (C → C) → (C → ℕ) → CpuBase C
cpu_base reset pc = record {
  has_unified_bus = false;
  raise_irq = λ cause c. c;
  set_irq = λ cause level c. c;
  reset_cpu = reset;
  get_pc = pc;
  get_instret = λ c. 0;
}

-- Calls of `set_irq`, in order.
pub set_irqs : {C : Type 0} → CpuBase C → List (ℕ × Bool) → C → C
set_irqs cpu [] c = c
set_irqs cpu ((cause, level) ∷ calls) c = set_irqs cpu calls (cpu.set_irq cause level c)
