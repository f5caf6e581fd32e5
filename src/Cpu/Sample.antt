-- ===== src/Cpu/Sample.antt =====
-- A small core with the interface of the riscv-vp core, for tests.
use cdc_vp.Base.{ℕ, refl, Bool, true, false}
use cdc_vp.Cpu.Vp.{Iss, IssLaws}

-- A core that is its pending bits and its program counter.
pub record SmallCore : Type 0 where
  pub msip : Bool
  pub mtip : Bool
  pub meip : Bool
  pub at_pc : ℕ

abbrev pub small_iss : Iss SmallCore
small_iss = record {
  trigger_software_interrupt = λ b c. record c { msip = b };
  trigger_timer_interrupt = λ b c. record c { mtip = b };
  trigger_external_interrupt = λ c. record c { meip = true };
  clear_external_interrupt = λ c. record c { meip = false };
  init = λ v sp c. record c { at_pc = v };
  set_pc = λ v c. record c { at_pc = v };
  pc = λ c. c.at_pc;
  total_num_instr = λ c. 0;
}

abbrev pub small_laws : IssLaws small_iss
small_laws = record {
  software = λ c. c.msip;
  timer = λ c. c.mtip;
  external = λ c. c.meip;
  software_set = λ b c. refl;
  software_timer = λ b c. refl;
  software_external = λ c. refl;
  software_clear = λ c. refl;
  timer_set = λ b c. refl;
  timer_software = λ b c. refl;
  timer_external = λ c. refl;
  timer_clear = λ c. refl;
  external_set = λ c. refl;
  external_clear = λ c. refl;
  external_software = λ b c. refl;
  external_timer = λ b c. refl;
  pc_set = λ v c. refl;
  pc_init = λ v sp c. refl;
}

abbrev pub quiet : SmallCore
quiet = record { msip = false; mtip = false; meip = false; at_pc = 0 }
