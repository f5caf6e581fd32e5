-- ===== src/Cpu/Vp.antt =====
-- cpu_models/riscv_vp/src/riscv_vp_wrapper.cpp: the wrapper of the riscv-vp core. `rv32::ISS` is a
-- library, an interface with the laws that its interrupt functions are documented by.
use cdc_vp.Base.{
  ℕ, ◌%◌, ◌^◌, ◌≡◌, Bool, true, false, Option, List, [], ◌∷◌, ltb, ◌==◌, if◌then◌else◌,
}
use cdc_vp.Tlm.{Payload, SimTime, nanoseconds}
use cdc_vp.Cpu.{CpuBase, cpu_base}
use cdc_vp.Elf.{Outcome, done, ◌>>=◌, load_elf}

-- `rv32::ISS`, with `MachineMode` as the privilege level of the external interrupt.
pub record Iss (C : Type 0) : Type 0 where
  pub trigger_software_interrupt : Bool → C → C
  pub trigger_timer_interrupt : Bool → C → C
  pub trigger_external_interrupt : C → C
  pub clear_external_interrupt : C → C
  pub init : ℕ → ℕ → C → C
  pub set_pc : ℕ → C → C
  pub pc : C → ℕ
  pub total_num_instr : C → ℕ

-- The three pending bits, each set by its own function and by no other; and the program counter.
pub record IssLaws {C : Type 0} (core : Iss C) : Type 0 where
  pub software : C → Bool
  pub timer : C → Bool
  pub external : C → Bool
  pub software_set : (b : Bool) (c : C) → software (core.trigger_software_interrupt b c) ≡ b
  pub software_timer : (b : Bool) (c : C) → software (core.trigger_timer_interrupt b c) ≡ software c
  pub software_external : (c : C) → software (core.trigger_external_interrupt c) ≡ software c
  pub software_clear : (c : C) → software (core.clear_external_interrupt c) ≡ software c
  pub timer_set : (b : Bool) (c : C) → timer (core.trigger_timer_interrupt b c) ≡ b
  pub timer_software : (b : Bool) (c : C) → timer (core.trigger_software_interrupt b c) ≡ timer c
  pub timer_external : (c : C) → timer (core.trigger_external_interrupt c) ≡ timer c
  pub timer_clear : (c : C) → timer (core.clear_external_interrupt c) ≡ timer c
  pub external_set : (c : C) → external (core.trigger_external_interrupt c) ≡ true
  pub external_clear : (c : C) → external (core.clear_external_interrupt c) ≡ false
  pub external_software :
      (b : Bool) (c : C) → external (core.trigger_software_interrupt b c) ≡ external c
  pub external_timer : (b : Bool) (c : C) → external (core.trigger_timer_interrupt b c) ≡ external c
  pub pc_set : (v : ℕ) (c : C) → core.pc (core.set_pc v c) ≡ v
  pub pc_init : (v sp : ℕ) (c : C) → core.pc (core.init v sp c) ≡ v

-- `riscv_vp_cpu`. The path is its characters, and empty before `load_elf`.
pub record RiscvVpCpu (C : Type 0) : Type 0 where
  pub iss : C
  pub elf_path : List ℕ
  pub entry_pc : ℕ

abbrev pub initial_sp : ℕ
initial_sp = 0x80010000

-- `quantum_init`: the global quantum that the constructor leaves.
unfoldable pub quantum_init : SimTime → SimTime
quantum_init gq = if ltb gq (nanoseconds 10) then nanoseconds 1000 else gq

abbrev is_empty : List ℕ → Bool
is_empty [] = true
is_empty (c ∷ path) = false

abbrev pub riscv_vp_cpu : {C : Type 0} → C → RiscvVpCpu C
riscv_vp_cpu iss = record { iss = iss; elf_path = []; entry_pc = 0 }

-- `load_elf` of the wrapper.
abbrev pub set_elf_path : {C : Type 0} → List ℕ → RiscvVpCpu C → RiscvVpCpu C
set_elf_path path cpu = record cpu { elf_path = path }

module _ {C : Type 0} (core : Iss C) where
  -- The switch over the cause.
  unfoldable pub set_irq : ℕ → Bool → RiscvVpCpu C → RiscvVpCpu C
  set_irq cause level cpu =
      if cause == 3
      then record cpu { iss = core.trigger_software_interrupt level cpu.iss }
      else if cause == 7
      then record cpu { iss = core.trigger_timer_interrupt level cpu.iss }
      else if cause == 11
      then record cpu {
        iss =
            if level
            then core.trigger_external_interrupt cpu.iss
            else core.clear_external_interrupt cpu.iss;
      }
      else cpu

  unfoldable pub reset_cpu : RiscvVpCpu C → RiscvVpCpu C
  reset_cpu cpu = record cpu { iss = core.set_pc (cpu.entry_pc % 2 ^ 32) cpu.iss }

  abbrev pub get_pc : RiscvVpCpu C → ℕ
  get_pc cpu = core.pc cpu.iss

  unfoldable pub vp_backend : CpuBase (RiscvVpCpu C)
  unfolding set_irq reset_cpu
  vp_backend = record (cpu_base reset_cpu get_pc) {
    has_unified_bus = true;
    set_irq = set_irq;
    get_instret = λ cpu. core.total_num_instr cpu.iss;
  }

module _ {C W : Type 0} (core : Iss C) (dbg : W → Payload → W × Payload × ℕ)
    (files : List ℕ → Option (List ℕ)) where
  -- `files` are the files that can be opened. An exception leaves the processor as it is.
  unfoldable pub start_of_simulation : W → RiscvVpCpu C → W × Outcome (RiscvVpCpu C)
  start_of_simulation w cpu =
      if is_empty cpu.elf_path
      then (w, done cpu)
      else let (w', r) = load_elf dbg w (files cpu.elf_path) in
        (
          w',
          r >>= λ entry. done (record cpu {
            entry_pc = entry;
            iss = core.init (entry % 2 ^ 32) initial_sp cpu.iss;
          }),
        )
