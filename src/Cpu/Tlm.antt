-- ===== src/Cpu/Tlm.antt =====
-- cpu_models/riscv_tlm/src/riscv_tlm_wrapper.cpp: the wrapper of the RISC-V-TLM core, a library. The
-- core's interrupt socket is a transport. The constructor always makes a core, so `core_` is not
-- null. Loggers are left out.
use cdc_vp.Base.{
  ℕ, ◌%◌, ◌^◌, ◌≡◌, refl, Bool, true, false, Option, some, List, [], ◌∷◌, le_bytes, if◌then◌else◌,
}
use cdc_vp.Tlm.{Payload, ignore_command, incomplete_response}
use cdc_vp.Device.{Transport}
use cdc_vp.Elf.{Outcome, done, ◌>>=◌, load_elf}
use cdc_vp.Cpu.{CpuBase, cpu_base, set_irqs}

-- The register bank's program counter and the instructions counted by `Performance`.
pub record TlmCore (C : Type 0) : Type 0 where
  pub irq_line : Transport C
  pub set_pc : ℕ → C → C
  pub pc : C → ℕ
  pub instructions : C → ℕ

-- `riscv_tlm_cpu`
pub record RiscvTlmCpu (C : Type 0) : Type 0 where
  pub core : C
  pub elf_path : List ℕ
  pub entry_pc : ℕ

-- The constructor, with a core whose program counter is 0.
abbrev pub riscv_tlm_cpu : {C : Type 0} → C → RiscvTlmCpu C
riscv_tlm_cpu core = record { core = core; elf_path = []; entry_pc = 0 }

-- `load_elf` of the wrapper.
abbrev pub set_elf_path : {C : Type 0} → List ℕ → RiscvTlmCpu C → RiscvTlmCpu C
set_elf_path path cpu = record cpu { elf_path = path }

abbrev is_empty : List ℕ → Bool
is_empty [] = true
is_empty (c ∷ path) = false

-- The payload of an injected interrupt.
abbrev pub injection : ℕ → Payload
injection cause = record {
  command = ignore_command;
  address = 0;
  buffer = some (le_bytes 4 cause);
  data_length = 4;
  streaming_width = 4;
  byte_enables = false;
  dmi_allowed = false;
  response = incomplete_response;
}

module _ {C : Type 0} (model : TlmCore C) where
  unfoldable pub raise_irq : ℕ → RiscvTlmCpu C → RiscvTlmCpu C
  raise_irq cause cpu = record cpu { core = (model.irq_line cpu.core (injection cause) 0).0 }

  unfoldable pub set_irq : ℕ → Bool → RiscvTlmCpu C → RiscvTlmCpu C
  unfolding raise_irq
  set_irq cause level cpu = if level then raise_irq cause cpu else cpu

  unfoldable pub reset_cpu : RiscvTlmCpu C → RiscvTlmCpu C
  reset_cpu cpu = record cpu { core = model.set_pc (cpu.entry_pc % 2 ^ 32) cpu.core }

  unfoldable pub tlm_backend : CpuBase (RiscvTlmCpu C)
  unfolding set_irq raise_irq reset_cpu
  tlm_backend = record (cpu_base reset_cpu (λ cpu. model.pc cpu.core)) {
    raise_irq = raise_irq;
    set_irq = set_irq;
    get_instret = λ cpu. model.instructions cpu.core;
  }

  -- The causes of the calls with a high level.
  abbrev pub high_causes : List (ℕ × Bool) → List ℕ
  high_causes [] = []
  high_causes ((cause, level) ∷ calls) =
      if level then cause ∷ high_causes calls else high_causes calls

  -- The core after the injection of causes, in order.
  unfoldable pub inject_all : List ℕ → C → C
  inject_all [] c = c
  inject_all (cause ∷ causes) c = inject_all causes (model.irq_line c (injection cause) 0).0

  -- Any calls of `set_irq` inject an interrupt for each call with a high level, in their order, also
  -- where the level was high before; calls with a low level do nothing.
  pub set_irqs-inject_all :
      (calls : List (ℕ × Bool)) (cpu : RiscvTlmCpu C)
      → set_irqs tlm_backend calls cpu
        ≡ record cpu { core = inject_all (high_causes calls) cpu.core }
  unfolding set_irqs tlm_backend inject_all
  set_irqs-inject_all [] cpu = refl
  set_irqs-inject_all ((cause, true) ∷ calls) cpu = set_irqs-inject_all calls (raise_irq cause cpu)
  set_irqs-inject_all ((cause, false) ∷ calls) cpu = set_irqs-inject_all calls cpu

module _ {C W : Type 0} (model : TlmCore C) (dbg : W → Payload → W × Payload × ℕ)
    (files : List ℕ → Option (List ℕ)) where
  -- `files` are the files that can be opened. An exception leaves the processor as it is.
  unfoldable pub start_of_simulation : W → RiscvTlmCpu C → W × Outcome (RiscvTlmCpu C)
  start_of_simulation w cpu =
      if is_empty cpu.elf_path
      then (w, done cpu)
      else let (w', r) = load_elf dbg w (files cpu.elf_path) in
        (
          w',
          r >>= λ entry.
              done (record cpu { entry_pc = entry; core = model.set_pc (entry % 2 ^ 32) cpu.core }),
        )
