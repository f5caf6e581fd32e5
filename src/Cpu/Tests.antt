-- ===== src/Cpu/Tests.antt =====
-- The wrappers with a small core.
use cdc_vp.Base.{
  ℕ, ◌+◌, ◌≡◌, refl, Bool, true, false, Option, some, List, [], ◌∷◌, length, replicate, arith,
}
use cdc_vp.Tlm.{Payload}
use cdc_vp.Memory
use cdc_vp.Memory.{MemoryTlm}
use cdc_vp.Router.{BusRouter, transport_dbg}
use cdc_vp.Elf.{done}
use cdc_vp.Elf.Sample.{image, image_header, image_segment, image-header, image-segments}
use cdc_vp.Elf.Install.{HasMemory, Holds}
use cdc_vp.Elf.Bus.{router-HasMemory}
use cdc_vp.Cpu.{set_irqs}
use cdc_vp.Cpu.Vp.{
  RiscvVpCpu, riscv_vp_cpu, set_elf_path, get_pc, reset_cpu, start_of_simulation, vp_backend,
}
use cdc_vp.Cpu.Sample.{SmallCore, small_iss, small_laws, quiet}
use cdc_vp.Cpu.Levels.{last_level, set_irqs-last_level}
use cdc_vp.Cpu.Boot.{start_of_simulation-Holds}
use cdc_vp.Cpu.Tlm.{TlmCore, RiscvTlmCpu, tlm_backend, inject_all, set_irqs-inject_all}

abbrev calls : List (ℕ × Bool)
calls = (11, true) ∷ (7, true) ∷ (5, true) ∷ (11, false) ∷ []

set_irqs-last_level_example :
    let cpu' = set_irqs (vp_backend small_iss) calls (riscv_vp_cpu quiet) in
    (cpu'.iss.msip ≡ last_level 3 false calls)
    × (cpu'.iss.mtip ≡ last_level 7 false calls)
    × (cpu'.iss.meip ≡ last_level 11 false calls)
    × (cpu'.entry_pc ≡ 0)
set_irqs-last_level_example = set_irqs-last_level small_iss small_laws calls (riscv_vp_cpu quiet)

-- A core that counts the interrupts that it gets.
abbrev counter : TlmCore ℕ
counter = record {
  irq_line = λ c trans delay. (c + 1, trans, delay);
  set_pc = λ v c. c;
  pc = λ c. 0;
  instructions = λ c. c;
}

abbrev counting : RiscvTlmCpu ℕ
counting = record { core = 0; elf_path = []; entry_pc = 0 }

set_irqs-inject_all_example :
    set_irqs (tlm_backend counter) calls counting
    ≡ record counting { core = inject_all counter (11 ∷ 7 ∷ 5 ∷ []) 0 }
set_irqs-inject_all_example = set_irqs-inject_all counter calls counting

abbrev ram : MemoryTlm
ram = record { storage = replicate 32 0; read_only = false; access_latency = 0 }

abbrev one_target : BusRouter
one_target = record {
  ranges = record { base = 0x80000000; size = 32 } ∷ [];
  num_sockets = 1;
  num_extra_ports = 0;
}

abbrev to_ram : ℕ → MemoryTlm → Payload → MemoryTlm × Payload × ℕ
to_ram idx m trans = Memory.transport_dbg m trans

bus-HasMemory : HasMemory (transport_dbg to_ram one_target) 0x80000000 32
bus-HasMemory =
    router-HasMemory to_ram one_target 0 (λ m. m) (λ w m. m) (λ w m. refl) (λ w trans. refl)
      (omega arith, tt, tt) (omega arith)

ram_is_writable : (bus-HasMemory.memory ram).read_only ≡ false
unfolding bus-HasMemory router-HasMemory
ram_is_writable = refl

ram_size : length (bus-HasMemory.memory ram).storage ≡ 32
unfolding bus-HasMemory router-HasMemory
ram_size = refl

-- Every path is the image.
abbrev files : List ℕ → Option (List ℕ)
files path = some image

abbrev prepared : RiscvVpCpu SmallCore
prepared = set_elf_path (b'f' ∷ []) (riscv_vp_cpu quiet)

start_of_simulation-Holds_example :
    let (w', r) =
      start_of_simulation small_iss (transport_dbg to_ram one_target) files ram prepared in
    Holds 0x80000000 image (bus-HasMemory.memory w').storage (image_segment ∷ [])
    × ((cpu' : RiscvVpCpu SmallCore) × (r ≡ done cpu')
        × (get_pc small_iss cpu' ≡ 0x80000010)
        × (get_pc small_iss (reset_cpu small_iss cpu') ≡ 0x80000010))
start_of_simulation-Holds_example =
    start_of_simulation-Holds small_iss small_laws (transport_dbg to_ram one_target) files
      bus-HasMemory ram prepared b'f' [] image image_header (image_segment ∷ []) refl refl
      ram_is_writable ram_size (omega arith) image-header image-segments (omega arith) (omega arith)
      (tt, tt)
