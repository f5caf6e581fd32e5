-- ===== src/Cpu/Boot.antt =====
-- The start of the simulation with an image.
use cdc_vp.Base.{ℕ, ◌%◌, ◌^◌, ◌<◌, ◌≡◌, ap, false, some, Option, List, ◌∷◌, length}
use cdc_vp.Tlm.{Payload}
use cdc_vp.Elf.{done, ◌>>=◌, Header, header, Segment}
use cdc_vp.Elf.Load.{segments, AllInFile}
use cdc_vp.Elf.Install.{HasMemory, AllInRegion, Separate, Holds, load_elf-Holds}
use cdc_vp.Cpu.Vp.{Iss, IssLaws, RiscvVpCpu, initial_sp, get_pc, reset_cpu, start_of_simulation}

module _ {C W : Type 0} (core : Iss C) (laws : IssLaws core) (dbg : W → Payload → W × Payload × ℕ)
    (files : List ℕ → Option (List ℕ)) {base size : ℕ} (bus : HasMemory dbg base size) where
  -- The simulation of a riscv-vp processor that was given an image to load starts with the segments
  -- of the image in the RAM and with the program counter at the entry point, cut to 32 bits; and a
  -- reset brings the program counter back there.
  pub start_of_simulation-Holds :
      (w : W) (cpu : RiscvVpCpu C) (ch : ℕ) (path b : List ℕ) (h : Header) (ss : List Segment)
      → cpu.elf_path ≡ ch ∷ path
      → files (ch ∷ path) ≡ some b
      → (bus.memory w).read_only ≡ false
      → length (bus.memory w).storage ≡ size
      → length b < 2 ^ 64
      → header b ≡ done h
      → segments b h ≡ done ss
      → AllInFile b ss
      → AllInRegion base size ss
      → Separate ss
      → let (w', r) = start_of_simulation core dbg files w cpu in
        Holds base b (bus.memory w').storage ss
        × ((cpu' : RiscvVpCpu C) × (r ≡ done cpu')
            × (get_pc core cpu' ≡ h.entry % 2 ^ 32)
            × (get_pc core (reset_cpu core cpu') ≡ h.entry % 2 ^ 32))
  unfolding start_of_simulation reset_cpu
  start_of_simulation-Holds w cpu ch path b h ss named opened ram fits small e t inside region
        apart =
      let (ends, holds, others, same) =
        load_elf-Holds dbg bus w b h ss ram fits small e t inside region apart in
      let started : RiscvVpCpu C = record {
        iss = core.init (h.entry % 2 ^ 32) initial_sp cpu.iss;
        elf_path = ch ∷ path;
        entry_pc = h.entry;
      } in
      rw (named, opened)
        (
          holds,
          (
            started,
            ap
                (λ r. r >>= λ entry. done (record {
                  iss = core.init (entry % 2 ^ 32) initial_sp cpu.iss;
                  elf_path = ch ∷ path;
                  entry_pc = entry;
                }))
                ends,
            laws.pc_init (h.entry % 2 ^ 32) initial_sp cpu.iss,
            laws.pc_set (h.entry % 2 ^ 32) started.iss,
          ),
        )
