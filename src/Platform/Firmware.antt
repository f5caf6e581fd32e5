-- ===== src/Platform/Firmware.antt =====
-- riscv_custom_soc with the riscv-vp backend, from its command line to the first instruction: `sc_main`,
-- the ELF loader, the router and the RAM behind it.
use cdc_vp.Base.{
  ℕ, zero, suc, ◌%◌, ◌^◌, ◌<◌, ◌≤◌, ◌≡◌, refl, ◌∙◌, Bool, false, Option, some, List, [], ◌∷◌,
  length, arith,
}
use cdc_vp.Tlm.{Payload, SimTime, nanoseconds}
use cdc_vp.Memory
use cdc_vp.Memory.{MemoryTlm}
use cdc_vp.Router.{transport_dbg}
use cdc_vp.Elf.{done, Header, header, Segment}
use cdc_vp.Elf.Load.{segments, AllInFile}
use cdc_vp.Elf.Install.{HasMemory, AllInRegion, Separate, Holds}
use cdc_vp.Elf.Bus.{router-HasMemory}
use cdc_vp.Cpu.Vp.{Iss, IssLaws, RiscvVpCpu, get_pc, reset_cpu, start_of_simulation}
use cdc_vp.Cpu.Boot.{start_of_simulation-Holds}
use cdc_vp.Platform.CustomSoc.{CustomSoc, bus_map, regions-IsMap, ram_base, ram_size}
use cdc_vp.Platform.Options.{Text, get_opt}
use cdc_vp.Platform.Start.{fw_option, quantum_option, default_quantum, start, start_lem}

module _ {U I : Type 0} (unified : Bool)
    (others : ℕ → CustomSoc U I → Payload → CustomSoc U I × Payload × ℕ) where
  -- The debug transport of the component behind a socket. Only the RAM has one of its own; what the
  -- sockets of the others do with it is a parameter.
  unfoldable pub debug_targets : ℕ → CustomSoc U I → Payload → CustomSoc U I × Payload × ℕ
  debug_targets zero w trans =
      let (m, t, n) = Memory.transport_dbg w.ram trans in (record w { ram = m }, t, n)
  debug_targets (suc k) w trans = others k w trans

  unfoldable pub debug_bus : CustomSoc U I → Payload → CustomSoc U I × Payload × ℕ
  unfolding debug_targets
  debug_bus = transport_dbg debug_targets (bus_map unified)

  debug_bus-HasMemory : HasMemory debug_bus ram_base ram_size
  unfolding debug_bus router-HasMemory
  debug_bus-HasMemory =
      router-HasMemory debug_targets (bus_map unified) 0 (λ w. w.ram) (λ w m. record w { ram = m })
        (λ w m. refl) (λ w trans. refl) regions-IsMap (omega arith)

  module _ {C : Type 0} (core : Iss C) (laws : IssLaws core) (stoull : Text → Option ℕ)
      (ns : ℕ → SimTime) (files : Text → Option (List ℕ)) where
    -- The system that is started with `--fw` and the path of an image, whose segments stand in the
    -- file, are shorter than 4 GiB and lie apart from each other in the 64 KiB of its RAM, starts the
    -- simulation with no exception, if the quantum is a number: the segments are in the RAM, the program
    -- counter is the entry point, cut to 32 bits, and a reset brings it back there. The
    -- global quantum is at least the 10 nanoseconds of a cycle of the core, and the one asked for if that
    -- is.
    pub firmware_starts :
        (args : List Text) (iss : C) (quantum_ns : ℕ) (w : CustomSoc U I) (ch : ℕ) (path b : List ℕ)
        (h : Header) (ss : List Segment)
        → stoull (get_opt args quantum_option default_quantum) ≡ some quantum_ns
        → get_opt args fw_option [] ≡ ch ∷ path
        → files (ch ∷ path) ≡ some b
        → w.ram.read_only ≡ false
        → length w.ram.storage ≡ ram_size
        → length b < 2 ^ 64
        → header b ≡ done h
        → segments b h ≡ done ss
        → AllInFile b ss
        → AllInRegion ram_base ram_size ss
        → Separate ss
        → (cpu : RiscvVpCpu C) × (gq : SimTime) × (start stoull ns args iss ≡ some (cpu, gq))
          × (nanoseconds 10 ≤ gq)
          × (nanoseconds 10 ≤ ns quantum_ns → gq ≡ ns quantum_ns)
          × (let (w', r) = start_of_simulation core debug_bus files w cpu in
              Holds ram_base b w'.ram.storage ss
              × ((cpu' : RiscvVpCpu C) × (r ≡ done cpu')
                  × (get_pc core cpu' ≡ h.entry % 2 ^ 32)
                  × (get_pc core (reset_cpu core cpu') ≡ h.entry % 2 ^ 32)))
    unfolding debug_bus-HasMemory
    firmware_starts args iss q w ch path b h ss number named opened ram fits small e t inside region
          apart =
        let (cpu, gq, started, same_iss, told, least, kept) =
          start_lem stoull ns args iss q number in
        (
          cpu,
          gq,
          started,
          least,
          kept,
          start_of_simulation-Holds core laws debug_bus files debug_bus-HasMemory w cpu ch path b h
              ss (told ∙ named) opened ram fits small e t inside region apart,
        )
