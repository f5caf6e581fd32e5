-- ===== src/Platform/Tests.antt =====
-- The platforms with small devices in place of the UART, the I2C controller and the timer.
use cdc_vp.Base.{
  ℕ, ◌⊎◌, not, ◌==◌, Option, arith, ◌+◌, ◌≤◌, ◌≡◌, refl, true, false, some, Option, List, [], ◌∷◌,
  ◌++◌, length, length-replicate, replicate, overwrite, le_bytes,
}
use cdc_vp.Tlm.{Payload, read_command, write_command, SimTime, nanoseconds, ok_response, respond}
use cdc_vp.Clint.{clint_tlm}
use cdc_vp.Plic.Single.{single}
use cdc_vp.Device.{Transport}
use cdc_vp.Stub.{ok, access}
use cdc_vp.Stub.Words.{fed}
use cdc_vp.Cpu.Vp.{RiscvVpCpu, riscv_vp_cpu, vp_backend}
use cdc_vp.Cpu.Tlm.{TlmCore, RiscvTlmCpu, tlm_backend, inject_all}
use cdc_vp.Platform.MiniTlm
use cdc_vp.Platform.MiniTlm.{MiniTlm, run_reaches_wait}
use cdc_vp.Platform.MiniSoc
use cdc_vp.Platform.MiniSoc.{MiniSoc, i2c_set, soc_reaches_wait}
use cdc_vp.Router.{target_socket, extra_port}
use cdc_vp.Router.Decode.{IsMap}
use cdc_vp.Platform.Maps.{platforms_construct}
use cdc_vp.Platform.MiniTlm.{mini_tlm_bus}
use cdc_vp.Platform.MiniSoc.{mini_soc_bus}
use cdc_vp.Platform.CpuEval
use cdc_vp.Platform.CustomSoc
use cdc_vp.Platform.CustomSoc.{custom_soc_bus, targets}
use cdc_vp.Platform.CpuEval.{cpu_eval_bus, timer_levels, timer_levels-backends}
use cdc_vp.Platform.CustomSoc.{CustomSoc, plic_base, i2c_irq, bus, interrupt_round}
use cdc_vp.Platform.Options.{Text, get_opt, has_flag, parse_config_path, same}
use cdc_vp.Elf.{done}
use cdc_vp.Elf.Install.{Holds}
use cdc_vp.Elf.Sample.{image, image_header, image_segment, image-header, image-segments}
use cdc_vp.Cpu.Vp.{get_pc, reset_cpu, start_of_simulation}
use cdc_vp.Cpu.Sample.{SmallCore, small_iss, small_laws, quiet}
use cdc_vp.Clint
use cdc_vp.Plic.{plic_tlm, any_eligible}
use cdc_vp.Range.{contains}
use cdc_vp.Router
use cdc_vp.Router.{decode}
use cdc_vp.Platform.CustomSoc.{clint_base, num_plic_sources}
use cdc_vp.Platform.System.{System, Reach, system_bus, system_targets, calls_at, set_line, sense}
use cdc_vp.Platform.Interrupts.{Reach-pending}
use cdc_vp.Platform.Firmware.{debug_bus, firmware_starts}
use cdc_vp.Platform.Start.{fw_option, start, start_lem}

-- A device that keeps the addresses of the transactions that it gets, and answers them by OK.
abbrev recorder : Transport (List ℕ)
recorder seen trans delay = (seen ++ (trans.address ∷ []), respond trans ok_response, delay)

abbrev mini_tlm : MiniTlm (List ℕ) (List ℕ)
mini_tlm = record {
  uart = [];
  timer = [];
  ram = record { storage = replicate 0x1000 0; read_only = false; access_latency = 0 };
}

zeros : length mini_tlm.ram.storage ≡ 0x1000
zeros = length-replicate {A = ℕ} 0x1000 0

run_reaches_wait_example :
    (MiniTlm.run recorder recorder mini_tlm ≡ (
      ok tt,
      record {
        uart = fed recorder 0 MiniTlm.hello [];
        timer = 0 ∷ [];
        ram = record mini_tlm.ram {
          storage = overwrite mini_tlm.ram.storage 0 (le_bytes 4 0xCAFEBABE);
        };
      },
    ))
    × ((u : MiniTlm (List ℕ) (List ℕ))
        → MiniTlm.run_after_irq recorder recorder u
          ≡ (ok tt, record u { uart = fed recorder 0 MiniTlm.fired u.uart }))
run_reaches_wait_example =
    run_reaches_wait recorder recorder mini_tlm (λ x v. refl) (λ x. refl) refl zeros

abbrev tlm_core : TlmCore ℕ
tlm_core = record {
  irq_line = λ c trans delay. (c + 1, trans, delay);
  set_pc = λ v c. c;
  pc = λ c. 0;
  instructions = λ c. c;
}

abbrev vp : RiscvVpCpu SmallCore
vp = riscv_vp_cpu quiet

abbrev tlm : RiscvTlmCpu ℕ
tlm = record { core = 0; elf_path = []; entry_pc = 0 }

timer_levels-backends_example :
    (timer_levels (vp_backend small_iss) false (true ∷ false ∷ true ∷ []) vp ≡ vp)
    × (timer_levels (tlm_backend tlm_core) false (true ∷ false ∷ true ∷ []) tlm
        ≡ record tlm { core = inject_all tlm_core (7 ∷ 7 ∷ []) 0 })
timer_levels-backends_example =
    timer_levels-backends small_iss tlm_core false (true ∷ false ∷ true ∷ []) vp tlm

-- Source 1 is enabled with priority 3 over the threshold 2.
abbrev custom_soc : CustomSoc (List ℕ) (List ℕ)
custom_soc = record {
  ram = record { storage = []; read_only = false; access_latency = 0 };
  uart = [];
  clint = clint_tlm;
  plic = single 0 false 3 2 2 false false false;
  i2c = [];
  now = 0;
  faulted = false;
}

abbrev claim : Payload
claim = access read_command (plic_base + 0x200004) (0 ∷ 0 ∷ 0 ∷ 0 ∷ [])

abbrev complete : Payload
complete = access write_command (plic_base + 0x200004) (le_bytes 4 1)

interrupt_round_example :
    let w1 = i2c_irq true custom_soc in
    let (w2, t2, d2) = bus true recorder recorder w1 claim 0 in
    let w3 = i2c_irq true w2 in
    let (w4, t4, d4) = bus true recorder recorder w3 complete 0 in
    (w1.plic.irq ≡ true)
    × (t2.buffer ≡ some (1 ∷ 0 ∷ 0 ∷ 0 ∷ []))
    × (t2.response ≡ ok_response)
    × (w2.plic.irq ≡ false)
    × (w3.plic.irq ≡ false)
    × (t4.response ≡ ok_response)
    × (w4 ≡ record custom_soc { plic = single 0 false 3 2 2 true false true })
interrupt_round_example =
    interrupt_round true recorder recorder 0 false 3 2 2 refl refl custom_soc false true claim
      complete 0 0 (0 ∷ 0 ∷ 0 ∷ 0 ∷ []) (le_bytes 4 1) refl (refl, refl, refl, refl)
      (refl, refl, refl, refl) refl

-- A parser that knows one text.
abbrev thousand : Text → Option ℕ
thousand t = some 1000

start_lem_example :
    (cpu : RiscvVpCpu ℕ) × (gq : SimTime) × (start thousand nanoseconds [] 0 ≡ some (cpu, gq))
    × (cpu.iss ≡ 0)
    × (cpu.elf_path ≡ get_opt [] (b'-' ∷ b'-' ∷ b'f' ∷ b'w' ∷ []) [])
    × (nanoseconds 10 ≤ gq)
    × (nanoseconds 10 ≤ nanoseconds 1000 → gq ≡ nanoseconds 1000)
start_lem_example = start_lem thousand nanoseconds [] 0 1000 refl

abbrev fw : Text
fw = b'-' ∷ b'f' ∷ []

options :
    (get_opt (fw ∷ (b'a' ∷ []) ∷ fw ∷ (b'b' ∷ []) ∷ []) fw [] ≡ b'a' ∷ [])
    × (get_opt (fw ∷ []) fw (b'd' ∷ []) ≡ b'd' ∷ [])
    × (has_flag ((b'a' ∷ []) ∷ fw ∷ []) fw ≡ true)
    × (parse_config_path [] ((b'-' ∷ b'c' ∷ []) ∷ fw ∷ []) ≡ fw)
unfolding get_opt has_flag parse_config_path same
options = (refl, refl, refl, refl)

platforms_construct_example :
    (mini_tlm_bus ≡ some MiniTlm.bus_map)
    × (mini_soc_bus ≡ some MiniSoc.bus_map)
    × (cpu_eval_bus false ≡ some (target_socket ∷ extra_port 0 ∷ [], CpuEval.bus_map false))
    × (custom_soc_bus false ≡ some (target_socket ∷ extra_port 0 ∷ [], CustomSoc.bus_map false))
    × IsMap MiniTlm.regions
    × IsMap MiniSoc.regions
    × IsMap CpuEval.regions
    × IsMap CustomSoc.regions
platforms_construct_example = platforms_construct false

abbrev mini_soc : MiniSoc (List ℕ) (List ℕ)
mini_soc = record {
  uart = [];
  i2c = [];
  ram = record { storage = replicate 0x10000 0; read_only = false; access_latency = 0 };
}

soc_reaches_wait_example :
    (MiniSoc.run recorder recorder mini_soc ≡ (
      ok tt,
      record {
        uart = fed recorder 0 MiniSoc.hello [];
        i2c = 0x4C ∷ 0x00 ∷ 0x04 ∷ [];
        ram = record mini_soc.ram {
          storage = overwrite mini_soc.ram.storage 0 (le_bytes 4 0xCAFEBABE);
        };
      },
    ))
    × ((u : MiniSoc (List ℕ) (List ℕ))
        → MiniSoc.run_after_irq recorder recorder u
          ≡ (ok tt, record u { uart = fed recorder 0 MiniSoc.fired u.uart }))
unfolding i2c_set
soc_reaches_wait_example =
    soc_reaches_wait recorder recorder mini_soc (λ x v. refl) (λ x. refl) (λ x. refl) (λ x. refl)
      refl (length-replicate {A = ℕ} 0x10000 0)

-- A transport that moves nothing.
abbrev no_debug :
    ℕ → CustomSoc (List ℕ) (List ℕ) → Payload → CustomSoc (List ℕ) (List ℕ) × Payload × ℕ
no_debug idx w trans = (w, trans, 0)

abbrev big_soc : CustomSoc (List ℕ) (List ℕ)
big_soc = record custom_soc {
  ram = record { storage = replicate 0x10000 0; read_only = false; access_latency = 0 };
}

abbrev image_args : List Text
image_args = fw_option ∷ (b'a' ∷ []) ∷ []

abbrev files : Text → Option (List ℕ)
files path = some image

image_path : get_opt image_args fw_option [] ≡ b'a' ∷ []
unfolding get_opt same
image_path = refl

firmware_starts_example :
    (cpu : RiscvVpCpu SmallCore) × (gq : SimTime) × (start thousand nanoseconds image_args quiet
      ≡ some (cpu, gq))
    × (nanoseconds 10 ≤ gq)
    × (nanoseconds 10 ≤ nanoseconds 1000 → gq ≡ nanoseconds 1000)
    × (let (w', r) = start_of_simulation small_iss (debug_bus true no_debug) files big_soc cpu in
        Holds 0x80000000 image w'.ram.storage (image_segment ∷ [])
        × ((cpu' : RiscvVpCpu SmallCore) × (r ≡ done cpu')
            × (get_pc small_iss cpu' ≡ 0x80000010)
            × (get_pc small_iss (reset_cpu small_iss cpu') ≡ 0x80000010)))
firmware_starts_example =
    firmware_starts true no_debug small_iss small_laws thousand nanoseconds files image_args quiet
      1000 big_soc b'a' [] image image_header (image_segment ∷ []) refl image_path refl refl
      (length-replicate {A = ℕ} 0x10000 0) (omega arith) image-header image-segments (omega arith)
      (omega arith) (tt, tt)

-- The processor sets `msip`, and the line of the I2C controller rises.
abbrev fresh_system : System (List ℕ) (List ℕ) SmallCore
fresh_system = record {
  soc = record custom_soc { plic = plic_tlm num_plic_sources };
  cpu = riscv_vp_cpu quiet;
}

abbrev set_msip : Payload
set_msip = access write_command clint_base (le_bytes 4 1)

abbrev told_system : System (List ℕ) (List ℕ) SmallCore
told_system = (system_bus true recorder recorder small_iss fresh_system set_msip 0).0

abbrev informed_system : System (List ℕ) (List ℕ) SmallCore
informed_system = sense small_iss (set_line true told_system)

msip_reached : Reach true recorder recorder small_iss fresh_system informed_system false
unfolding system_bus system_targets calls_at targets Router.b_transport decode contains
    Clint.b_transport clint_tlm plic_tlm
msip_reached = Reach.sensed (Reach.line true (Reach.access set_msip 0 Reach.here refl))

Reach-pending_example :
    (informed_system.cpu.iss.msip ≡ not (informed_system.soc.clint.msip == 0))
    × (informed_system.cpu.iss.mtip ≡ informed_system.soc.clint.timer_irq)
    × ((informed_system.cpu.iss.meip ≡ any_eligible informed_system.soc.plic) ⊎ (false ≡ true))
Reach-pending_example =
    Reach-pending true recorder recorder small_iss small_laws fresh_system refl refl refl refl refl
      msip_reached
