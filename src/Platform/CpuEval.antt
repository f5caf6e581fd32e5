-- ===== src/Platform/CpuEval.antt =====
-- platforms/riscv_cpu_eval/src/riscv_cpu_eval_top.cpp, for both backends of the processor. The
-- components behind the sockets are parameters of the router's model.
use cdc_vp.Base.{
  ℕ, suc, ◌≡◌, refl, Bool, true, false, not, ◌&&◌, Option, none, some, List, [], ◌∷◌, if◌then◌else◌,
  replicate, arith,
}
use cdc_vp.Range.{AddressRange}
use cdc_vp.Router.{BusRouter, bus_router, CpuPort, cpu_port}
use cdc_vp.Router.Decode.{IsMap}
use cdc_vp.Router.Build.{add_targets}
use cdc_vp.Cpu.{CpuBase}
use cdc_vp.Cpu.Vp.{Iss, RiscvVpCpu, vp_backend}
use cdc_vp.Cpu.Tlm.{TlmCore, RiscvTlmCpu, tlm_backend, inject_all, raise_irq}

abbrev pub ram_base : ℕ
ram_base = 0x80000000

abbrev pub ram_size : ℕ
ram_size = 0x10000

abbrev pub uart_base : ℕ
uart_base = 0x10000000

abbrev pub timer_base : ℕ
timer_base = 0x10010000

abbrev pub region_size : ℕ
region_size = 0x1000

abbrev pub cause_machine_timer : ℕ
cause_machine_timer = 7

-- The regions in the order of the calls of `add_target`.
abbrev pub regions : List AddressRange
regions =
    record { base = ram_base; size = ram_size }
    ∷ record { base = uart_base; size = region_size }
    ∷ record { base = timer_base; size = region_size }
    ∷ []

-- The ports that the buses of the processor are bound to, the instruction bus first; `none` is an
-- exception of `cpu_port`.
unfoldable pub bind_buses : Bool → BusRouter → Option (List CpuPort)
bind_buses unified r =
    if unified
    then elim (cpu_port r 0) [ none ↦ none | some p ↦ some (p ∷ []) ]
    else elim (cpu_port r 0) [
      | none ↦ none
      | some p ↦ elim (cpu_port r 1) [ none ↦ none | some q ↦ some (p ∷ q ∷ []) ]
    ]

-- A router for a processor, its buses bound and its regions mapped; `none` is an exception.
unfoldable pub connect : ℕ → Bool → List AddressRange → Option (List CpuPort × BusRouter)
unfolding bind_buses
connect num_targets unified areas =
    let r = bus_router num_targets (if unified then 1 else 2) in
    elim (bind_buses unified r) [
      | none ↦ none
      | some ports ↦ elim (add_targets r areas) [ none ↦ none | some r' ↦ some (ports, r') ]
    ]

-- `impl`
unfoldable pub cpu_eval_bus : Bool → Option (List CpuPort × BusRouter)
unfolding connect
cpu_eval_bus unified = connect 3 unified regions

-- What stands when `impl` is constructed.
abbrev pub bus_map : Bool → BusRouter
bus_map unified = record {
  ranges = regions;
  num_sockets = 3;
  num_extra_ports = if unified then 0 else 1;
}

pub regions-IsMap : IsMap regions
regions-IsMap = ground arith

unfoldable pub on_timer_irq : {C : Type 0} → CpuBase C → C → C
on_timer_irq cpu c = cpu.raise_irq cause_machine_timer c

-- The method is sensitive to the rising edges of the timer's line, here at its next levels.
pub timer_levels : {C : Type 0} → CpuBase C → Bool → List Bool → C → C
unfolding on_timer_irq
timer_levels cpu level [] c = c
timer_levels cpu level (l ∷ levels) c =
    timer_levels cpu l levels (if not level && l then on_timer_irq cpu c else c)

-- The number of rising edges.
abbrev pub rises : Bool → List Bool → ℕ
rises level [] = 0
rises level (l ∷ levels) = if not level && l then suc (rises l levels) else rises l levels

module _ {C D : Type 0} (iss : Iss C) (model : TlmCore D) where
  vp_lost :
      (level : Bool) (levels : List Bool) (vp : RiscvVpCpu C)
      → timer_levels (vp_backend iss) level levels vp ≡ vp
  unfolding timer_levels vp_backend
  vp_lost level [] vp = refl
  vp_lost true (l ∷ levels) vp = vp_lost l levels vp
  vp_lost false (true ∷ levels) vp = vp_lost true levels vp
  vp_lost false (false ∷ levels) vp = vp_lost false levels vp

  tlm_injected :
      (level : Bool) (levels : List Bool) (tlm : RiscvTlmCpu D)
      → timer_levels (tlm_backend model) level levels tlm ≡ record tlm {
        core = inject_all model (replicate (rises level levels) cause_machine_timer) tlm.core;
      }
  unfolding timer_levels tlm_backend inject_all
  tlm_injected level [] tlm = refl
  tlm_injected true (l ∷ levels) tlm = tlm_injected l levels tlm
  tlm_injected false (true ∷ levels) tlm =
      tlm_injected true levels (raise_irq model cause_machine_timer tlm)
  tlm_injected false (false ∷ levels) tlm = tlm_injected false levels tlm

  -- Over any levels of the timer's line, the riscv-tlm backend injects the machine timer interrupt
  -- into its core once per rising edge; the riscv-vp backend does not implement `raise_irq`, so
  -- nothing ever reaches its core and the processor is left as it was.
  pub timer_levels-backends :
      (level : Bool) (levels : List Bool) (vp : RiscvVpCpu C) (tlm : RiscvTlmCpu D)
      → (timer_levels (vp_backend iss) level levels vp ≡ vp)
        × (timer_levels (tlm_backend model) level levels tlm ≡ record tlm {
          core = inject_all model (replicate (rises level levels) cause_machine_timer) tlm.core;
        })
  timer_levels-backends level levels vp tlm =
      (vp_lost level levels vp, tlm_injected level levels tlm)
