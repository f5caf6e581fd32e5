-- ===== src/Platform/Maps.antt =====
-- The maps of the four platforms.
use cdc_vp.Base.{
  ℕ, ◌-◌, ◌≡◌, refl, ap, ◌∙◌, Bool, true, false, none, some, Option, List, [], ◌∷◌, if◌then◌else◌,
  leb, length,
}
use cdc_vp.Range.{AddressRange}
use cdc_vp.Router.{BusRouter, bus_router, CpuPort, target_socket, extra_port, cpu_port}
use cdc_vp.Router.Decode.{IsMap}
use cdc_vp.Router.Build.{add_targets, add_targets-bus_router}
use cdc_vp.Platform.MiniTlm
use cdc_vp.Platform.MiniTlm.{mini_tlm_bus}
use cdc_vp.Platform.MiniSoc
use cdc_vp.Platform.MiniSoc.{mini_soc_bus}
use cdc_vp.Platform.CpuEval
use cdc_vp.Platform.CpuEval.{bind_buses, connect, cpu_eval_bus}
use cdc_vp.Platform.CustomSoc
use cdc_vp.Platform.CustomSoc.{custom_soc_bus}

-- The ports for one bus, or for two.
abbrev ports_of : Bool → List CpuPort
ports_of unified = if unified then target_socket ∷ [] else target_socket ∷ extra_port 0 ∷ []

mapped : List CpuPort → Option BusRouter → Option (List CpuPort × BusRouter)
mapped ports r = elim r [ none ↦ none | some r' ↦ some (ports, r') ]

connect-mapped :
    (n : ℕ) (unified : Bool) (areas : List AddressRange)
    → connect n unified areas
      ≡ mapped (ports_of unified) (add_targets (bus_router n (if unified then 1 else 2)) areas)
unfolding connect mapped bind_buses cpu_port bus_router
connect-mapped n true areas = refl
connect-mapped n false areas = refl

mapped-if :
    (ports : List CpuPort) (r : BusRouter) (b : Bool)
    → mapped ports (if b then some r else none) ≡ (if b then some (ports, r) else none)
unfolding mapped
mapped-if ports r true = refl
mapped-if ports r false = refl

-- A processor with one bus or with two is connected to a router for `n` targets exactly if no more
-- than `n` regions are mapped; its buses then have ports of their own, and the regions are mapped in
-- the order of the calls.
pub connect_lem :
    (n : ℕ) (unified : Bool) (areas : List AddressRange)
    → connect n unified areas ≡ (
        if leb (length areas) n
        then some
            (ports_of unified, record (bus_router n (if unified then 1 else 2)) { ranges = areas })
        else none)
connect_lem n unified areas =
    connect-mapped n unified areas
    ∙ ap (mapped (ports_of unified)) (add_targets-bus_router n (if unified then 1 else 2) areas)
    ∙ mapped-if (ports_of unified)
        (record (bus_router n (if unified then 1 else 2)) { ranges = areas }) (leb (length areas) n)

extra_ports : (unified : Bool) → (if unified then 1 else 2) - 1 ≡ (if unified then 0 else 1)
extra_ports true = refl
extra_ports false = refl

-- The four platforms are constructed with no exception, with either backend, and their maps have
-- no overlap and no region that reaches 2 ^ 64.
pub platforms_construct :
    (unified : Bool)
    → (mini_tlm_bus ≡ some MiniTlm.bus_map)
      × (mini_soc_bus ≡ some MiniSoc.bus_map)
      × (cpu_eval_bus unified ≡ some (ports_of unified, CpuEval.bus_map unified))
      × (custom_soc_bus unified ≡ some (ports_of unified, CustomSoc.bus_map unified))
      × IsMap MiniTlm.regions
      × IsMap MiniSoc.regions
      × IsMap CpuEval.regions
      × IsMap CustomSoc.regions
unfolding mini_tlm_bus mini_soc_bus cpu_eval_bus custom_soc_bus bus_router
platforms_construct unified = (
  add_targets-bus_router 3 1 MiniTlm.regions,
  add_targets-bus_router 3 1 MiniSoc.regions,
  connect_lem 3 unified CpuEval.regions
      ∙ ap
          (λ n. some (
            ports_of unified,
            record { ranges = CpuEval.regions; num_sockets = 3; num_extra_ports = n },
          ))
          (extra_ports unified),
  connect_lem 5 unified CustomSoc.regions
      ∙ ap
          (λ n. some (
            ports_of unified,
            record { ranges = CustomSoc.regions; num_sockets = 5; num_extra_ports = n },
          ))
          (extra_ports unified),
  MiniTlm.regions-IsMap,
  MiniSoc.regions-IsMap,
  CpuEval.regions-IsMap,
  CustomSoc.regions-IsMap,
)
