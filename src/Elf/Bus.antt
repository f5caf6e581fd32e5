-- ===== src/Elf/Bus.antt =====
-- The router as a socket behind which a memory is mapped.
use cdc_vp.Base.{ℕ, ◌-◌, ◌<◌, ◌≡◌, length, ◌∙◌, ap}
use cdc_vp.Tlm.{Payload, set_address}
use cdc_vp.Memory
use cdc_vp.Memory.{MemoryTlm}
use cdc_vp.Router.{BusRouter, range_at, transport_dbg}
use cdc_vp.Router.Decode.{IsMap}
use cdc_vp.Router.Transport.{transport_dbg_forwards}
use cdc_vp.Elf.Install.{HasMemory}

-- A memory bound to a socket of the router is mapped in its region.
unfoldable pub router-HasMemory :
    {World : Type 0} (targets : ℕ → World → Payload → World × Payload × ℕ) (r : BusRouter) (idx : ℕ)
    (memory : World → MemoryTlm) (set_memory : World → MemoryTlm → World)
    → ((w : World) (m : MemoryTlm) → memory (set_memory w m) ≡ m)
    → ((w : World) (trans : Payload)
        → targets idx w trans
          ≡ (let (m', t', n) = Memory.transport_dbg (memory w) trans in (set_memory w m', t', n)))
    → IsMap r.ranges
    → idx < length r.ranges
    → HasMemory (transport_dbg targets r) (range_at r idx).base (range_at r idx).size
router-HasMemory targets r idx memory set_memory law bound m h = record {
  memory = memory;
  set_memory = set_memory;
  memory-set_memory = law;
  dbg_memory = λ w trans low high.
      transport_dbg_forwards targets r w trans idx m h (low, high)
      ∙ ap (λ u. (u.0, set_address u.1 trans.address, u.2))
          (bound w (set_address trans (trans.address - (range_at r idx).base)));
}
