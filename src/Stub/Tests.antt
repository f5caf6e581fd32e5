-- ===== src/Stub/Tests.antt =====
-- The processor stub on a bus with one RAM.
use cdc_vp.Base.{ℕ, ◌≡◌, refl, false, [], ◌∷◌, replicate, arith}
use cdc_vp.Memory
use cdc_vp.Memory.{MemoryTlm}
use cdc_vp.Router.{BusRouter, b_transport}
use cdc_vp.Device.{Transport, Part, Serves, router-Serves}
use cdc_vp.Stub.{ok, write32, read32, check_ram}
use cdc_vp.Stub.Words.{stored, check_ram-stored}

abbrev ram : MemoryTlm
ram = record { storage = replicate 32 0; read_only = false; access_latency = 0 }

abbrev to_ram : ℕ → Transport MemoryTlm
to_ram idx m trans delay = Memory.b_transport m trans delay

abbrev one_target : BusRouter
one_target = record {
  ranges = record { base = 0x80000000; size = 32 } ∷ [];
  num_sockets = 1;
  num_extra_ports = 0;
}

abbrev bus : Transport MemoryTlm
bus = b_transport to_ram one_target

abbrev whole : Part MemoryTlm MemoryTlm
whole = record {
  get = λ w. w;
  put = λ w m. m;
  get-put = λ w m. refl;
  put-get = λ w. refl;
  put-put = λ w m n. refl;
}

bus-Serves : Serves bus Memory.b_transport whole 0x80000000 32
bus-Serves =
    router-Serves to_ram Memory.b_transport whole one_target 0 (λ w trans delay. refl)
      (omega arith, tt, tt) (omega arith)

check_ram-stored_example :
    (write32 bus 0x80000010 0xCAFEBABE ram ≡ (ok tt, stored bus-Serves ram 0x80000010 0xCAFEBABE))
    × (read32 bus 0x80000010 (stored bus-Serves ram 0x80000010 0xCAFEBABE)
        ≡ (ok 0xCAFEBABE, stored bus-Serves ram 0x80000010 0xCAFEBABE))
    × (check_ram bus 0x80000010 0xCAFEBABE ram
        ≡ (ok tt, stored bus-Serves ram 0x80000010 0xCAFEBABE))
check_ram-stored_example =
    check_ram-stored bus-Serves ram 0x80000010 0xCAFEBABE refl refl (omega arith) (omega arith)
      (omega arith)
