-- ===== src/Platform/TimerTests.antt =====
-- A run of riscv_custom_soc in which the firmware sets the timer for 3 microseconds.
use cdc_vp.Base.{◌+◌, ◌<◌, ◌≡◌, refl, true, false, some, [], ◌∷◌, le_bytes, arith}
use cdc_vp.Tlm.{Payload, write_command, SimTime, ok_response, respond}
use cdc_vp.Clint.{clint_tlm}
use cdc_vp.Plic.{plic_tlm}
use cdc_vp.Device.{Transport}
use cdc_vp.Stub
use cdc_vp.Cpu.Vp.{riscv_vp_cpu}
use cdc_vp.Cpu.Sample.{SmallCore, small_iss, small_laws, quiet}
use cdc_vp.Platform.CustomSoc.{clint_base, num_plic_sources}
use cdc_vp.Platform.System.{System, wake_timer}
use cdc_vp.Platform.TimerInterrupt.{IsStore, waited, access, idle, timer_interrupt}

-- A device that answers every transaction by OK.
abbrev agreeable : Transport (Unit {0})
agreeable w trans delay = (w, respond trans ok_response, delay)

abbrev system : System Unit Unit SmallCore
system = record {
  soc = record {
    ram = record { storage = []; read_only = false; access_latency = 0 };
    uart = tt;
    clint = clint_tlm;
    plic = plic_tlm num_plic_sources;
    i2c = tt;
    now = 500;
    faulted = false;
  };
  cpu = riscv_vp_cpu quiet;
}

abbrev upper_half : Payload
upper_half = Stub.access write_command (clint_base + 0x4004) (le_bytes 4 0)

abbrev lower_half : Payload
lower_half = Stub.access write_command (clint_base + 0x4000) (le_bytes 4 3)

upper_half-IsStore : IsStore upper_half true 0
upper_half-IsStore = record {
  at = refl;
  four = refl;
  write = refl;
  bytes = refl;
  small = omega arith;
}

lower_half-IsStore : IsStore lower_half false 3
lower_half-IsStore = record {
  at = refl;
  four = refl;
  write = refl;
  bytes = refl;
  small = omega arith;
}

timer_interrupt_example :
    let (s1, t1) = access true agreeable agreeable upper_half 0 system in
    let (s2, t2) =
      access true agreeable agreeable lower_half 0 (idle small_iss (10000 ∷ 10000 ∷ []) s1) in
    let s3 = wake_timer small_iss s2 in
    (t1.response ≡ ok_response)
    × (t2.response ≡ ok_response)
    × (s3.cpu.iss.mtip ≡ false)
    × ((d : SimTime) × (s3.soc.clint.notified ≡ some d)
        × (20500 + d ≡ 3000000)
        × ((e : SimTime)
            → e < d
            → (wake_timer small_iss (waited small_iss e s3)).cpu.iss.mtip ≡ false)
        × ((wake_timer small_iss (waited small_iss d s3)).cpu.iss.mtip ≡ true))
unfolding clint_tlm
timer_interrupt_example =
    timer_interrupt true agreeable agreeable small_iss small_laws system upper_half lower_half 0 0
      (10000 ∷ 10000 ∷ []) true 3 0 (omega arith) (omega arith) (omega arith) upper_half-IsStore
      lower_half-IsStore (omega arith) (omega arith) (omega arith)
