-- ===== src/Clint/Tests.antt =====
-- The CLINT at concrete times and transactions.
use cdc_vp.Base.{
  ◌+◌, ◌-◌, ◌<◌, ◌≤◌, ◌≡◌, ◌≢◌, ◌↔◌, ◌^◌, refl, true, false, none, some, [], ◌∷◌, arith,
}
use cdc_vp.Tlm.{Payload, SimTime, ok_response}
use cdc_vp.Fixtures.{write_word, read_word}
use cdc_vp.Clint.{ClintTlm, clint_tlm, b_transport, timer_proc, slice_read}
use cdc_vp.Clint.Timer.{due, timer_proc_level, timer_proc_fires, rounds, rounds_livelock}
use cdc_vp.Clint.Registers.{b_transport_defined, b_transport_overrun, set_mtimecmp}

-- Due after 3 microseconds.
abbrev three : ClintTlm
three = record { mtimecmp = 3; msip = 0; timer_irq = false; software_irq = false; notified = none }

timer_proc_level_example :
    (((timer_proc three 3000000).timer_irq ≡ true) ↔ ((three.mtimecmp ≢ 0) × (due three ≤ 3000000)))
    × ((timer_proc three 3000000).mtimecmp ≡ three.mtimecmp)
    × ((timer_proc three 3000000).msip ≡ three.msip)
timer_proc_level_example = timer_proc_level three 3000000

timer_proc_fires_example :
    let c' = timer_proc three 500 in
    (d : SimTime) × (c'.notified ≡ some d)
    × (0 < d)
    × (500 + d ≡ due three)
    × ((t : SimTime) → t < 500 + d → (timer_proc c' t).timer_irq ≡ false)
    × ((timer_proc c' (500 + d)).timer_irq ≡ true)
timer_proc_fires_example = timer_proc_fires three 500 (omega arith) (omega arith) (omega arith)

-- 2 ^ 64 picoseconds are reached between this value and the one before.
abbrev far : ClintTlm
far = record three { mtimecmp = 18446744073710 }

rounds_livelock_example :
    let c' = rounds 5 far 1000000 in
    (c'.notified ≡ some 0) × (c'.timer_irq ≡ false) × (c' ≡ timer_proc far 1000000)
rounds_livelock_example = rounds_livelock far 1000000 4 (omega arith) (omega arith) (omega arith)

start : clint_tlm ≡ record three { mtimecmp = 0 }
unfolding clint_tlm
start = refl

b_transport_defined_example : b_transport three (read_word 0xBFF8) 0 7000000 ≢ none
b_transport_defined_example = b_transport_defined three (read_word 0xBFF8) 0 7000000 (omega arith)

mtime_read :
    (c : ClintTlm) × (t : Payload) × (b_transport three (read_word 0xBFF8) 0 7000000
      ≡ some (c, t, 10000))
    × (t.buffer ≡ some (7 ∷ 0 ∷ 0 ∷ 0 ∷ []))
unfolding b_transport slice_read
mtime_read = (
  three,
  record (read_word 0xBFF8) { buffer = some (7 ∷ 0 ∷ 0 ∷ 0 ∷ []); response = ok_response },
  refl,
  refl,
)

b_transport_overrun_example : b_transport three (read_word (2 ^ 64 - 2)) 0 0 ≡ none
b_transport_overrun_example =
    b_transport_overrun three (read_word (2 ^ 64 - 2)) 0 0 (omega arith) (omega arith) (omega arith)
      (omega arith) (λ e. cc)

set_mtimecmp_example :
    (between final : ClintTlm) × (b_transport three (write_word 0x4004 1) 0 0
      ≡ some (between, record (write_word 0x4004 1) { response = ok_response }, 10000))
    × (b_transport between (write_word 0x4000 5) 0 0
        ≡ some (final, record (write_word 0x4000 5) { response = ok_response }, 10000))
    × (final.mtimecmp ≡ 2 ^ 32 + 5)
set_mtimecmp_example =
    set_mtimecmp three (write_word 0x4004 1) (write_word 0x4000 5) 0 0 0 0 true 5 1 (omega arith)
      (omega arith) (omega arith) refl refl refl refl refl refl refl refl
