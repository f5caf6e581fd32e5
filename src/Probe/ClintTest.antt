-- ===== src/Probe/ClintTest.antt =====
-- components/clint_tlm/tests/test_clint_tlm.cpp. Of the kernel the model has what the test needs: a wait
-- of the test lets the time pass, and a round of the CLINT's thread comes when its notification falls due
-- before the wait ends. The rounds of a wait are on fuel, and `none` stands for too little of it, or for
-- an access that is undefined.
use cdc_vp.Base.{
  ℕ, zero, suc, ◌+◌, ◌-◌, ◌≡◌, refl, Bool, false, ◌&&◌, Option, none, some, List, ltb, leb, ◌==◌,
  take, le_bytes, of_le, if◌then◌else◌,
}
use cdc_vp.Tlm.{Command, read_command, write_command, SimTime, Response, is_read, nanoseconds}
use cdc_vp.Clint.{
  ClintTlm, clint_tlm, b_transport, access, target_of, Target, msip_reg, slice_read, slice_write,
  timer_proc, reschedule,
}
use cdc_vp.Probe.{cdc_check, is_ok, fill}

infixl 5 ◌>>=◌
abbrev ◌>>=◌ : {A B : Type 0} → Option A → (A → Option B) → Option B
◌>>=◌ r f = elim r [ none ↦ none | some a ↦ f a ]

pub record MockCpu : Type 0 where
  pub timer_asserts : ℕ
  pub timer_deasserts : ℕ
  pub sw_asserts : ℕ

pub mock_set_irq : ℕ → Bool → MockCpu → MockCpu
mock_set_irq cause level cpu =
    if cause == 7
    then (if level
        then record cpu { timer_asserts = suc cpu.timer_asserts }
        else record cpu { timer_deasserts = suc cpu.timer_deasserts })
    else if cause == 3 && level
    then record cpu { sw_asserts = suc cpu.sw_asserts }
    else cpu

-- The CLINT with the delay from now to its notification, the processor and the time.
pub record Bench : Type 0 where
  pub clint : ClintTlm
  pub cpu : MockCpu
  pub now : SimTime

-- A round of the thread, with its call of `set_irq`.
round : Bench → Bench
unfolding mock_set_irq
round s =
    let c = timer_proc s.clint s.now in
    record s { clint = c; cpu = mock_set_irq 7 c.timer_irq s.cpu }

pub wait_for : ℕ → SimTime → Bench → Option Bench
unfolding round
wait_for zero d s = none
wait_for (suc fuel) d s = elim s.clint.notified [
  | none ↦ some (record s { now = s.now + d })
  | some e ↦
      let later = wait_for fuel (d - e) (round (record s { now = s.now + e })) in
      if ltb e d
      then later
      else some (record s { now = s.now + d; clint = record s.clint { notified = some (e - d) } })
]

-- The write of a software interrupt calls `set_irq`.
called : Target → Bool → ClintTlm → MockCpu → MockCpu
unfolding mock_set_irq
called msip_reg false c cpu = mock_set_irq 3 c.software_irq cpu
called _ _ c cpu = cpu

pub drive : Command → ℕ → List ℕ → Bench → Option (Bench × Response × Option (List ℕ))
unfolding called
drive cmd addr bytes s =
    let trans = fill cmd addr bytes in
    elim (b_transport s.clint trans 0 s.now) [
      | none ↦ none
      | some (c, t, d) ↦ some (
        record s {
          clint = c;
          cpu = called (target_of addr trans.data_length) (is_read cmd) c s.cpu;
        },
        t.response,
        t.buffer,
      )
    ]

-- The eight bytes in a buffer of the test.
abbrev long_in : Option (List ℕ) → ℕ
long_in none = 0
long_in (some bytes) = of_le (take 8 bytes)

abbrev clint_bench : Bench
clint_bench = record {
  clint = clint_tlm;
  cpu = record { timer_asserts = 0; timer_deasserts = 0; sw_asserts = 0 };
  now = 0;
}

-- The number of failures, on this fuel for each wait.
pub clint_test : ℕ → Option ℕ
unfolding wait_for drive
clint_test fuel = do
  (s1, armed, sent) ← drive write_command 0x4000 (le_bytes 8 100) clint_bench
  let f1 = cdc_check (is_ok armed) 0
  s2 ← wait_for fuel (nanoseconds 50000) s1
  let f2 = cdc_check (s2.cpu.timer_asserts == 0) f1
  s3 ← wait_for fuel (nanoseconds 100000) s2
  let f3 = cdc_check (leb 1 s3.cpu.timer_asserts) f2
  (s4, got, t) ← drive read_command 0xBFF8 (le_bytes 8 0) s3
  let f4 = cdc_check (is_ok got) f3
  let f5 = cdc_check (leb 100 (long_in t)) f4
  (s5, put, one) ← drive write_command 0x0 (le_bytes 4 1) s4
  let f6 = cdc_check (is_ok put) f5
  some (cdc_check (s5.cpu.sw_asserts == 1) f6)

-- With two rounds for each wait the test ends, and finds no failure.
pub clint_test_passes : clint_test 2 ≡ some 0
unfolding clint_test b_transport access target_of slice_read slice_write timer_proc reschedule
    clint_tlm
clint_test_passes = refl
