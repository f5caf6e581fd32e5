-- ===== src/Clint/Timer.antt =====
-- The timer interrupt: its level, and when the thread has itself woken again.
use cdc_vp.Base.{
  ℕ, zero, suc, ◌+◌, ◌-◌, ◌*◌, ◌^◌, ◌≤◌, ◌<◌, ◌≡◌, ◌≢◌, ◌↔◌, refl, true, false, some, arith,
}
use cdc_vp.Tlm.{SimTime}
use cdc_vp.Clint.{ClintTlm, scaler, goal, timer_proc}

-- The time at which the compare register falls due, with no wrap.
abbrev pub due : ClintTlm → SimTime
due c = c.mtimecmp * scaler

-- A round of the thread asserts the timer interrupt exactly if the compare register is set and its
-- time has come, and otherwise clears it; it changes no register.
pub timer_proc_level :
    (c : ClintTlm) (now : SimTime)
    → (((timer_proc c now).timer_irq ≡ true) ↔ ((c.mtimecmp ≢ 0) × (due c ≤ now)))
      × ((timer_proc c now).mtimecmp ≡ c.mtimecmp)
      × ((timer_proc c now).msip ≡ c.msip)
unfolding timer_proc
timer_proc_level c now = ground arith

-- A round before the compare time, where that fits 64 bits, has the thread woken again after a
-- delay that is not zero and that ends exactly at the compare time; a round at any time before
-- then leaves the interrupt clear, and the round at that time asserts it.
pub timer_proc_fires :
    (c : ClintTlm) (now : SimTime)
    → c.mtimecmp ≢ 0
    → due c < 2 ^ 64
    → now < due c
    → let c' = timer_proc c now in
      (d : SimTime) × (c'.notified ≡ some d)
      × (0 < d)
      × (now + d ≡ due c)
      × ((t : SimTime) → t < now + d → (timer_proc c' t).timer_irq ≡ false)
      × ((timer_proc c' (now + d)).timer_irq ≡ true)
unfolding timer_proc
timer_proc_fires c now set fits early =
    (due c - now, ground arith, omega arith, omega arith, λ t h. ground arith, ground arith)

pub rounds : ℕ → ClintTlm → SimTime → ClintTlm
rounds zero c now = c
rounds (suc n) c now = rounds n (timer_proc c now) now

rounds_fixed : (n : ℕ) (c : ClintTlm) (now : SimTime) → timer_proc c now ≡ c → rounds n c now ≡ c
unfolding rounds
rounds_fixed zero c now h = refl
rounds_fixed (suc n) c now h = rw h (rounds_fixed n c now h)

livelock_step :
    (c : ClintTlm) (now : SimTime)
    → 2 ^ 64 ≤ due c
    → now < 2 ^ 64
    → goal c ≤ now
    → let c' = timer_proc c now in
      (timer_proc c' now ≡ c') × (c'.notified ≡ some 0) × (c'.timer_irq ≡ false)
unfolding timer_proc
livelock_step c now wide time passed = ground arith

-- A compare value whose time does not fit 64 bits, once the wrapped time has passed: every round
-- of the thread notifies its own event with no delay, and leaves the state in which the next round
-- does so again, so that the simulation time cannot go on. The interrupt stays clear.
pub rounds_livelock :
    (c : ClintTlm) (now : SimTime) (n : ℕ)
    → 2 ^ 64 ≤ due c
    → now < 2 ^ 64
    → goal c ≤ now
    → let c' = rounds (suc n) c now in
      (c'.notified ≡ some 0) × (c'.timer_irq ≡ false) × (c' ≡ timer_proc c now)
unfolding rounds
rounds_livelock c now n wide time passed =
    let (again, zero_delay, clear) = livelock_step c now wide time passed in
    let same = rounds_fixed n (timer_proc c now) now again in
    (rw same zero_delay, rw same clear, same)
