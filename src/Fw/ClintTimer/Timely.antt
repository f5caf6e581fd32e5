-- ===== src/Fw/ClintTimer/Timely.antt =====
-- What `Timed` says stays true while time passes, in a round of the CLINT's thread, and when the
-- interrupt is taken.
use cdc_vp.Base.{
  ℕ, ◌+◌, ◌^◌, ◌≤◌, ◌<◌, ◌≡◌, ap, ◌∙◌, Bool, true, false, ◌||◌, Bool-cases, inl, inr, arith,
}
use cdc_vp.Tlm.{SimTime}
use cdc_vp.Clint.{ClintTlm, timer_proc, now_mtime}
use cdc_vp.Clint.Timer.{timer_proc_level}
use cdc_vp.Fw.ClintTimer.State.{interruptible, Timed}
use cdc_vp.Fw.ClintTimer.{
  MainPc, read_hi, read_lo, write_hi, write_lo, set_mie, set_mstatus, waiting, finishing, parked,
}

-- More time.
pub Timed-later :
    (pc : MainPc) (hi lo : ℕ) (c : ClintTlm) (taken : Bool) (t t' : ℕ)
    → t ≤ t'
    → Timed pc hi lo c taken t
    → Timed pc hi lo c taken t'
Timed-later read_hi hi lo c taken t t' le h = h
Timed-later read_lo hi lo c taken t t' le h = h
Timed-later write_hi hi lo c taken t t' le h =
    let (quiet, all, zero, past) = h in (quiet, all, zero, omega (arith, past, le))
Timed-later write_lo hi lo c taken t t' le h =
    let (quiet, ones, past) = h in (quiet, ones, omega (arith, past, le))
Timed-later set_mie hi lo c taken t t' le h = (h.0, λ e. omega (arith, h.1 e, le))
Timed-later set_mstatus hi lo c taken t t' le h = (h.0, λ e. omega (arith, h.1 e, le))
Timed-later waiting hi lo c taken t t' le h = (h.0, λ e. omega (arith, h.1 e, le))
Timed-later (finishing text) hi lo c taken t t' le h = (h.0, λ e. omega (arith, h.1 e, le))
Timed-later parked hi lo c taken t t' le h = (h.0, λ e. omega (arith, h.1 e, le))

-- A round of the thread while the compare register is not set.
stays_quiet : (c : ClintTlm) (now : SimTime) → c.mtimecmp ≡ 0 → (timer_proc c now).timer_irq ≡ false
stays_quiet c now unset = elim (Bool-cases ((timer_proc c now).timer_irq)) [
  | inl raised ↦ let due = (timer_proc_level c now).0.0 raised in ground (arith, due.0, unset)
  | inr quiet ↦ quiet
]

-- A round of it when the compare register has been written.
on_time :
    (c : ClintTlm) (now : SimTime) (taken : Bool) (t : ℕ)
    → c.mtimecmp ≡ t
    → ((c.timer_irq || taken) ≡ true → t ≤ now_mtime now)
    → ((timer_proc c now).timer_irq || taken) ≡ true
    → t ≤ now_mtime now
on_time c now taken t same h e = elim (Bool-cases ((timer_proc c now).timer_irq)) [
  | inl raised ↦ let due = (timer_proc_level c now).0.0 raised in omega (arith, due.1, same)
  | inr quiet ↦ h (ground (arith, quiet, e))
]

pub Timed-round :
    (pc : MainPc) (hi lo : ℕ) (c : ClintTlm) (taken : Bool) (now : SimTime)
    → now_mtime now + 100 < 2 ^ 32
    → Timed pc hi lo c taken (now_mtime now)
    → Timed pc hi lo (timer_proc c now) taken (now_mtime now)
Timed-round read_hi hi lo c taken now soon h =
    (stays_quiet c now h.1, (timer_proc_level c now).1 ∙ h.1)
Timed-round read_lo hi lo c taken now soon h =
    let (quiet, all, zero) = h in (stays_quiet c now all, (timer_proc_level c now).1 ∙ all, zero)
Timed-round write_hi hi lo c taken now soon h =
    let (quiet, all, zero, past) = h in
    (stays_quiet c now all, (timer_proc_level c now).1 ∙ all, zero, past)
Timed-round write_lo hi lo c taken now soon h =
    let (quiet, ones, past) = h in (stays_quiet c now ones, (timer_proc_level c now).1 ∙ ones, past)
Timed-round set_mie hi lo c taken now soon h =
    ((timer_proc_level c now).1 ∙ h.0, on_time c now taken (lo + 100) h.0 h.1)
Timed-round set_mstatus hi lo c taken now soon h =
    ((timer_proc_level c now).1 ∙ h.0, on_time c now taken (lo + 100) h.0 h.1)
Timed-round waiting hi lo c taken now soon h =
    ((timer_proc_level c now).1 ∙ h.0, on_time c now taken (lo + 100) h.0 h.1)
Timed-round (finishing text) hi lo c taken now soon h =
    ((timer_proc_level c now).1 ∙ h.0, on_time c now taken (lo + 100) h.0 h.1)
Timed-round parked hi lo c taken now soon h =
    ((timer_proc_level c now).1 ∙ h.0, on_time c now taken (lo + 100) h.0 h.1)

-- The raised interrupt is taken.
pub Timed-taken :
    (pc : MainPc) (hi lo : ℕ) (c : ClintTlm) (taken : Bool) (t : ℕ)
    → interruptible pc ≡ true
    → c.timer_irq ≡ true
    → Timed pc hi lo c taken t
    → Timed pc hi lo c true t
Timed-taken read_hi hi lo c taken t on raised h = ground (arith, on)
Timed-taken read_lo hi lo c taken t on raised h = ground (arith, on)
Timed-taken write_hi hi lo c taken t on raised h = ground (arith, on)
Timed-taken write_lo hi lo c taken t on raised h = ground (arith, on)
Timed-taken set_mie hi lo c taken t on raised h = ground (arith, on)
Timed-taken set_mstatus hi lo c taken t on raised h = ground (arith, on)
Timed-taken waiting hi lo c taken t on raised h = (h.0, λ e. h.1 (ap (λ b. b || taken) raised))
Timed-taken (finishing text) hi lo c taken t on raised h =
    (h.0, λ e. h.1 (ap (λ b. b || taken) raised))
Timed-taken parked hi lo c taken t on raised h = (h.0, λ e. h.1 (ap (λ b. b || taken) raised))
