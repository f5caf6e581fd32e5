-- ===== src/Clint/Software.antt =====
-- The software interrupt is the register `msip`.
use cdc_vp.Base.{
  ℕ, ◌+◌, ◌≡◌, refl, Bool, true, false, not, ◌==◌, Option, none, some, List, [], Option-cases, inl,
  inr, arith,
}
use cdc_vp.Tlm.{Payload, SimTime, is_read, respond, ok_response, nanoseconds}
use cdc_vp.Clint.{
  answered, slice_read, slice_write, offset_from, now_mtime, ClintTlm, Target, msip_reg,
  mtimecmp_reg, mtime_reg, nothing, target_of, access, branch_calls, irq_calls, b_transport,
  timer_proc,
}
use cdc_vp.Cpu.Levels.{last_level}

-- The level last given for the software interrupt is the register's.
abbrev pub SoftwareIsCurrent : ClintTlm → Type 0
SoftwareIsCurrent c = c.software_irq ≡ not (c.msip == 0)

-- What a transaction leaves, if it is defined.
abbrev pub After : (ClintTlm → Type 0) → Option (ClintTlm × Payload × SimTime) → Type 0
After P none = Unit {0}
After P (some (c, trans, delay)) = P c

abbrev AccessAfter : (ClintTlm → Type 0) → Option (ClintTlm × Payload) → Type 0
AccessAfter P none = Unit {0}
AccessAfter P (some (c, trans)) = P c

-- What a transaction with these calls of `set_irq` does: the software interrupt is current, and its level
-- is the one that the calls gave; they give no other, and the timer interrupt is as it was.
abbrev pub Tells : ClintTlm → List (ℕ × Bool) → ClintTlm → Type 0
Tells c calls c' =
    SoftwareIsCurrent c'
    × (last_level 3 c.software_irq calls ≡ c'.software_irq)
    × ((level : Bool) → last_level 7 level calls ≡ level)
    × ((level : Bool) → last_level 11 level calls ≡ level)
    × (c'.timer_irq ≡ c.timer_irq)

read-AccessAfter :
    (P : ClintTlm → Type 0) (o : Option (List ℕ)) (c : ClintTlm) (trans : Payload)
    → P c
    → AccessAfter P (elim o [ none ↦ none | some read ↦ some (c, answered trans read) ])
read-AccessAfter P none c trans h = tt
read-AccessAfter P (some read) c trans h = h

write-AccessAfter :
    (P : ClintTlm → Type 0) (o : Option ℕ) (c : ClintTlm) (trans : Payload)
    → ((v : ℕ) → P (record c { mtimecmp = v; notified = some 0 }))
    → AccessAfter P (elim o [
      | none ↦ none
      | some v ↦ some (record c { mtimecmp = v; notified = some 0 }, respond trans ok_response)
    ])
write-AccessAfter P none c trans h = tt
write-AccessAfter P (some v) c trans h = h v

access-Tells :
    (target : Target) (rd : Bool) (c : ClintTlm) (trans : Payload) (bytes : List ℕ) (now : SimTime)
    → SoftwareIsCurrent c
    → AccessAfter
        (λ c'. Tells c (branch_calls target rd c') c')
        (access target rd c trans bytes now)
unfolding access
access-Tells msip_reg true c trans bytes now h = (h, refl, λ l. refl, λ l. refl, refl)
access-Tells msip_reg false c trans bytes now h = (refl, refl, λ l. refl, λ l. refl, refl)
access-Tells mtimecmp_reg true c trans bytes now h =
    read-AccessAfter (Tells c [])
      (slice_read c.mtimecmp (offset_from 0x4000 trans.address) trans.data_length bytes) c trans
      (h, refl, λ l. refl, λ l. refl, refl)
access-Tells mtimecmp_reg false c trans bytes now h =
    write-AccessAfter (Tells c [])
      (slice_write c.mtimecmp (offset_from 0x4000 trans.address) trans.data_length bytes) c trans
      (λ v. (h, refl, λ l. refl, λ l. refl, refl))
access-Tells mtime_reg true c trans bytes now h =
    read-AccessAfter (Tells c [])
      (slice_read (now_mtime now) (offset_from 0xBFF8 trans.address) trans.data_length bytes) c
      trans (h, refl, λ l. refl, λ l. refl, refl)
access-Tells mtime_reg false c trans bytes now h = (h, refl, λ l. refl, λ l. refl, refl)
access-Tells nothing rd c trans bytes now h = (h, refl, λ l. refl, λ l. refl, refl)

After-answered :
    (P : ClintTlm → Type 0) (o : Option (ClintTlm × Payload)) (delay : SimTime)
    → AccessAfter P o
    → After P (elim o [ none ↦ none | some (c', t') ↦ some (c', t', delay) ])
After-answered P none delay h = tt
After-answered P (some (c, trans)) delay h = h

pub b_transport-Tells :
    (c : ClintTlm) (trans : Payload) (delay now : SimTime)
    → SoftwareIsCurrent c
    → After (λ c'. Tells c (irq_calls trans c') c') (b_transport c trans delay now)
unfolding b_transport irq_calls
b_transport-Tells c trans delay now h = elim (Option-cases trans.buffer) [
  | inl null ↦ rw (null, b_transport, irq_calls) (h, refl, λ l. refl, λ l. refl, refl)
  | inr (bytes, data_ptr) ↦
      let target = target_of trans.address trans.data_length in
      rw (data_ptr, b_transport, irq_calls)
        (After-answered (λ c'. Tells c (branch_calls target (is_read trans.command) c') c') _
          (delay + nanoseconds 10)
          (access-Tells target (is_read trans.command) c trans bytes now h))
]

-- A round of the thread does not touch the software interrupt.
pub timer_proc-SoftwareIsCurrent :
    (c : ClintTlm) (now : SimTime) → SoftwareIsCurrent c → SoftwareIsCurrent (timer_proc c now)
unfolding timer_proc
timer_proc-SoftwareIsCurrent c now h = ground arith

pub timer_proc-software :
    (c : ClintTlm) (now : SimTime) → (timer_proc c now).software_irq ≡ c.software_irq
unfolding timer_proc
timer_proc-software c now = ground arith
