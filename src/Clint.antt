-- ===== src/Clint.antt =====
-- components/clint_tlm: the core-local interruptor. The simulation time is an argument, in the
-- units of `sc_time::value()`. The levels that `cpu_.set_irq` was given are part of the state.
pub mod Timer
pub mod Registers
pub mod Software
mod Tests
use cdc_vp.Base.{
  ℕ, ◌+◌, ◌-◌, ◌*◌, ◌/◌, ◌%◌, ◌^◌, Bool, true, false, not, ◌&&◌, ◌||◌, Option, none, some, List, [],
  ◌∷◌, ltb, leb, ◌==◌, if◌then◌else◌, length, take, slice, overwrite, le_bytes, of_le,
}
use cdc_vp.Tlm.{
  Payload, is_read, SimTime, nanoseconds, ok_response, generic_error, address_error, respond,
}

-- `clint_tlm`. `timer_irq` and `software_irq` are the levels last given for `kCauseTimer` and
-- `kCauseSoftware`, and `notified` is the delay of the latest `cmp_event_.notify` that no wait of
-- `timer_proc` has consumed.
pub record ClintTlm : Type 0 where
  pub mtimecmp : ℕ
  pub msip : ℕ
  pub timer_irq : Bool
  pub software_irq : Bool
  pub notified : Option SimTime

unfoldable pub clint_tlm : ClintTlm
clint_tlm = record {
  mtimecmp = 0;
  msip = 0;
  timer_irq = false;
  software_irq = false;
  notified = none;
}

-- `kScaler`
abbrev pub scaler : ℕ
scaler = 1000000

abbrev pub now_mtime : SimTime → ℕ
now_mtime now = now / scaler

-- `slice_read` and `slice_write` on the eight bytes of a register; `none` is an access of memory
-- outside the local array.
unfoldable pub slice_read : ℕ → ℕ → ℕ → List ℕ → Option (List ℕ)
slice_read value sub len dst =
    if leb (sub + len) 8 then some (overwrite dst 0 (slice (le_bytes 8 value) sub len)) else none

unfoldable pub slice_write : ℕ → ℕ → ℕ → List ℕ → Option ℕ
slice_write value sub len src =
    if leb (sub + len) 8
    then some (of_le (overwrite (le_bytes 8 value) sub (take len src)))
    else none

-- The four branches on the address, `addr + len` being a 64-bit sum.
pub data Target : Type 0 where
  msip_reg mtimecmp_reg mtime_reg nothing : Target

unfoldable pub target_of : ℕ → ℕ → Target
target_of addr len =
    if addr == 0x0000 && len == 4
    then Target.msip_reg
    else if leb 0x4000 addr && leb ((addr + len) % 2 ^ 64) 0x4008
    then mtimecmp_reg
    else if leb 0xBFF8 addr && leb ((addr + len) % 2 ^ 64) 0xC000
    then mtime_reg
    else nothing

-- `static_cast<unsigned>(addr - base)`
abbrev pub offset_from : ℕ → ℕ → ℕ
offset_from base addr = (addr - base) % 2 ^ 32

abbrev answered : Payload → List ℕ → Payload
answered trans bytes = record trans { buffer = some bytes; response = ok_response }

-- The branches, with the data pointer checked. `none` is undefined behaviour.
unfoldable pub access :
    Target → Bool → ClintTlm → Payload → List ℕ → SimTime → Option (ClintTlm × Payload)
access msip_reg true c trans bytes now =
    some (c, answered trans (overwrite bytes 0 (le_bytes 4 c.msip)))
access msip_reg false c trans bytes now =
    let v = of_le (take 4 bytes) % 2 in
    some (record c { msip = v; software_irq = not (v == 0) }, respond trans ok_response)
access mtimecmp_reg true c trans bytes now =
    elim (slice_read c.mtimecmp (offset_from 0x4000 trans.address) trans.data_length bytes) [
      | none ↦ none
      | some read ↦ some (c, answered trans read)
    ]
access mtimecmp_reg false c trans bytes now =
    elim (slice_write c.mtimecmp (offset_from 0x4000 trans.address) trans.data_length bytes) [
      | none ↦ none
      | some v ↦ some (record c { mtimecmp = v; notified = some 0 }, respond trans ok_response)
    ]
access mtime_reg true c trans bytes now =
    elim (slice_read (now_mtime now) (offset_from 0xBFF8 trans.address) trans.data_length bytes) [
      | none ↦ none
      | some read ↦ some (c, answered trans read)
    ]
access mtime_reg false c trans bytes now = some (c, respond trans ok_response)
access nothing rd c trans bytes now = some (c, respond trans address_error)

-- `kCauseSoftware` and `kCauseTimer`.
abbrev pub cause_software : ℕ
cause_software = 3

abbrev pub cause_timer : ℕ
cause_timer = 7

-- The calls of `set_irq` in the branches: their causes and levels, with the state after.
abbrev pub branch_calls : Target → Bool → ClintTlm → List (ℕ × Bool)
branch_calls msip_reg false c = (cause_software, c.software_irq) ∷ []
branch_calls _ _ c = []

-- Those of a transaction.
unfoldable pub irq_calls : Payload → ClintTlm → List (ℕ × Bool)
irq_calls trans c = elim trans.buffer [
  | none ↦ []
  | some bytes ↦ branch_calls (target_of trans.address trans.data_length) (is_read trans.command) c
]

unfoldable pub b_transport :
    ClintTlm → Payload → SimTime → SimTime → Option (ClintTlm × Payload × SimTime)
unfolding access target_of
b_transport c trans delay now =
    let result : Option (ClintTlm × Payload) = (elim trans.buffer [
      | none ↦ some (c, respond trans generic_error)
      | some bytes ↦
          access (target_of trans.address trans.data_length) (is_read trans.command) c trans bytes
            now
    ]) in
    elim result [ none ↦ none | some (c', t') ↦ some (c', t', delay + nanoseconds 10) ]

-- `sc_time::from_value(mtimecmp_ * kScaler)`, a 64-bit product.
abbrev pub goal : ClintTlm → SimTime
goal c = c.mtimecmp * scaler % 2 ^ 64

unfoldable pub reschedule : ClintTlm → SimTime → ClintTlm
reschedule c now =
    if c.mtimecmp == 0
    then c
    else record c { notified = some (if ltb now (goal c) then goal c - now else 0) }

-- A round of the loop of `timer_proc` from where its wait has returned, which consumes the
-- notification.
unfoldable pub timer_proc : ClintTlm → SimTime → ClintTlm
unfolding reschedule
timer_proc c now =
    if not (c.mtimecmp == 0) && leb c.mtimecmp (now_mtime now)
    then record c { timer_irq = true; notified = none }
    else reschedule (record c { timer_irq = false; notified = none }) now
