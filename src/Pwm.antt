-- ===== src/Pwm.antt =====
-- components/pwm_tlm: the PWM generator. `none` stands for behaviour that C++ leaves undefined: a
-- null data pointer that is followed, and a remainder by a period of 0.
pub mod Registers
pub mod Rounds
pub mod Duty
pub mod Bench
mod Tests
use cdc_vp.Base.{
  ℕ, zero, suc, ◌+◌, ◌-◌, ◌%◌, ◌^◌, Bool, true, false, not, ◌&&◌, Option, none, some, List, [], ◌∷◌,
  ltb, ◌==◌, if◌then◌else◌, bit, overwrite, take, le_bytes, of_le,
}
use cdc_vp.Tlm.{Payload, is_write, SimTime, nanoseconds, ok_response, address_error, respond}

-- `PWM`. The registers are 32 bits wide and `counter` 16.
pub record Pwm : Type 0 where
  pub cfg : ℕ
  pub pwm_en : ℕ
  pub invert : ℕ
  pub phase_delay : ℕ
  pub duty_cycle : ℕ
  pub period : ℕ
  pub counter : ℕ
  pub pwm_out : Bool

-- The constructor.
pub pwm : Pwm
pwm = record {
  cfg = 0;
  pwm_en = 0;
  invert = 0;
  phase_delay = 0;
  duty_cycle = 0;
  period = 256;
  counter = 0;
  pwm_out = false;
}

-- The two switches over the address: a write, and a read. `none` is the default case.
unfoldable pub write_register : Pwm → ℕ → ℕ → Option Pwm
write_register p addr value =
    if addr == 0x08
    then some (record p { cfg = value })
    else if addr == 0x0C
    then some (record p { pwm_en = value })
    else if addr == 0x10
    then some (record p { invert = value })
    else if addr == 0x14
    then some (record p { phase_delay = value })
    else if addr == 0x2C
    then some (record p { duty_cycle = value })
    else if addr == 0x30
    then some (record p { period = value })
    else none

unfoldable pub read_register : Pwm → ℕ → Option ℕ
read_register p addr =
    if addr == 0x08
    then some p.cfg
    else if addr == 0x0C
    then some p.pwm_en
    else if addr == 0x10
    then some p.invert
    else if addr == 0x14
    then some p.phase_delay
    else if addr == 0x2C
    then some p.duty_cycle
    else if addr == 0x30
    then some p.period
    else none

-- The state, the payload and the delay at the end of a switch.
finish : Pwm → Payload → SimTime → Pwm × Payload × SimTime
finish p trans delay = (p, respond trans ok_response, delay + nanoseconds 10)

refuse : Pwm → Payload → SimTime → Pwm × Payload × SimTime
refuse p trans delay = (p, respond trans address_error, delay)

-- A write of the bytes behind the data pointer, whose first four are read whatever the length.
unfoldable pub write_access : Pwm → Payload → SimTime → List ℕ → Pwm × Payload × SimTime
unfolding finish refuse write_register
write_access p trans delay bytes = elim (write_register p trans.address (of_le (take 4 bytes))) [
  | none ↦ refuse p trans delay
  | some p' ↦ finish p' trans delay
]

unfoldable pub read_access : Pwm → Payload → SimTime → List ℕ → Pwm × Payload × SimTime
unfolding finish refuse read_register
read_access p trans delay bytes = elim (read_register p trans.address) [
  | none ↦ refuse p trans delay
  | some value ↦
      finish p (record trans { buffer = some (overwrite bytes 0 (le_bytes 4 value)) }) delay
]

-- With a null pointer only the default case, which does not follow it, is defined. The two
-- switches have the same cases.
unfoldable pub b_transport : Pwm → Payload → SimTime → Option (Pwm × Payload × SimTime)
unfolding write_access read_access
b_transport p trans delay = elim trans.buffer [
  | none ↦ elim (read_register p trans.address) [
    | none ↦ some (refuse p trans delay)
    | some value ↦ none
  ]
  | some bytes ↦ some (
      if is_write trans.command
      then write_access p trans delay bytes
      else read_access p trans delay bytes)
]

-- `counter_enable`
abbrev pub counter_enable : Pwm → Bool
counter_enable p = bit p.cfg 31

-- `uint16_t shifted`: the sum and the difference are taken in 32 bits.
abbrev pub shifted : Pwm → ℕ → ℕ
shifted p counter = (counter + p.period + 2 ^ 32 - p.phase_delay) % 2 ^ 32 % p.period % 2 ^ 16

-- The level for a value of the counter, before and after the inversion.
abbrev pub in_pulse : Pwm → ℕ → Bool
in_pulse p counter = bit p.pwm_en 0 && ltb (shifted p counter) p.duty_cycle

abbrev pub level : Pwm → ℕ → Bool
level p counter = if bit p.invert 0 then not (in_pulse p counter) else in_pulse p counter

-- A round of `pwm_thread` after its wait of 10 ns.
unfoldable pub round : Pwm → Option Pwm
round p =
    if counter_enable p
    then (if p.period == 0
        then none
        else let next = (p.counter + 1) % p.period % 2 ^ 16 in
          some (record p { counter = next; pwm_out = level p next }))
    else some p

-- `n` rounds, with the level on the output after each.
unfoldable pub rounds : ℕ → Pwm → Option (List Bool × Pwm)
rounds zero p = some ([], p)
rounds (suc n) p = elim (round p) [
  | none ↦ none
  | some p' ↦ elim (rounds n p') [ none ↦ none | some (ls, q) ↦ some (p'.pwm_out ∷ ls, q) ]
]
