-- ===== src/Pwm/Registers.antt =====
-- The registers of the PWM, and what the thread does where they leave the intended range.
use cdc_vp.Base.{
  ℕ, ◌+◌, ◌≤◌, ◌≡◌, ◌↔◌, refl, ap, true, none, some, List, length, take, ◌==◌, if◌then◌else◌, of_le,
  le_bytes, overwrite, IsBytes, overwrite_word, arith,
}
use cdc_vp.Tlm.{Payload, SimTime, nanoseconds, read_command, write_command, ok_response}
use cdc_vp.Pwm.{Pwm, counter_enable, round, b_transport, read_register, write_register}

-- The registers are a memory of words: a write changes the one addressed and no other.
read_register-write_register :
    (p q : Pwm) (a b value : ℕ)
    → write_register p a value ≡ some q
    → read_register q b ≡ (if a == b then some value else read_register p b)
unfolding write_register read_register
read_register-write_register p q a b value e = ground arith

write_done :
    (p q : Pwm) (w t : Payload) (d d' : SimTime) (written : List ℕ)
    → b_transport p w d ≡ some (q, t, d')
    → t.response ≡ ok_response
    → w.command ≡ write_command
    → w.buffer ≡ some written
    → write_register p w.address (of_le (take 4 written)) ≡ some q
unfolding b_transport
write_done p q w t d d' written done ok wc wb = ground arith

read_done :
    (p : Pwm) (r : Payload) (e : SimTime) (target : List ℕ) (value : ℕ)
    → r.command ≡ read_command
    → r.buffer ≡ some target
    → read_register p r.address ≡ some value
    → b_transport p r e
      ≡ some (
        p,
        record r { buffer = some (overwrite target 0 (le_bytes 4 value)); response = ok_response },
        e + nanoseconds 10,
      )
unfolding b_transport
read_done p r e target value rc rb found = ground arith

-- After a write that was answered by OK, a read of the same address is answered by OK and returns
-- the four bytes written; it changes nothing.
pub register_roundtrip :
    (p q : Pwm) (w r t : Payload) (d d' e : SimTime) (written target : List ℕ)
    → b_transport p w d ≡ some (q, t, d')
    → t.response ≡ ok_response
    → w.command ≡ write_command
    → r.command ≡ read_command
    → w.buffer ≡ some written
    → r.buffer ≡ some target
    → 4 ≤ length written
    → IsBytes written
    → length target ≡ 4
    → r.address ≡ w.address
    → (u : Payload) × (e' : SimTime) × (b_transport q r e ≡ some (q, u, e'))
      × (u.response ≡ ok_response)
      × (u.buffer ≡ some (take 4 written))
register_roundtrip p q w r t d d' e written target done ok wc rc wb rb long bytes full same =
    let value : ℕ = of_le (take 4 written) in
    let stored = write_done p q w t d d' written done ok wc wb in
    let law = read_register-write_register p q w.address w.address value stored in
    let found : read_register q r.address ≡ some value = rw same (ground (arith, law)) in
    (
      record r { buffer = some (overwrite target 0 (le_bytes 4 value)); response = ok_response },
      e + nanoseconds 10,
      read_done q r e target value rc rb found,
      refl,
      ap some (overwrite_word 4 target written full long bytes),
    )

-- A round is undefined exactly if the counter is enabled and the period register holds 0, which a
-- write to it is free to store.
pub round_undefined_iff :
    (p : Pwm) → (round p ≡ none) ↔ ((counter_enable p ≡ true) × (p.period ≡ 0))
unfolding round
round_undefined_iff p = ground arith
