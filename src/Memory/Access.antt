-- ===== src/Memory/Access.antt =====
-- The timed transactions of a memory, on every branch.
use cdc_vp.Base.{
  ℕ, ◌+◌, ◌≤◌, ◌≡◌, ◌≢◌, ◌∙◌, ap, slice-overwrite_of_length, false, none, some, List, length, take,
  slice, overwrite, length-take, length-overwrite, slice-overwrite_outside, overwrite_whole,
  Option-cases, inl, inr, if◌then◌else◌, ltb, arith, ◌⊎◌,
}
use cdc_vp.Tlm.{
  Payload, Response, read_command, write_command, ignore_command, SimTime, ok_response,
  generic_error, address_error, command_error, HasBuffer,
}
use cdc_vp.Memory.{MemoryTlm, b_transport}

-- The response that a transaction should get.
abbrev pub expected_response : MemoryTlm → Payload → Response
expected_response m trans =
    if ltb (length m.storage) (trans.address + trans.data_length)
    then address_error
    else elim trans.buffer [
      | none ↦ generic_error
      | some bytes ↦ elim trans.command [
        | read_command ↦ ok_response
        | write_command ↦ if m.read_only then command_error else ok_response
        | ignore_command ↦ command_error
      ]
    ]

-- Every transaction is answered: outside the storage by an address error, whatever the address
-- (the guard does not overflow); with no data pointer by a generic error; a write to a ROM and any
-- command but read and write by a command error; the others by OK.
pub response-b_transport :
    (m : MemoryTlm) (trans : Payload) (delay : SimTime)
    → (b_transport m trans delay).1.response ≡ expected_response m trans
unfolding b_transport
response-b_transport m trans delay = ground arith

-- A transaction that is not answered by OK changes no byte of the memory and none of its own buffer.
pub b_transport_failed :
    (m : MemoryTlm) (trans : Payload) (delay : SimTime)
    → (b_transport m trans delay).1.response ≢ ok_response
    → ((b_transport m trans delay).0 ≡ m) × ((b_transport m trans delay).1.buffer ≡ trans.buffer)
unfolding b_transport
b_transport_failed m trans delay h = ground arith

-- What a read in range does: its buffer begins with the bytes at the address.
pub b_transport-read :
    (m : MemoryTlm) (trans : Payload) (delay : SimTime) (bytes : List ℕ)
    → trans.command ≡ read_command
    → trans.buffer ≡ some bytes
    → trans.address + trans.data_length ≤ length m.storage
    → ((b_transport m trans delay).0 ≡ m)
      × ((b_transport m trans delay).1.buffer
          ≡ some (overwrite bytes 0 (slice m.storage trans.address trans.data_length)))
      × ((b_transport m trans delay).1.response ≡ ok_response)
unfolding b_transport
b_transport-read m trans delay bytes c b h = ground arith

-- What a write in range does to a RAM.
pub b_transport-write :
    (m : MemoryTlm) (trans : Payload) (delay : SimTime) (bytes : List ℕ)
    → trans.command ≡ write_command
    → trans.buffer ≡ some bytes
    → m.read_only ≡ false
    → trans.address + trans.data_length ≤ length m.storage
    → ((b_transport m trans delay).0
        ≡ record m { storage = overwrite m.storage trans.address (take trans.data_length bytes) })
      × ((b_transport m trans delay).1.response ≡ ok_response)
unfolding b_transport
b_transport-write m trans delay bytes c b ram h = ground arith

-- A write answered by OK went to a RAM, in range.
write_guards :
    (m : MemoryTlm) (trans : Payload) (delay : SimTime)
    → trans.command ≡ write_command
    → (b_transport m trans delay).1.response ≡ ok_response
    → (m.read_only ≡ false) × (trans.address + trans.data_length ≤ length m.storage)
unfolding b_transport
write_guards m trans delay c h = ground arith

-- A write to a RAM that was answered by OK, and a read of as many bytes at its address after it:
-- the read is answered by OK and returns exactly the bytes written.
pub read-write :
    (m : MemoryTlm) (w r : Payload) (d e : SimTime) (written target : List ℕ)
    → w.command ≡ write_command
    → r.command ≡ read_command
    → HasBuffer w written
    → r.buffer ≡ some target
    → length target ≡ r.data_length
    → r.address ≡ w.address
    → r.data_length ≡ w.data_length
    → (b_transport m w d).1.response ≡ ok_response
    → let answer = (b_transport (b_transport m w d).0 r e).1 in
      (answer.response ≡ ok_response) × (answer.buffer ≡ some (take w.data_length written))
read-write m w r d e written target wc rc wb rb full a l answered = rw wr.0 (
  rd.2,
  rd.1
      ∙ ap some (
          ap (overwrite target 0) (rw (a, l) back)
          ∙ overwrite_whole target src (omega (arith, size_src))),
)
  where
    src : List ℕ
    src = take w.data_length written

    guards : (m.read_only ≡ false) × (w.address + w.data_length ≤ length m.storage)
    guards = write_guards m w d wc answered

    size_src : length src ≡ w.data_length
    size_src = omega (arith, length-take w.data_length written)

    after : MemoryTlm
    after = record m { storage = overwrite m.storage w.address src }

    wr : ((b_transport m w d).0 ≡ after) × ((b_transport m w d).1.response ≡ ok_response)
    wr = b_transport-write m w d written wc wb.0 guards.0 guards.1

    rd :
        ((b_transport after r e).0 ≡ after)
        × ((b_transport after r e).1.buffer
            ≡ some (overwrite target 0 (slice after.storage r.address r.data_length)))
        × ((b_transport after r e).1.response ≡ ok_response)
    rd =
        b_transport-read after r e target rc rb
          (omega (arith, guards, length-overwrite m.storage w.address src))

    back : slice after.storage w.address w.data_length ≡ src
    back = slice-overwrite_of_length m.storage w.address src w.data_length size_src guards.1

-- A transaction on bytes that a transaction before it does not meet is answered, in its response
-- and its buffer, as if that one had not been made.
pub b_transport-frame :
    (m : MemoryTlm) (w r : Payload) (d e : SimTime)
    → (r.address + r.data_length ≤ w.address) ⊎ (w.address + w.data_length ≤ r.address)
    → (b_transport (b_transport m w d).0 r e).1 ≡ (b_transport m r e).1
unfolding b_transport
b_transport-frame m w r d e apart = elim (Option-cases w.buffer) [
  | inl b ↦ ground arith
  | inr (bytes, b) ↦ ground (
    arith,
    length-overwrite m.storage w.address (take w.data_length bytes),
    length-take w.data_length bytes,
    slice-overwrite_outside m.storage w.address (take w.data_length bytes) r.address r.data_length,
  )
]
