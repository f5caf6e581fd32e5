-- ===== src/Spi/Transmit.antt =====
-- The transmit thread of components/spi_tlm/spi.cpp, and the delivery of events.
use cdc_vp.Base.{
  ℕ, ◌/◌, ◌%◌, ◌^◌, true, false, not, ◌||◌, none, some, ◌==◌, ltb, if◌then◌else◌, bit, set_bit,
  take, le_bytes, of_le,
}
use cdc_vp.Tlm.{Payload, write_command, SimTime, incomplete_response}
use cdc_vp.Fifo.{Fifo}
use cdc_vp.Spi.{SpiController, Phase, idle, shifting, settling, frame_bits}

-- The payload of a frame: a write of two bytes, all else as a new payload has it.
abbrev pub frame : ℕ → Payload
frame x = record {
  command = write_command;
  address = 0;
  buffer = some (le_bytes 2 x);
  data_length = 2;
  streaming_width = 0;
  byte_enables = false;
  dmi_allowed = false;
  response = incomplete_response;
}

-- What `data_buffer` holds after the call, for a peripheral that leaves the data pointer alone.
abbrev pub received : Payload → ℕ
received trans = elim trans.buffer [ none ↦ 0 | some bytes ↦ of_le (take 2 bytes) ]

-- `peripheral` is what the initiator socket is bound to, and `frame_time` the time of a frame by its
-- bits, the clock divisor and the serial clock rate, which the code computes with floating point
-- numbers and `sc_time`.
module _ {F P : Type 0} (fifo : Fifo F) (peripheral : P → Payload → SimTime → P × Payload × SimTime)
    (frame_time : ℕ → ℕ → ℕ → SimTime) where
  -- A frame from its start to the wait for its end, with the time of that wait.
  unfoldable pub send : P → SpiController F → P × SpiController F × SimTime
  send p c =
      let (x, tx) = fifo.read c.tx_fifo in
      let bits : ℕ = frame_bits c.reg_cr0 in
      let divisor : ℕ = if ltb 0 c.reg_cpsr then c.reg_cpsr else 2 in
      let (p', trans, delay) =
        peripheral p (frame x) (frame_time bits divisor (c.reg_cr0 / 256 % 256)) in
      (
        p',
        record c {
          is_transmitting = true;
          status_due = true;
          tx_fifo = tx;
          phase = shifting (received trans) bits;
        },
        delay,
      )

  -- From the head of the loop to its next wait; the time is 0 for the wait for an event.
  unfoldable pub loop_head : P → SpiController F → P × SpiController F × SimTime
  unfolding send
  loop_head p c =
      if fifo.num_available c.tx_fifo == 0 || not (bit c.reg_cr1 1)
      then (p, record c { is_transmitting = false; status_due = true; phase = idle }, 0)
      else send p c

  -- The end of the wait for a frame, up to the wait for the next delta cycle.
  unfoldable pub store : ℕ → ℕ → SpiController F → SpiController F
  store x bits c =
      if fifo.num_free c.rx_fifo == 0
      then record c { reg_ris = set_bit c.reg_ris 0; phase = settling }
      else record c { rx_fifo = fifo.write c.rx_fifo (x % 2 ^ bits); phase = settling }

  unfoldable pub resume : Phase → P → SpiController F → P × SpiController F × SimTime
  resume idle p c = loop_head p (record c { transmission_due = false })
  resume (shifting x bits) p c = (p, store x bits c, 0)
  resume settling p c = loop_head p (record c { status_due = true; intr_due = true })

  -- The thread from where it waits to its next wait.
  unfoldable pub transmit : P → SpiController F → P × SpiController F × SimTime
  unfolding resume
  transmit p c = resume c.phase p c
