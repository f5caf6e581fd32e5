-- ===== src/Spi.antt =====
-- components/spi_tlm/spi.cpp and spi.h: the SPI controller, with its FIFOs (Fifo) and its peripheral
-- as parameters. The transmit thread is modelled by where it waits. A delta notification of an event
-- sets a flag until the event is delivered. `none` is the exception of `SC_REPORT_ERROR`, or a data
-- pointer that is null or too short and is followed.
pub mod Transmit
pub mod Line
pub mod Registers
pub mod Drain
pub mod Interrupts
pub mod Rounds
pub mod Frames
mod Tests
use cdc_vp.Base.{
  ℕ, zero, suc, ◌+◌, ◌-◌, ◌*◌, ◌/◌, ◌%◌, ◌^◌, Bool, true, false, not, ◌&&◌, ◌||◌, Option, none,
  some, List, [], ltb, leb, ◌==◌, if◌then◌else◌, bit, set_bit, clear_bit, overwrite, take, length,
  min, le_bytes, of_le,
}
use cdc_vp.Tlm.{
  Payload, Command, read_command, write_command, ignore_command, SimTime, ok_response,
  generic_error, respond,
}
use cdc_vp.Fifo.{Fifo}

abbrev pub fifo_size : ℕ
fifo_size = 8

-- The waits of `transmit`: for the transmission event, for the end of a frame with the data received
-- and the mask of the frame, and for the next delta cycle.
pub data Phase : Type 0 where
  idle : Phase
  shifting : ℕ → ℕ → Phase
  settling : Phase

-- `spi_controller`. `intr` is the output port; the last three members are the events under way.
pub record SpiController (F : Type 0) : Type 0 where
  pub reg_cr0 : ℕ
  pub reg_cr1 : ℕ
  pub reg_dr : ℕ
  pub reg_sr : ℕ
  pub reg_cpsr : ℕ
  pub reg_imsc : ℕ
  pub reg_ris : ℕ
  pub reg_mis : ℕ
  pub reg_icr : ℕ
  pub reg_dmacr : ℕ
  pub rx_fifo : F
  pub tx_fifo : F
  pub is_transmitting : Bool
  pub intr : Bool
  pub phase : Phase
  pub transmission_due : Bool
  pub intr_due : Bool
  pub status_due : Bool

-- `a & b` on the low `w` bits.
pub land : ℕ → ℕ → ℕ → ℕ
land zero a b = 0
land (suc w) a b = (if a % 2 == 1 && b % 2 == 1 then 1 else 0) + 2 * land w (a / 2) (b / 2)

-- A bit of a register made what a test says.
abbrev pub put_bit : ℕ → ℕ → Bool → ℕ
put_bit r k true = set_bit r k
put_bit r k false = clear_bit r k

-- `(reg_cr0 & 0xF) + 1`
abbrev pub frame_bits : ℕ → ℕ
frame_bits cr0 = cr0 % 16 + 1

-- The registers that identify the peripheral, and all other offsets.
abbrev pub id_register : ℕ → ℕ
id_register offset =
    if offset == 0xFE0
    then 0x22
    else if offset == 0xFE4
    then 0x10
    else if offset == 0xFE8
    then 0x34
    else if offset == 0xFEC
    then 0x00
    else if offset == 0xFF0
    then 0x0D
    else if offset == 0xFF4
    then 0xF0
    else if offset == 0xFF8
    then 0x05
    else if offset == 0xFFC
    then 0xB1
    else 0

module _ {F : Type 0} (fifo : Fifo F) where
  unfoldable pub update_intr : SpiController F → SpiController F
  unfolding land
  update_intr c =
      let ris : ℕ =
        put_bit (put_bit c.reg_ris 3 (leb (fifo.num_available c.tx_fifo) 4)) 2
          (leb 4 (fifo.num_available c.rx_fifo)) in
      let mis : ℕ = land 4 ris c.reg_imsc in
      record c { reg_ris = ris; reg_mis = mis; intr = not (mis == 0) }

  unfoldable pub update_status_reg : SpiController F → SpiController F
  update_status_reg c =
      let full : ℕ = put_bit c.reg_sr 3 (fifo.num_available c.rx_fifo == fifo_size) in
      let not_empty : ℕ = put_bit full 2 (not (fifo.num_available c.rx_fifo == 0)) in
      let not_full : ℕ = put_bit not_empty 1 (not (fifo.num_free c.tx_fifo == 0)) in
      let empty : ℕ = put_bit not_full 0 (fifo.num_free c.tx_fifo == fifo_size) in
      record c {
        reg_sr = put_bit empty 4 (c.is_transmitting || not (fifo.num_free c.tx_fifo == 8));
      }

  -- The loop over `nb_read`, of at most `left` rounds.
  pub drain : ℕ → F → F
  drain zero f = f
  drain (suc left) f = elim (fifo.nb_read f) [ none ↦ f | some (x, f') ↦ drain left f' ]

  unfoldable pub handle_reset : SpiController F → SpiController F
  unfolding update_status_reg
  handle_reset c = update_status_reg (record c {
    reg_cr0 = 0;
    reg_cr1 = 0;
    reg_sr = 3;
    reg_cpsr = 0;
    reg_imsc = 0;
    reg_ris = 8;
    reg_mis = 0;
    reg_icr = 0;
    reg_dmacr = 0;
    rx_fifo = drain (suc (fifo.num_available c.rx_fifo)) c.rx_fifo;
    tx_fifo = drain (suc (fifo.num_available c.tx_fifo)) c.tx_fifo;
    is_transmitting = false;
    intr_due = true;
  })

  -- The result is the return value of `write_reg`. The offset is of 8 bits.
  unfoldable pub write_reg : SpiController F → ℕ → ℕ → Bool × SpiController F
  unfolding update_status_reg
  write_reg c offset value =
      if offset == 0x00
      then (true, record c { reg_cr0 = value })
      else if offset == 0x04
      then (
        true,
        record c {
          reg_cr1 = value % 16;
          transmission_due = if bit (value % 16) 1 then true else c.transmission_due;
        },
      )
      else if offset == 0x08
      then (if not (fifo.num_free c.tx_fifo == 0)
          then (
            true,
            update_status_reg (record c {
              reg_dr = value;
              tx_fifo = fifo.write c.tx_fifo value;
              intr_due = true;
              transmission_due = true;
            }),
          )
          else (false, record c { reg_dr = value }))
      else if offset == 0x10
      then (true, record c { reg_cpsr = value % 256 / 2 * 2 })
      else if offset == 0x14
      then (true, record c { reg_imsc = value % 16; intr_due = true })
      else if offset == 0x20
      then (
        true,
        record c {
          reg_icr = 3 - value % 4;
          reg_ris =
              let r : ℕ = if bit value 0 then clear_bit c.reg_ris 0 else c.reg_ris in
              if bit value 1 then clear_bit r 1 else r;
          intr_due = true;
        },
      )
      else if offset == 0x24
      then (true, record c { reg_dmacr = value % 4 })
      else (false, c)

  -- A read of the data register.
  unfoldable pub read_data : SpiController F → ℕ × SpiController F
  read_data c =
      if fifo.num_available c.rx_fifo == 0
      then (0, record c { reg_ris = set_bit c.reg_ris 0; intr_due = true })
      else let (x, rx) = fifo.read c.rx_fifo in
        (
          x % 2 ^ frame_bits c.reg_cr0,
          record c { rx_fifo = rx; intr_due = true; status_due = true },
        )

  unfoldable pub read_reg : SpiController F → ℕ → ℕ × SpiController F
  unfolding read_data
  read_reg c offset =
      if offset == 0x00
      then (c.reg_cr0, c)
      else if offset == 0x04
      then (c.reg_cr1, c)
      else if offset == 0x08
      then read_data c
      else if offset == 0x0C
      then (c.reg_sr % 32, c)
      else if offset == 0x10
      then (c.reg_cpsr % 256, c)
      else if offset == 0x14
      then (c.reg_imsc % 16, c)
      else if offset == 0x18
      then (c.reg_ris % 16, c)
      else if offset == 0x1C
      then (c.reg_mis % 16, c)
      else if offset == 0x20
      then (0, c)
      else if offset == 0x24
      then (c.reg_dmacr % 4, c)
      else (id_register offset, c)

  write_access : SpiController F → Payload → Option (SpiController F × Payload)
  write_access c trans = elim trans.buffer [
    | none ↦ none
    | some bytes ↦
        if ltb (length bytes) 2
        then none
        else let (done, c') = write_reg c (trans.address % 256) (of_le (take 2 bytes)) in
          some (c', respond trans (if done then ok_response else generic_error))
  ]

  read_access : SpiController F → Payload → Option (SpiController F × Payload)
  read_access c trans = elim trans.buffer [
    | none ↦ none
    | some bytes ↦
        let (value, c') = read_reg c (trans.address % 2 ^ 16) in
        some (
          c',
          record trans {
            buffer = some (overwrite bytes 0 (take (min 2 trans.data_length) (le_bytes 2 value)));
            response = ok_response;
          },
        )
  ]

  access : Command → SpiController F → Payload → Option (SpiController F × Payload)
  unfolding read_access write_access
  access read_command c trans = read_access c trans
  access write_command c trans = write_access c trans
  access ignore_command c trans = some (c, respond trans ok_response)

  -- `throws`: does `SC_REPORT_ERROR` throw? It does unless its actions are changed.
  unfoldable pub b_transport :
      Bool → SpiController F → Payload → SimTime → Option (SpiController F × Payload × SimTime)
  unfolding access
  b_transport throws c trans delay =
      if throws && (ltb 0xFFC trans.address || ltb 2 trans.data_length)
      then none
      else elim (access trans.command c trans) [
        | none ↦ none
        | some (c', trans') ↦ some (c', trans', delay + 20000)
      ]
