-- ===== src/Spi/Registers.antt =====
-- The status and interrupt bits that the SPI controller computes, its reset, and the decoding of
-- the addresses of writes.
use cdc_vp.Base.{
  ℕ, ◌%◌, ◌≡◌, inl, inr, Bool, true, false, not, ◌||◌, some, ◌==◌, bit, Option-cases, ◌∙◌, arith,
}
use cdc_vp.Tlm.{Payload, write_command, SimTime, set_address}
use cdc_vp.Fifo.{Fifo}
use cdc_vp.Spi.{SpiController, put_bit, update_status_reg, b_transport}

-- The bits of `reg_sr`, of which the low five are used.
pub record StatusIs (sr : ℕ) (empty not_full not_empty full busy : Bool) : Type 0 where
  pub bit_0 : bit sr 0 ≡ empty
  pub bit_1 : bit sr 1 ≡ not_full
  pub bit_2 : bit sr 2 ≡ not_empty
  pub bit_3 : bit sr 3 ≡ full
  pub bit_4 : bit sr 4 ≡ busy

-- A bit of a register that has been put, and the bits beside it.
put_2 : (r : ℕ) (b : Bool) → (bit (put_bit r 2 b) 2 ≡ b) × (bit (put_bit r 2 b) 3 ≡ bit r 3)
put_2 r true = ground arith
put_2 r false = ground arith

put_1 :
    (r : ℕ) (b : Bool)
    → (bit (put_bit r 1 b) 1 ≡ b)
      × (bit (put_bit r 1 b) 2 ≡ bit r 2)
      × (bit (put_bit r 1 b) 3 ≡ bit r 3)
put_1 r true = ground arith
put_1 r false = ground arith

put_0 :
    (r : ℕ) (b : Bool)
    → (bit (put_bit r 0 b) 0 ≡ b)
      × (bit (put_bit r 0 b) 1 ≡ bit r 1)
      × (bit (put_bit r 0 b) 2 ≡ bit r 2)
      × (bit (put_bit r 0 b) 3 ≡ bit r 3)
put_0 r true = ground arith
put_0 r false = ground arith

put_3 : (r : ℕ) (b : Bool) → bit (put_bit r 3 b) 3 ≡ b
put_3 r true = ground arith
put_3 r false = ground arith

put_4 :
    (r : ℕ) (b : Bool)
    → (bit (put_bit r 4 b) 0 ≡ bit r 0)
      × (bit (put_bit r 4 b) 1 ≡ bit r 1)
      × (bit (put_bit r 4 b) 2 ≡ bit r 2)
      × (bit (put_bit r 4 b) 3 ≡ bit r 3)
      × (bit (put_bit r 4 b) 4 ≡ b)
put_4 r true = ground arith
put_4 r false = ground arith

-- The five bits put in the order of the code.
put_all :
    (r : ℕ) (full not_empty not_full empty busy : Bool)
    → StatusIs
        (put_bit
          (put_bit (put_bit (put_bit (put_bit r 3 full) 2 not_empty) 1 not_full) 0 empty)
          4
          busy)
        empty
        not_full
        not_empty
        full
        busy
put_all r full not_empty not_full empty busy =
    let r3 : ℕ = put_bit r 3 full in
    let r2 : ℕ = put_bit r3 2 not_empty in
    let r1 : ℕ = put_bit r2 1 not_full in
    let r0 : ℕ = put_bit r1 0 empty in
    let (a0, a1, a2, a3, a4) = put_4 r0 busy in
    let (b0, b1, b2, b3) = put_0 r1 empty in
    let (c1, c2, c3) = put_1 r2 not_full in
    let (d2, d3) = put_2 r3 not_empty in
    record {
      bit_0 = a0 ∙ b0;
      bit_1 = a1 ∙ b1 ∙ c1;
      bit_2 = a2 ∙ b2 ∙ c2 ∙ d2;
      bit_3 = a3 ∙ b3 ∙ c3 ∙ d3 ∙ put_3 r full;
      bit_4 = a4;
    }

module _ {F : Type 0} (fifo : Fifo F) where
  -- After an update of the status register its bits say, for any register before: transmit FIFO
  -- empty and not full, receive FIFO not empty and full, and the controller busy, which is
  -- transmitting or with values left to transmit.
  pub update_status_reg_lem :
      (c : SpiController F)
      → StatusIs
          (update_status_reg fifo c).reg_sr
          (fifo.num_free c.tx_fifo == 8)
          (not (fifo.num_free c.tx_fifo == 0))
          (not (fifo.num_available c.rx_fifo == 0))
          (fifo.num_available c.rx_fifo == 8)
          (c.is_transmitting || not (fifo.num_free c.tx_fifo == 8))
  unfolding update_status_reg
  update_status_reg_lem c =
      put_all c.reg_sr (fifo.num_available c.rx_fifo == 8) (not (fifo.num_available c.rx_fifo == 0))
        (not (fifo.num_free c.tx_fifo == 0)) (fifo.num_free c.tx_fifo == 8)
        (c.is_transmitting || not (fifo.num_free c.tx_fifo == 8))

  -- A write at an address above 255 does what the write at the address modulo 256 does, since
  -- `write_reg` takes its offset as an 8-bit number.
  pub write_aliases :
      (throws : Bool) (c c' : SpiController F) (trans trans' : Payload) (delay delay' : SimTime)
      → trans.command ≡ write_command
      → b_transport fifo throws c trans delay ≡ some (c', trans', delay')
      → b_transport fifo throws c (set_address trans (trans.address % 256)) delay
        ≡ some (c', set_address trans' (trans.address % 256), delay')
  unfolding b_transport
  write_aliases throws c c' trans trans' delay delay' w e = elim (Option-cases trans.buffer) [
    | inl null ↦ ground arith
    | inr (bytes, data_ptr) ↦
        let twice : trans.address % 256 % 256 ≡ trans.address % 256 = omega arith in ground arith
  ]
