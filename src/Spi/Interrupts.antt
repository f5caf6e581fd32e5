-- ===== src/Spi/Interrupts.antt =====
-- What `update_intr` computes, and the reset.
use cdc_vp.Base.{
  ℕ, suc, ◌+◌, ◌*◌, ◌/◌, ◌%◌, ◌≡◌, refl, ap, ◌∙◌, Bool, true, false, not, ◌&&◌, ◌||◌, [], leb, ◌==◌,
  if◌then◌else◌, bit, arith,
}
use cdc_vp.Fifo.{Fifo, FifoLaws}
use cdc_vp.Spi.Drain.{drain-empty}
use cdc_vp.Spi.{SpiController, land, put_bit, update_intr, handle_reset}

put_2 :
    (r : ℕ) (b : Bool)
    → (bit (put_bit r 2 b) 0 ≡ bit r 0)
      × (bit (put_bit r 2 b) 1 ≡ bit r 1)
      × (bit (put_bit r 2 b) 2 ≡ b)
      × (bit (put_bit r 2 b) 3 ≡ bit r 3)
put_2 r true = ground arith
put_2 r false = ground arith

put_3 :
    (r : ℕ) (b : Bool)
    → (bit (put_bit r 3 b) 0 ≡ bit r 0)
      × (bit (put_bit r 3 b) 1 ≡ bit r 1)
      × (bit (put_bit r 3 b) 3 ≡ b)
put_3 r true = ground arith
put_3 r false = ground arith

-- A digit and what follows are 0 together.
digit_zero : (d : Bool) (n : ℕ) → not ((if d then 1 else 0) + 2 * n == 0) ≡ d || not (n == 0)
digit_zero true n = ground arith
digit_zero false n = ground arith

land_step :
    (w a b : ℕ)
    → not (land (suc w) a b == 0) ≡ (a % 2 == 1 && b % 2 == 1) || not (land w (a / 2) (b / 2) == 0)
unfolding land
land_step w a b = digit_zero (a % 2 == 1 && b % 2 == 1) (land w (a / 2) (b / 2))

bit_half :
    (x : ℕ)
    → ((x % 2 == 1) ≡ bit x 0)
      × ((x / 2 % 2 == 1) ≡ bit x 1)
      × ((x / 2 / 2 % 2 == 1) ≡ bit x 2)
      × ((x / 2 / 2 / 2 % 2 == 1) ≡ bit x 3)
bit_half x = ground arith

land_none : (a b : ℕ) → not (land 0 a b == 0) ≡ false
unfolding land
land_none a b = ground arith

either : (d : Bool) {x y : Bool} → x ≡ y → (d || x) ≡ (d || y)
either d e = ap (λ z. d || z) e

regroup : (p q r s : Bool) → (p || (q || (r || (s || false)))) ≡ (p || q || r || s)
regroup p q r s = ground arith

-- Two numbers have a common bit among the low four.
land_nonzero :
    (a b : ℕ)
    → not (land 4 a b == 0)
      ≡ (bit a 0 && bit b 0) || (bit a 1 && bit b 1) || (bit a 2 && bit b 2) || (bit a 3 && bit b 3)
land_nonzero a b =
    let (a0, a1, a2, a3) = bit_half a in
    let (b0, b1, b2, b3) = bit_half b in
    land_step 3 a b
    ∙ either (a % 2 == 1 && b % 2 == 1) (
        land_step 2 (a / 2) (b / 2)
        ∙ either (a / 2 % 2 == 1 && b / 2 % 2 == 1) (
            land_step 1 (a / 2 / 2) (b / 2 / 2)
            ∙ either (a / 2 / 2 % 2 == 1 && b / 2 / 2 % 2 == 1) (
                land_step 0 (a / 2 / 2 / 2) (b / 2 / 2 / 2)
                ∙ either (a / 2 / 2 / 2 % 2 == 1 && b / 2 / 2 / 2 % 2 == 1)
                    (land_none (a / 2 / 2 / 2 / 2) (b / 2 / 2 / 2 / 2)))))
    ∙ rw (← a0, ← a1, ← a2, ← a3, ← b0, ← b1, ← b2, ← b3)
        (regroup (a % 2 == 1 && b % 2 == 1) (a / 2 % 2 == 1 && b / 2 % 2 == 1)
          (a / 2 / 2 % 2 == 1 && b / 2 / 2 % 2 == 1)
          (a / 2 / 2 / 2 % 2 == 1 && b / 2 / 2 / 2 % 2 == 1))

module _ {F : Type 0} (fifo : Fifo F) where
  -- An update of the interrupts sets the transmit bit of the raw status exactly if at most four
  -- values wait in the transmit FIFO, the receive bit exactly if at least four can be read, keeps
  -- the overrun and the timeout bit, and raises the line exactly if one of the four bits is set both
  -- in the raw status and in the mask.
  pub update_intr_lem :
      (c : SpiController F)
      → let c' = update_intr fifo c in
        (bit c'.reg_ris 3 ≡ leb (fifo.num_available c.tx_fifo) 4)
        × (bit c'.reg_ris 2 ≡ leb 4 (fifo.num_available c.rx_fifo))
        × (bit c'.reg_ris 1 ≡ bit c.reg_ris 1)
        × (bit c'.reg_ris 0 ≡ bit c.reg_ris 0)
        × (c'.intr
            ≡ (bit c'.reg_ris 0 && bit c.reg_imsc 0)
              || (bit c'.reg_ris 1 && bit c.reg_imsc 1)
              || (bit c'.reg_ris 2 && bit c.reg_imsc 2)
              || (bit c'.reg_ris 3 && bit c.reg_imsc 3))
  unfolding update_intr
  update_intr_lem c =
      let tx : Bool = leb (fifo.num_available c.tx_fifo) 4 in
      let rx : Bool = leb 4 (fifo.num_available c.rx_fifo) in
      let (a0, a1, a3) = put_3 c.reg_ris tx in
      let (b0, b1, b2, b3) = put_2 (put_bit c.reg_ris 3 tx) rx in
      (
        b3 ∙ a3,
        b2,
        b1 ∙ a1,
        b0 ∙ a0,
        land_nonzero (put_bit (put_bit c.reg_ris 3 tx) 2 rx) c.reg_imsc,
      )

  -- The reset leaves nothing that could be read in either FIFO, all interrupts masked, the thread
  -- disabled, and an update of the interrupts notified.
  pub handle_reset_lem :
      {size : ℕ} (laws : FifoLaws fifo size) (c : SpiController F)
      → let c' = handle_reset fifo c in
        (laws.readable c'.rx_fifo ≡ [])
        × (laws.readable c'.tx_fifo ≡ [])
        × (c'.reg_imsc ≡ 0)
        × (bit c'.reg_cr1 1 ≡ false)
        × (c'.is_transmitting ≡ false)
        × (c'.intr_due ≡ true)
  unfolding handle_reset
  handle_reset_lem laws c = (
    drain-empty fifo laws (suc (fifo.num_available c.rx_fifo)) c.rx_fifo (omega arith),
    drain-empty fifo laws (suc (fifo.num_available c.tx_fifo)) c.tx_fifo (omega arith),
    refl,
    refl,
    refl,
    refl,
  )
