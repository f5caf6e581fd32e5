-- ===== src/Spi/Frames.antt =====
-- The frames that the transmit thread exchanges with the peripheral, in their order.
use cdc_vp.Base.{
  ℕ, zero, suc, ◌+◌, ◌/◌, ◌%◌, ◌^◌, ◌≤◌, ◌≡◌, refl, sym, ap, ◌∙◌, List, [], ◌∷◌, ◌++◌, length, ltb,
  if◌then◌else◌, length-append, append-nil, append_assoc, arith,
}
use cdc_vp.Tlm.{Payload, SimTime}
use cdc_vp.Fifo.{Fifo, FifoLaws}
use cdc_vp.Spi.{SpiController, frame_bits}
use cdc_vp.Spi.Transmit.{frame, received}
use cdc_vp.Spi.Rounds.{IsReady, IsRound, round, answer, round-IsRound}

module _ {P : Type 0} (peripheral : P → Payload → SimTime → P × Payload × SimTime)
    (frame_time : ℕ → ℕ → ℕ → SimTime) where
  -- The exchange of a list of values with the peripheral, whose answers are cut to the width of a
  -- frame.
  pub exchange : ℕ → ℕ → List ℕ → P → P × List ℕ
  exchange cr0 cpsr [] p = (p, [])
  exchange cr0 cpsr (x ∷ xs) p =
      let (p', trans, delay) =
        peripheral p (frame x)
          (frame_time (frame_bits cr0) (if ltb 0 cpsr then cpsr else 2) (cr0 / 256 % 256)) in
      let (q, ys) = exchange cr0 cpsr xs p' in (q, received trans % 2 ^ frame_bits cr0 ∷ ys)

module _ {F P : Type 0} (fifo : Fifo F) {size : ℕ} (laws : FifoLaws fifo size)
    (peripheral : P → Payload → SimTime → P × Payload × SimTime)
    (frame_time : ℕ → ℕ → ℕ → SimTime) where
  pub rounds : ℕ → P → SpiController F → P × SpiController F
  rounds zero p c = (p, c)
  rounds (suc n) p c = let (q, d) = round fifo laws peripheral frame_time p c in rounds n q d

  -- The values that wait in the transmit FIFO of an enabled controller go to the peripheral in the
  -- order in which they were written, with all their bits, whatever the width of a frame is; and its
  -- answers, each cut to the width of a frame, stand behind those that could be read before in the
  -- receive FIFO, in the same order, if they all have a place there: none is lost, doubled or moved.
  pub rounds-exchange :
      (xs : List ℕ) (p : P) (c : SpiController F)
      → IsReady fifo laws c
      → laws.readable c.tx_fifo ≡ xs
      → length xs + length (laws.readable c.rx_fifo) ≤ size
      → let (q, ys) = exchange peripheral frame_time c.reg_cr0 c.reg_cpsr xs p in
        let (q', d) = rounds (length xs) p c in
        (q' ≡ q)
        × (laws.readable d.tx_fifo ≡ [])
        × (laws.readable d.rx_fifo ≡ laws.readable c.rx_fifo ++ ys)
  unfolding exchange rounds IsRound answer
  rounds-exchange [] p c r e h = (refl, e, sym (append-nil (laws.readable c.rx_fifo)))
  rounds-exchange (x ∷ xs) p c r e h =
      let (peer, ready, sent, got, same_cr0, same_cpsr) =
        round-IsRound fifo laws peripheral frame_time p c x xs r e (omega arith) in
      let d : SpiController F = (round fifo laws peripheral frame_time p c).1 in
      let y : ℕ =
        received (answer fifo laws peripheral frame_time p c x).1 % 2 ^ frame_bits c.reg_cr0 in
      let room : length (laws.readable d.rx_fifo) ≡ length (laws.readable c.rx_fifo) + 1 =
        ap length got ∙ length-append (laws.readable c.rx_fifo) (y ∷ []) in
      let (peers, empty, all) =
        rounds-exchange xs (round fifo laws peripheral frame_time p c).0 d ready sent
          (omega (arith, room)) in
      let same : exchange peripheral frame_time d.reg_cr0 d.reg_cpsr xs
            (round fifo laws peripheral frame_time p c).0
          ≡ exchange peripheral frame_time c.reg_cr0 c.reg_cpsr xs
              (answer fifo laws peripheral frame_time p c x).0 =
        ap
          (λ k.
            exchange peripheral frame_time k d.reg_cpsr xs
              (round fifo laws peripheral frame_time p c).0)
          same_cr0
        ∙ ap
            (λ k.
              exchange peripheral frame_time c.reg_cr0 k xs
                (round fifo laws peripheral frame_time p c).0)
            same_cpsr
        ∙ ap (exchange peripheral frame_time c.reg_cr0 c.reg_cpsr xs) peer in
      (
        peers ∙ ap (λ u. u.0) same,
        empty,
        all
            ∙ ap
                (λ zs.
                  zs
                  ++ (exchange peripheral frame_time d.reg_cr0 d.reg_cpsr xs
                      (round fifo laws peripheral frame_time p c).0).1)
                got
            ∙ append_assoc (laws.readable c.rx_fifo) (y ∷ [])
                (exchange peripheral frame_time d.reg_cr0 d.reg_cpsr xs
                  (round fifo laws peripheral frame_time p c).0).1
            ∙ ap (λ u. laws.readable c.rx_fifo ++ (y ∷ u.1)) same,
      )
