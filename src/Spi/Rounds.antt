-- ===== src/Spi/Rounds.antt =====
-- One round of the transmit thread of the SPI controller: a frame and what it leaves.
use cdc_vp.Base.{
  ℕ, ◌-◌, ◌/◌, ◌%◌, ◌^◌, ◌<◌, ◌≡◌, refl, sym, ap, ◌∙◌, true, false, List, [], ◌∷◌, ◌++◌, length,
  ltb, if◌then◌else◌, bit, append-nil, subst, arith,
}
use cdc_vp.Tlm.{Payload, SimTime}
use cdc_vp.Fifo.{Fifo, FifoLaws}
use cdc_vp.Spi.{SpiController, Phase, idle, shifting, settling, frame_bits}
use cdc_vp.Spi.Transmit.{frame, received, send, loop_head, store, resume, transmit}

-- At the head of its loop when it wakes.
abbrev pub AtHead : Phase → Type 0
AtHead idle = Unit {0}
AtHead (shifting x bits) = ⊥
AtHead settling = Unit {0}

module _ {F : Type 0} (fifo : Fifo F) {size : ℕ} (laws : FifoLaws fifo size) where
  -- Enabled, at the head of the loop, with no value in the FIFOs that waits for the update phase.
  pub record IsReady (c : SpiController F) : Type 0 where
    pub at_head : AtHead c.phase
    pub is_enabled : bit c.reg_cr1 1 ≡ true
    pub tx_settled : laws.written c.tx_fifo ≡ []
    pub rx_settled : laws.written c.rx_fifo ≡ []
    pub rx_free : fifo.num_free c.rx_fifo ≡ size - length (laws.readable c.rx_fifo)

module _ {F P : Type 0} (fifo : Fifo F) {size : ℕ} (laws : FifoLaws fifo size)
    (peripheral : P → Payload → SimTime → P × Payload × SimTime)
    (frame_time : ℕ → ℕ → ℕ → SimTime) where
  -- A frame from its start to the wait for the next delta cycle, whose update phase follows.
  pub round : P → SpiController F → P × SpiController F
  round p c =
      let (p', c', delay) = transmit fifo peripheral frame_time p c in
      let (q, d, none_left) = transmit fifo peripheral frame_time p' c' in
      (q, record d { rx_fifo = laws.update d.rx_fifo; tx_fifo = laws.update d.tx_fifo })

  -- What a round leaves: the oldest value has gone to the peripheral and its answer is received.
  unfoldable pub IsRound : P → SpiController F → ℕ → List ℕ → P → SpiController F → Type 0
  IsRound p c x xs q d =
      let (p', trans, delay) = peripheral p (frame x) (
        frame_time (frame_bits c.reg_cr0) (if ltb 0 c.reg_cpsr then c.reg_cpsr else 2)
          (c.reg_cr0 / 256 % 256)) in
      (q ≡ p')
      × IsReady fifo laws d
      × (laws.readable d.tx_fifo ≡ xs)
      × (laws.readable d.rx_fifo
          ≡ laws.readable c.rx_fifo ++ (received trans % 2 ^ frame_bits c.reg_cr0 ∷ []))
      × (d.reg_cr0 ≡ c.reg_cr0)
      × (d.reg_cpsr ≡ c.reg_cpsr)

  store_free :
      (y bits : ℕ) (c : SpiController F)
      → 0 < fifo.num_free c.rx_fifo
      → store fifo peripheral frame_time y bits c
        ≡ record c { rx_fifo = fifo.write c.rx_fifo (y % 2 ^ bits); phase = settling }
  unfolding store
  store_free y bits c h = ground arith

  loop_head-send :
      (p : P) (c : SpiController F)
      → 0 < fifo.num_available c.tx_fifo
      → bit c.reg_cr1 1 ≡ true
      → loop_head fifo peripheral frame_time p c ≡ send fifo peripheral frame_time p c
  unfolding loop_head
  loop_head-send p c h e = ground arith

  readable-sent :
      (f : F) (x : ℕ) (xs : List ℕ)
      → laws.readable f ≡ x ∷ xs
      → laws.written f ≡ []
      → laws.readable (laws.update (fifo.read f).1) ≡ xs
  readable-sent f x xs e w =
      laws.readable-update (fifo.read f).1
      ∙ ap (λ ys. ys ++ laws.written (fifo.read f).1) (laws.readable-read f x xs e).1
      ∙ ap (λ ys. xs ++ ys) (laws.written-read f ∙ w)
      ∙ append-nil xs

  readable-stored :
      (f : F) (y : ℕ)
      → laws.written f ≡ []
      → 0 < fifo.num_free f
      → laws.readable (laws.update (fifo.write f y)) ≡ laws.readable f ++ (y ∷ [])
  readable-stored f y w h =
      laws.readable-update (fifo.write f y)
      ∙ ap (λ ys. ys ++ laws.written (fifo.write f y)) (laws.readable-write f y)
      ∙ ap (λ ys. laws.readable f ++ ys) (laws.written-write f y h ∙ ap (λ ys. ys ++ (y ∷ [])) w)

  -- The end of a round whose frame has been started.
  finish : P × SpiController F × SimTime → P × SpiController F
  finish (p, c, delay) =
      let (q, d, none_left) = transmit fifo peripheral frame_time p c in
      (q, record d { rx_fifo = laws.update d.rx_fifo; tx_fifo = laws.update d.tx_fifo })

  -- The peripheral's answer to a value.
  unfoldable pub answer : P → SpiController F → ℕ → P × Payload × SimTime
  answer p c x = peripheral p (frame x) (
      frame_time (frame_bits c.reg_cr0) (if ltb 0 c.reg_cpsr then c.reg_cpsr else 2)
        (c.reg_cr0 / 256 % 256))

  -- The end of a round with this value.
  after : P → SpiController F → ℕ → P × SpiController F
  after p c x =
      let (q, trans, delay) = answer p c x in
      (
        q,
        record c {
          is_transmitting = true;
          status_due = true;
          tx_fifo = laws.update (fifo.read c.tx_fifo).1;
          rx_fifo = laws.update (fifo.write c.rx_fifo (received trans % 2 ^ frame_bits c.reg_cr0));
          phase = settling;
        },
      )

  after-IsRound :
      (p : P) (c : SpiController F) (x : ℕ) (xs : List ℕ)
      → bit c.reg_cr1 1 ≡ true
      → laws.written c.tx_fifo ≡ []
      → laws.written c.rx_fifo ≡ []
      → 0 < fifo.num_free c.rx_fifo
      → laws.readable c.tx_fifo ≡ x ∷ xs
      → let u = after p c x in IsRound p c x xs u.0 u.1
  unfolding after IsRound answer
  after-IsRound p c x xs en wt wr free e =
      let y : ℕ = received (answer p c x).1 % 2 ^ frame_bits c.reg_cr0 in
      (
        refl,
        record {
          at_head = tt;
          is_enabled = en;
          tx_settled = laws.written-update (fifo.read c.tx_fifo).1;
          rx_settled = laws.written-update (fifo.write c.rx_fifo y);
          rx_free = laws.num_free-update (fifo.write c.rx_fifo y);
        },
        readable-sent c.tx_fifo x xs e wt,
        readable-stored c.rx_fifo y wr free,
        refl,
        refl,
      )

  -- The state with which a round ends.
  updated : P → SpiController F → P × SpiController F
  updated q d = (q, record d { rx_fifo = laws.update d.rx_fifo; tx_fifo = laws.update d.tx_fifo })

  finish-send :
      (p : P) (c : SpiController F) (x : ℕ) (xs : List ℕ)
      → 0 < fifo.num_free c.rx_fifo
      → laws.readable c.tx_fifo ≡ x ∷ xs
      → finish (send fifo peripheral frame_time p c) ≡ after p c x
  unfolding finish send transmit resume after answer updated
  finish-send p c x xs free e =
      let z : ℕ = (fifo.read c.tx_fifo).0 in
      let y : ℕ = received (answer p c z).1 in
      let bits : ℕ = frame_bits c.reg_cr0 in
      let d : SpiController F = (send fifo peripheral frame_time p c).1 in
      ap (updated (answer p c z).0) (store_free y bits d free)
      ∙ ap (after p c) (laws.readable-read c.tx_fifo x xs e).0

  loop_head-IsRound :
      (p : P) (c : SpiController F) (x : ℕ) (xs : List ℕ)
      → bit c.reg_cr1 1 ≡ true
      → laws.written c.tx_fifo ≡ []
      → laws.written c.rx_fifo ≡ []
      → 0 < fifo.num_free c.rx_fifo
      → laws.readable c.tx_fifo ≡ x ∷ xs
      → let u = finish (loop_head fifo peripheral frame_time p c) in IsRound p c x xs u.0 u.1
  loop_head-IsRound p c x xs en wt wr free e =
      let waiting : 0 < fifo.num_available c.tx_fifo =
        omega (arith, laws.num_available_length c.tx_fifo, ap length e) in
      subst (λ u. IsRound p c x xs u.0 u.1)
        (sym (ap finish (loop_head-send p c waiting en) ∙ finish-send p c x xs free e))
        (after-IsRound p c x xs en wt wr free e)

  -- The thread that wakes at the head of its loop starts a frame.
  resume-IsRound :
      (q : Phase) (p : P) (c : SpiController F) (x : ℕ) (xs : List ℕ)
      → AtHead q
      → bit c.reg_cr1 1 ≡ true
      → laws.written c.tx_fifo ≡ []
      → laws.written c.rx_fifo ≡ []
      → 0 < fifo.num_free c.rx_fifo
      → laws.readable c.tx_fifo ≡ x ∷ xs
      → let u = finish (resume fifo peripheral frame_time q p c) in IsRound p c x xs u.0 u.1
  unfolding resume IsRound
  resume-IsRound idle p c x xs at_head en wt wr free e =
      loop_head-IsRound p (record c { transmission_due = false }) x xs en wt wr free e
  resume-IsRound (shifting y bits) p c x xs at_head en wt wr free e = absurd at_head
  resume-IsRound settling p c x xs at_head en wt wr free e =
      loop_head-IsRound p (record c { status_due = true; intr_due = true }) x xs en wt wr free e

  pub round-IsRound :
      (p : P) (c : SpiController F) (x : ℕ) (xs : List ℕ)
      → IsReady fifo laws c
      → laws.readable c.tx_fifo ≡ x ∷ xs
      → length (laws.readable c.rx_fifo) < size
      → IsRound p c x xs (round p c).0 (round p c).1
  unfolding round transmit finish
  round-IsRound p c x xs r e h =
      resume-IsRound c.phase p c x xs r.at_head r.is_enabled r.tx_settled r.rx_settled
        (omega (arith, r.rx_free)) e
