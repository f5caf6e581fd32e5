-- ===== src/Spi/Line.antt =====
-- The interrupt line over runs of the controller.
use cdc_vp.Base.{
  ℕ, ◌%◌, ◌^◌, ◌≡◌, ◌⊎◌, refl, inl, inr, Bool, true, false, not, Option, none, some, List, [], ◌∷◌,
  take, of_le, ◌==◌, if◌then◌else◌, Option-cases, ap, subst, arith,
}
use cdc_vp.Tlm.{Payload, SimTime}
use cdc_vp.Fifo.{Fifo}
use cdc_vp.Spi.{
  SpiController, Phase, idle, shifting, settling, land, update_intr, update_status_reg,
  handle_reset, write_reg, read_reg, b_transport,
}
use cdc_vp.Spi.Transmit.{loop_head, store, resume, transmit}

-- The masked status is the raw status under the mask, and the line is raised exactly if it is not 0;
-- or an update is under way, or follows the delta cycle that the thread waits for.
pub IsCurrent : {F : Type 0} → SpiController F → Type 0
IsCurrent c =
    (c.phase ≡ settling)
    ⊎ (c.intr_due ≡ true)
    ⊎ ((c.reg_mis ≡ land 4 c.reg_ris c.reg_imsc) × (c.intr ≡ not (c.reg_mis == 0)))

-- What happens to the controller: a transaction, the delivery of an event, the end of a wait of the
-- thread that is not for an event, the reset, or an update phase of the FIFOs.
pub data Happening (F : Type 0) : Type 0 where
  bus : Bool → Payload → SimTime → Happening F
  intr_event status_event transmission_event wait_over reset_falls : Happening F
  update_phase : F → F → Happening F

module _ {F P : Type 0} (fifo : Fifo F) (peripheral : P → Payload → SimTime → P × Payload × SimTime)
    (frame_time : ℕ → ℕ → ℕ → SimTime) where
  -- The transmission event is delivered: a thread that waits for another thing misses it.
  unfoldable pub wake : Phase → Bool → P → SpiController F → P × SpiController F × SimTime
  wake idle true p c = transmit fifo peripheral frame_time p c
  wake idle false p c = (p, c, 0)
  wake (shifting x bits) due p c = (p, record c { transmission_due = false }, 0)
  wake settling due p c = (p, record c { transmission_due = false }, 0)

  -- The wait of the thread ends without an event.
  unfoldable pub wait_ends : Phase → P → SpiController F → P × SpiController F × SimTime
  wait_ends idle p c = (p, c, 0)
  wait_ends (shifting x bits) p c = transmit fifo peripheral frame_time p c
  wait_ends settling p c = transmit fifo peripheral frame_time p c

  abbrev pub deliver_intr : SpiController F → SpiController F
  deliver_intr c = if c.intr_due then update_intr fifo (record c { intr_due = false }) else c

  abbrev pub deliver_status : SpiController F → SpiController F
  deliver_status c =
      if c.status_due then update_status_reg fifo (record c { status_due = false }) else c

  abbrev pub ends_in : P × SpiController F × SimTime → Option (P × SpiController F)
  ends_in (p, c, delay) = some (p, c)

  unfoldable pub step : P → SpiController F → Happening F → Option (P × SpiController F)
  unfolding wake wait_ends
  step p c (bus throws trans delay) = elim (b_transport fifo throws c trans delay) [
    | none ↦ none
    | some (c', trans', delay') ↦ some (p, c')
  ]
  step p c intr_event = some (p, deliver_intr c)
  step p c status_event = some (p, deliver_status c)
  step p c transmission_event = ends_in (wake c.phase c.transmission_due p c)
  step p c wait_over = ends_in (wait_ends c.phase p c)
  step p c reset_falls = some (p, handle_reset fifo c)
  step p c (update_phase rx tx) = some (p, record c { rx_fifo = rx; tx_fifo = tx })

  -- A transaction that is undefined, or throws, ends the run.
  unfoldable pub run : P → SpiController F → List (Happening F) → Option (P × SpiController F)
  run p c [] = some (p, c)
  run p c (e ∷ es) = elim (step p c e) [ none ↦ none | some (p', c') ↦ run p' c' es ]

  update_intr-IsCurrent : (c : SpiController F) → IsCurrent (update_intr fifo c)
  unfolding update_intr IsCurrent
  update_intr-IsCurrent c = inr (inr (refl, refl))

  handle_reset-IsCurrent : (c : SpiController F) → IsCurrent (handle_reset fifo c)
  unfolding handle_reset IsCurrent
  handle_reset-IsCurrent c = inr (inl refl)

  write_reg-IsCurrent :
      (c : SpiController F) (offset value : ℕ)
      → IsCurrent c
      → IsCurrent (write_reg fifo c offset value).1
  unfolding write_reg IsCurrent
  write_reg-IsCurrent c offset value h = ground arith

  read_reg-IsCurrent :
      (c : SpiController F) (offset : ℕ) → IsCurrent c → IsCurrent (read_reg fifo c offset).1
  unfolding read_reg IsCurrent
  read_reg-IsCurrent c offset h = ground arith

  b_transport-IsCurrent :
      (throws : Bool) (c c' : SpiController F) (trans trans' : Payload) (delay delay' : SimTime)
      → IsCurrent c
      → b_transport fifo throws c trans delay ≡ some (c', trans', delay')
      → IsCurrent c'
  unfolding b_transport
  b_transport-IsCurrent throws c c' trans trans' delay delay' h e =
      elim (Option-cases trans.buffer) [
        | inl null ↦ ground arith
        | inr (bytes, data_ptr) ↦
            let wr = write_reg-IsCurrent c (trans.address % 256) (of_le (take 2 bytes)) h in
            let rd = read_reg-IsCurrent c (trans.address % 2 ^ 16) h in ground arith
      ]

  loop_head-IsCurrent :
      (p : P) (c : SpiController F)
      → (c.intr_due ≡ true)
        ⊎ ((c.reg_mis ≡ land 4 c.reg_ris c.reg_imsc) × (c.intr ≡ not (c.reg_mis == 0)))
      → IsCurrent (loop_head fifo peripheral frame_time p c).1
  unfolding loop_head IsCurrent
  loop_head-IsCurrent p c h = ground arith

  choice-IsCurrent :
      (b : Bool) (c c' : SpiController F)
      → IsCurrent c
      → IsCurrent c'
      → IsCurrent (if b then c else c')
  choice-IsCurrent true c c' h h' = h
  choice-IsCurrent false c c' h h' = h'

  resume-IsCurrent :
      (q : Phase) (p : P) (c : SpiController F)
      → c.phase ≡ q
      → IsCurrent c
      → IsCurrent (resume fifo peripheral frame_time q p c).1
  unfolding resume store IsCurrent
  resume-IsCurrent idle p c e h =
      loop_head-IsCurrent p (record c { transmission_due = false }) (ground arith)
  resume-IsCurrent (shifting x bits) p c e h = ground arith
  resume-IsCurrent settling p c e h =
      loop_head-IsCurrent p (record c { status_due = true; intr_due = true }) (inl refl)

  transmit-IsCurrent :
      (p : P) (c : SpiController F)
      → IsCurrent c
      → IsCurrent (transmit fifo peripheral frame_time p c).1
  unfolding transmit
  transmit-IsCurrent p c h = resume-IsCurrent c.phase p c refl h

  wake-IsCurrent :
      (q : Phase) (due : Bool) (p : P) (c : SpiController F)
      → IsCurrent c
      → IsCurrent (wake q due p c).1
  unfolding wake IsCurrent
  wake-IsCurrent idle true p c h = transmit-IsCurrent p c h
  wake-IsCurrent idle false p c h = h
  wake-IsCurrent (shifting x bits) due p c h = h
  wake-IsCurrent settling due p c h = h

  wait_ends-IsCurrent :
      (q : Phase) (p : P) (c : SpiController F) → IsCurrent c → IsCurrent (wait_ends q p c).1
  unfolding wait_ends
  wait_ends-IsCurrent idle p c h = h
  wait_ends-IsCurrent (shifting x bits) p c h = transmit-IsCurrent p c h
  wait_ends-IsCurrent settling p c h = transmit-IsCurrent p c h

  deliver_intr-IsCurrent : (c : SpiController F) → IsCurrent c → IsCurrent (deliver_intr c)
  deliver_intr-IsCurrent c h =
      choice-IsCurrent c.intr_due (update_intr fifo (record c { intr_due = false })) c
        (update_intr-IsCurrent (record c { intr_due = false })) h

  status-IsCurrent :
      (c : SpiController F)
      → IsCurrent c
      → IsCurrent (update_status_reg fifo (record c { status_due = false }))
  unfolding update_status_reg IsCurrent
  status-IsCurrent c h = h

  deliver_status-IsCurrent : (c : SpiController F) → IsCurrent c → IsCurrent (deliver_status c)
  deliver_status-IsCurrent c h =
      choice-IsCurrent c.status_due (update_status_reg fifo (record c { status_due = false })) c
        (status-IsCurrent c h) h

  update_phase-IsCurrent :
      (c : SpiController F) (rx tx : F)
      → IsCurrent c
      → IsCurrent (record c { rx_fifo = rx; tx_fifo = tx })
  unfolding IsCurrent
  update_phase-IsCurrent c rx tx h = h

  -- The state that a step ends in, where it ends.
  end_of : SpiController F → Option (P × SpiController F) → SpiController F
  end_of c none = c
  end_of c (some (p, c')) = c'

  step-IsCurrent :
      (p p' : P) (c c' : SpiController F) (e : Happening F)
      → IsCurrent c
      → step p c e ≡ some (p', c')
      → IsCurrent c'
  unfolding step end_of
  step-IsCurrent p p' c c' (bus throws trans delay) h d =
      elim (Option-cases (b_transport fifo throws c trans delay)) [
        | inl fault ↦ ground arith
        | inr ((u, trans', delay'), done) ↦
            ground (arith, b_transport-IsCurrent throws c u trans trans' delay delay' h done)
      ]
  step-IsCurrent p p' c c' intr_event h d =
      subst IsCurrent (ap (end_of c) d) (deliver_intr-IsCurrent c h)
  step-IsCurrent p p' c c' status_event h d =
      subst IsCurrent (ap (end_of c) d) (deliver_status-IsCurrent c h)
  step-IsCurrent p p' c c' transmission_event h d =
      subst IsCurrent (ap (end_of c) d) (wake-IsCurrent c.phase c.transmission_due p c h)
  step-IsCurrent p p' c c' wait_over h d =
      subst IsCurrent (ap (end_of c) d) (wait_ends-IsCurrent c.phase p c h)
  step-IsCurrent p p' c c' reset_falls h d =
      subst IsCurrent (ap (end_of c) d) (handle_reset-IsCurrent c)
  step-IsCurrent p p' c c' (update_phase rx tx) h d =
      subst IsCurrent (ap (end_of c) d) (update_phase-IsCurrent c rx tx h)

  run-IsCurrent :
      (p p' : P) (c c' : SpiController F) (es : List (Happening F))
      → IsCurrent c
      → run p c es ≡ some (p', c')
      → IsCurrent c'
  unfolding run end_of
  run-IsCurrent p p' c c' [] h d = subst IsCurrent (ap (end_of c) d) h
  run-IsCurrent p p' c c' (e ∷ es) h d = elim (Option-cases (step p c e)) [
    | inl fault ↦ ground arith
    | inr ((q, u), done) ↦
        run-IsCurrent q p' u c' es (step-IsCurrent p q c u e h done) (rw (done, run) at d)
  ]

  -- From the reset at the start of the simulation on, through any transactions, deliveries of
  -- events, waits of the thread, resets and FIFO contents, for any peripheral: the masked interrupt
  -- status is the raw status under the mask and the interrupt line is raised exactly if it is not 0,
  -- unless an update of the two has been notified or the thread waits for the delta cycle before
  -- it does so.
  pub run-handle_reset-IsCurrent :
      (p p' : P) (c c' : SpiController F) (es : List (Happening F))
      → run p (handle_reset fifo c) es ≡ some (p', c')
      → IsCurrent c'
  run-handle_reset-IsCurrent p p' c c' es d =
      run-IsCurrent p p' (handle_reset fifo c) c' es (handle_reset-IsCurrent c) d
