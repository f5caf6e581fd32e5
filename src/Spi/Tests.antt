-- ===== src/Spi/Tests.antt =====
-- The SPI controller at concrete values, with a FIFO and peripherals of its own.
use cdc_vp.Base.{
  ℕ, suc, ◌+◌, ◌-◌, ◌%◌, ◌<◌, ◌≤◌, ◌≡◌, refl, true, false, none, some, Option, List, [], ◌∷◌, ◌++◌,
  length, length-append, not, ◌&&◌, ◌||◌, leb, ◌==◌, bit, le_bytes, arith,
}
use cdc_vp.Tlm.{Payload, SimTime, ok_response, respond, set_address}
use cdc_vp.Fixtures.{transaction}
use cdc_vp.Tlm.{write_command}
use cdc_vp.Fifo.{Fifo, FifoLaws}
use cdc_vp.Spi.{
  SpiController, idle, update_intr, update_status_reg, handle_reset, drain, write_reg, b_transport,
}
use cdc_vp.Spi.Line.{IsCurrent, Happening, bus, intr_event, step, run, run-handle_reset-IsCurrent}
use cdc_vp.Spi.Drain.{drain_ends}
use cdc_vp.Spi.Registers.{StatusIs, update_status_reg_lem, write_aliases}
use cdc_vp.Spi.Interrupts.{update_intr_lem, handle_reset_lem}
use cdc_vp.Spi.Rounds.{IsReady}
use cdc_vp.Spi.Frames.{exchange, rounds, rounds-exchange}

-- A FIFO of eight places: the values to be read, those written since the last update phase, and the
-- number of those read since.
record Queue : Type 0 where
  pub front : List ℕ
  pub back : List ℕ
  pub taken : ℕ

read_queue : List ℕ → List ℕ → ℕ → ℕ × Queue
read_queue [] ys n = (0, record { front = []; back = ys; taken = n })
read_queue (x ∷ xs) ys n = (x, record { front = xs; back = ys; taken = suc n })

nb_read_queue : List ℕ → List ℕ → ℕ → Option (ℕ × Queue)
nb_read_queue [] ys n = none
nb_read_queue (x ∷ xs) ys n = some (x, record { front = xs; back = ys; taken = suc n })

queue : Fifo Queue
unfolding read_queue nb_read_queue
queue = record {
  num_available = λ f. length f.front;
  num_free = λ f. 8 - length f.front - length f.back - f.taken;
  read = λ f. read_queue f.front f.back f.taken;
  nb_read = λ f. nb_read_queue f.front f.back f.taken;
  write = λ f x. record f { back = f.back ++ (x ∷ []) };
}

read_queue_lem :
    (ys zs : List ℕ) (n x : ℕ) (xs : List ℕ)
    → zs ≡ x ∷ xs
    → ((read_queue zs ys n).0 ≡ x) × ((read_queue zs ys n).1.front ≡ xs)
unfolding read_queue
read_queue_lem ys [] n x xs e = ground arith
read_queue_lem ys (z ∷ zs) n x xs e = ground arith

back-read_queue : (zs ys : List ℕ) (n : ℕ) → (read_queue zs ys n).1.back ≡ ys
unfolding read_queue
back-read_queue [] ys n = refl
back-read_queue (z ∷ zs) ys n = refl

nb_read_queue-none : (zs ys : List ℕ) (n : ℕ) → length zs ≡ 0 → nb_read_queue zs ys n ≡ none
unfolding nb_read_queue
nb_read_queue-none [] ys n h = refl
nb_read_queue-none (z ∷ zs) ys n h = absurd (omega arith)

nb_read_queue-some :
    (zs ys : List ℕ) (n : ℕ) → 0 < length zs → nb_read_queue zs ys n ≡ some (read_queue zs ys n)
unfolding nb_read_queue read_queue
nb_read_queue-some [] ys n h = absurd (omega arith)
nb_read_queue-some (z ∷ zs) ys n h = refl

free-read_queue :
    (zs ys : List ℕ) (n : ℕ)
    → 0 < length zs
    → let f = (read_queue zs ys n).1 in
      8 - length f.front - length f.back - f.taken ≡ 8 - length zs - length ys - n
unfolding read_queue
free-read_queue [] ys n h = absurd (omega arith)
free-read_queue (z ∷ zs) ys n h = omega arith

queue_laws : FifoLaws queue 8
unfolding queue
queue_laws = record {
  readable = λ f. f.front;
  written = λ f. f.back;
  update = λ f. record { front = f.front ++ f.back; back = []; taken = 0 };
  num_available_length = λ f. refl;
  readable-read = λ f x xs e. read_queue_lem f.back f.front f.taken x xs e;
  written-read = λ f. back-read_queue f.front f.back f.taken;
  nb_read_empty = λ f. nb_read_queue-none f.front f.back f.taken;
  nb_read_some = λ f. nb_read_queue-some f.front f.back f.taken;
  num_free-read = λ f. free-read_queue f.front f.back f.taken;
  readable-write = λ f x. refl;
  written-write = λ f x h. refl;
  num_free-write = λ f x h. omega (arith, length-append f.back (x ∷ []));
  readable-update = λ f. refl;
  written-update = λ f. refl;
  num_free-update = λ f. omega arith;
}

-- A peripheral that sends back what it gets, and counts the frames.
abbrev echo : ℕ → Payload → SimTime → ℕ × Payload × SimTime
echo n trans delay = (suc n, trans, delay)

abbrev microsecond : ℕ → ℕ → ℕ → SimTime
microsecond bits divisor rate = 1000000

abbrev empty_queue : Queue
empty_queue = record { front = []; back = []; taken = 0 }

abbrev controller : SpiController Queue
controller = record {
  reg_cr0 = 7;
  reg_cr1 = 2;
  reg_dr = 0;
  reg_sr = 3;
  reg_cpsr = 2;
  reg_imsc = 8;
  reg_ris = 8;
  reg_mis = 8;
  reg_icr = 0;
  reg_dmacr = 0;
  rx_fifo = empty_queue;
  tx_fifo = record { front = 5 ∷ 0x123 ∷ []; back = []; taken = 0 };
  is_transmitting = false;
  intr = true;
  phase = idle;
  transmission_due = true;
  intr_due = false;
  status_due = false;
}

two_wait : queue.num_available controller.tx_fifo < 3
unfolding queue
two_wait = omega arith

-- The transmit FIFO of the controller, emptied by a loop of as many rounds as `handle_reset` allows.
drain_ends_example :
    let left = drain queue 3 controller.tx_fifo in
    (queue.nb_read left ≡ none)
    × ((m : ℕ)
        → queue.num_available controller.tx_fifo < m
        → drain queue m controller.tx_fifo ≡ left)
    × (left.front ≡ [])
unfolding queue_laws
drain_ends_example = drain_ends queue queue_laws 3 controller.tx_fifo two_wait

update_status_reg_lem_example :
    StatusIs
      (update_status_reg queue controller).reg_sr
      (queue.num_free controller.tx_fifo == 8)
      (not (queue.num_free controller.tx_fifo == 0))
      (not (queue.num_available controller.rx_fifo == 0))
      (queue.num_available controller.rx_fifo == 8)
      (controller.is_transmitting || not (queue.num_free controller.tx_fifo == 8))
update_status_reg_lem_example = update_status_reg_lem queue controller

update_intr_lem_example :
    let c' = update_intr queue controller in
    (bit c'.reg_ris 3 ≡ leb (queue.num_available controller.tx_fifo) 4)
    × (bit c'.reg_ris 2 ≡ leb 4 (queue.num_available controller.rx_fifo))
    × (bit c'.reg_ris 1 ≡ bit controller.reg_ris 1)
    × (bit c'.reg_ris 0 ≡ bit controller.reg_ris 0)
    × (c'.intr
        ≡ (bit c'.reg_ris 0 && bit controller.reg_imsc 0)
          || (bit c'.reg_ris 1 && bit controller.reg_imsc 1)
          || (bit c'.reg_ris 2 && bit controller.reg_imsc 2)
          || (bit c'.reg_ris 3 && bit controller.reg_imsc 3))
update_intr_lem_example = update_intr_lem queue controller

handle_reset_lem_example :
    let c' = handle_reset queue controller in
    (queue_laws.readable c'.rx_fifo ≡ [])
    × (queue_laws.readable c'.tx_fifo ≡ [])
    × (c'.reg_imsc ≡ 0)
    × (bit c'.reg_cr1 1 ≡ false)
    × (c'.is_transmitting ≡ false)
    × (c'.intr_due ≡ true)
handle_reset_lem_example = handle_reset_lem queue queue_laws controller

controller-IsReady : IsReady queue queue_laws controller
unfolding queue_laws queue
controller-IsReady = record {
  at_head = tt;
  is_enabled = refl;
  tx_settled = refl;
  rx_settled = refl;
  rx_free = refl;
}

controller_readable : queue_laws.readable controller.tx_fifo ≡ 5 ∷ 0x123 ∷ []
unfolding queue_laws
controller_readable = refl

controller_room : 2 + length (queue_laws.readable controller.rx_fifo) ≤ 8
unfolding queue_laws
controller_room = omega arith

rounds-exchange_example :
    let (q, ys) = exchange echo microsecond 7 2 (5 ∷ 0x123 ∷ []) 0 in
    let (q', d) = rounds queue queue_laws echo microsecond 2 0 controller in
    (q' ≡ q)
    × (queue_laws.readable d.tx_fifo ≡ [])
    × (queue_laws.readable d.rx_fifo ≡ queue_laws.readable controller.rx_fifo ++ ys)
rounds-exchange_example =
    rounds-exchange queue queue_laws echo microsecond (5 ∷ 0x123 ∷ []) 0 controller
      controller-IsReady controller_readable controller_room

-- Unmask the transmit interrupt.
abbrev unmask : ℕ → Payload
unmask adr = transaction write_command adr (le_bytes 2 9)

abbrev unmasked : SpiController Queue
unmasked = record controller { reg_imsc = 9; intr_due = true }

write_unmask :
    b_transport queue true controller (unmask 0x114) 0
    ≡ some (unmasked, respond (unmask 0x114) ok_response, 20000)
unfolding b_transport write_reg
write_unmask = refl

write_aliases_example :
    b_transport queue true controller (set_address (unmask 0x114) (0x114 % 256)) 0
    ≡ some (unmasked, set_address (respond (unmask 0x114) ok_response) (0x114 % 256), 20000)
write_aliases_example =
    write_aliases queue true controller unmasked (unmask 0x114) (respond (unmask 0x114) ok_response)
      0 20000 refl write_unmask

abbrev happenings : List (Happening Queue)
happenings = bus true (unmask 0x14) 0 ∷ intr_event ∷ []

abbrev interrupting : SpiController Queue
interrupting = record controller {
  reg_cr0 = 0;
  reg_cr1 = 0;
  reg_cpsr = 0;
  reg_imsc = 9;
  reg_mis = 8;
  reg_sr = 18;
  tx_fifo = record { front = []; back = []; taken = 2 };
}

run-happenings :
    run queue echo microsecond 0 (handle_reset queue controller) happenings ≡ some (0, interrupting)
unfolding run step b_transport write_reg handle_reset drain update_status_reg update_intr queue
    read_queue nb_read_queue
run-happenings = refl

run-handle_reset-IsCurrent_example : IsCurrent interrupting
run-handle_reset-IsCurrent_example =
    run-handle_reset-IsCurrent queue echo microsecond 0 0 controller interrupting happenings
      run-happenings
