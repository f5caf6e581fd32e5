-- ===== src/Watchdog/Tests.antt =====
-- A watchdog at concrete events.
use mathlib.Core.Option.{some-injective}
use cdc_vp.Base.{
  ℕ, ◌≤◌, ◌≡◌, refl, ap, subst, true, false, some, List, [], ◌∷◌, length, le_bytes, IsBytes,
  IsBytes-le_bytes, arith, leb,
}
use cdc_vp.Fixtures.{write_word, read_word}
use cdc_vp.Watchdog.{
  Watchdog, watchdog, interrupt_enabled, reset_enabled, update_outputs, drive_outputs, tick,
  b_transport, read_reg, register_value, write_reg,
}
use cdc_vp.Watchdog.Outputs.{
  Event, bus, clock_tick, delta, step, run, IsCoherent, run-watchdog-IsCoherent,
}
use cdc_vp.Watchdog.Locking.{SameSettings, run_locked, run-reset_asserted}
use cdc_vp.Watchdog.Timeout.{
  IsRunning, IsServiced, ticks, serve, reset_deadline, irq_deadline, serve_in_time,
}
use cdc_vp.Watchdog.Bench
use cdc_vp.Watchdog.Bench.Passes.{IsIdle, run-errors}
use cdc_vp.Watchdog.Bounds.{AllHaveData, reset_within}

-- Enabled with reset, loaded with 3.
abbrev armed : Watchdog
armed = record {
  load = 3;
  counter = 3;
  control = 3;
  ris = 0;
  mis = 0;
  locked = false;
  reset_asserted = false;
  irq_level = false;
  reset_level = false;
  notified = false;
  irq = false;
  reset_o = false;
}

armed-IsRunning : IsRunning armed
armed-IsRunning = record { enabled = refl; not_reset = refl }

armed-IsServiced : IsServiced armed
armed-IsServiced = record {
  running = armed-IsRunning;
  unlocked = refl;
  full = refl;
  quiet = refl;
  no_irq = refl;
}

reads :
    ((b_transport armed (read_word 0x40000FE0) 0).1.buffer ≡ some (5 ∷ 0 ∷ 0 ∷ 0 ∷ []))
    × ((b_transport watchdog (write_word 0 7) 0).0.counter ≡ 7)
unfolding b_transport read_reg register_value write_reg watchdog
reads = (refl, refl)

reset_deadline_example : (ticks 8 armed).reset_asserted ≡ leb 8 8
reset_deadline_example = reset_deadline armed 8 armed-IsRunning refl refl

irq_deadline_example : (ticks 3 armed).irq_level ≡ leb 4 3
irq_deadline_example = irq_deadline armed 3 armed-IsRunning refl refl

serve_in_time_example :
    ((ticks 2 (serve (3 ∷ 1 ∷ 3 ∷ []) armed)).irq_level ≡ false)
    × ((ticks 2 (serve (3 ∷ 1 ∷ 3 ∷ []) armed)).reset_asserted ≡ false)
serve_in_time_example =
    serve_in_time (3 ∷ 1 ∷ 3 ∷ []) 2 armed armed-IsServiced (omega arith) (omega arith)

abbrev events : List Event
events = bus (write_word 0x000 9) 0 ∷ clock_tick ∷ bus (write_word 0xC00 1) 0 ∷ delta ∷ []

run-watchdog-IsCoherent_example : IsCoherent (run watchdog events)
run-watchdog-IsCoherent_example = run-watchdog-IsCoherent events

abbrev locked_up : Watchdog
locked_up = record armed { locked = true }

run_locked_example : SameSettings locked_up (run locked_up events)
run_locked_example = run_locked locked_up events refl (refl, (refl, (refl, (refl, tt))))

abbrev fired : Watchdog
fired = record armed { reset_asserted = true }

run-reset_asserted_example : (run fired events).reset_asserted ≡ true
run-reset_asserted_example = run-reset_asserted fired events refl

watchdog-IsIdle : IsIdle watchdog
unfolding watchdog
watchdog-IsIdle = record { disabled = refl; no_interrupt = refl; unlocked = refl; no_reset = refl }

run-errors_example : (Bench.run (record { dut = watchdog; errors = 0 })).errors ≡ 0
run-errors_example = run-errors (record { dut = watchdog; errors = 0 }) watchdog-IsIdle

-- The watchdog is loaded with 3 and enabled, and then ticks.
abbrev service_events : List Event
service_events =
    bus (write_word 0x000 3) 0 ∷ bus (write_word 0x008 3) 0 ∷ clock_tick ∷ delta ∷ clock_tick ∷ []

service_events-HaveData : AllHaveData service_events
service_events-HaveData = (word_written 3, (word_written 3, tt))
  where
    word_written :
        (value : ℕ) (bytes : List ℕ)
        → some (le_bytes 4 value) ≡ some bytes
        → (4 ≤ length bytes) × IsBytes bytes
    word_written value bytes e =
        subst (λ bs. (4 ≤ length bs) × IsBytes bs) (some-injective (le_bytes 4 value) bytes e)
          (omega arith, IsBytes-le_bytes 4 value)

after_service : run watchdog service_events ≡ record armed { counter = 1; notified = false }
unfolding run step watchdog b_transport write_reg tick drive_outputs update_outputs
after_service = refl

reset_within_example : (ticks 8 (run watchdog service_events)).reset_asserted ≡ true
reset_within_example =
    reset_within service_events 8 service_events-HaveData (ap interrupt_enabled after_service)
      (ap reset_enabled after_service) (omega (arith, ap (λ w. w.load) after_service))
