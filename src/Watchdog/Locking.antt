-- ===== src/Watchdog/Locking.antt =====
-- The lock, and the latch of the reset.
use cdc_vp.Base.{
  ◌≡◌, refl, ◌%◌, ◌^◌, Bool, true, false, ◌&&◌, ◌∙◌, List, [], ◌∷◌, some, none, take, of_le, arith,
  ◌==◌,
}
use cdc_vp.Tlm.{is_write}
use cdc_vp.Watchdog.{Watchdog, update_outputs, drive_outputs, write_reg, tick}
use cdc_vp.Watchdog.Outputs.{Event, bus, clock_tick, delta, step, run, b_transport_cases}

-- Does the event write the unlock value to the lock register?
abbrev pub unlocks : Event → Bool
unlocks clock_tick = false
unlocks delta = false
unlocks (bus trans delay) =
    is_write trans.command
    && trans.address % 2 ^ 12 == 0xC00
    && elim trans.buffer [ none ↦ false | some bytes ↦ of_le (take 4 bytes) == 0x1ACCE551 ]

abbrev pub NoneUnlocks : List Event → Type 0
NoneUnlocks [] = Unit {0}
NoneUnlocks (e ∷ es) = (unlocks e ≡ false) × NoneUnlocks es

-- `v` is locked as `w` is, with its settings.
pub record SameSettings (w v : Watchdog) : Type 0 where
  pub same_load : v.load ≡ w.load
  pub same_control : v.control ≡ w.control
  pub still_locked : v.locked ≡ true

step-SameSettings :
    (w : Watchdog) (e : Event) → w.locked ≡ true → unlocks e ≡ false → SameSettings w (step w e)
unfolding step update_outputs
step-SameSettings w clock_tick l u = unfold tick in ground arith
step-SameSettings w delta l u = unfold drive_outputs in ground arith
step-SameSettings w (bus trans delay) l u =
    b_transport_cases (SameSettings w) w trans delay
      (record { same_load = refl; same_control = refl; still_locked = l })
      (record { same_load = refl; same_control = refl; still_locked = l })
      (λ bytes data_ptr wr. unfold write_reg in ground arith)

-- A locked watchdog keeps its load value, its control register and its lock through every sequence
-- of transactions, ticks and delta cycles in which no write of the unlock value to the lock
-- register occurs.
pub run_locked :
    (w : Watchdog) (es : List Event) → w.locked ≡ true → NoneUnlocks es → SameSettings w (run w es)
unfolding run
run_locked w [] l u = record { same_load = refl; same_control = refl; still_locked = l }
run_locked w (e ∷ es) l u =
    let one = step-SameSettings w e l u.0 in
    let more = run_locked (step w e) es one.still_locked u.1 in
    record {
      same_load = more.same_load ∙ one.same_load;
      same_control = more.same_control ∙ one.same_control;
      still_locked = more.still_locked;
    }

step-reset_asserted :
    (w : Watchdog) (e : Event) → w.reset_asserted ≡ true → (step w e).reset_asserted ≡ true
unfolding step update_outputs
step-reset_asserted w clock_tick r = unfold tick in ground arith
step-reset_asserted w delta r = unfold drive_outputs in ground arith
step-reset_asserted w (bus trans delay) r =
    b_transport_cases (λ v. v.reset_asserted ≡ true) w trans delay r r
      (λ bytes data_ptr wr. unfold write_reg in ground arith)

-- A reset once asserted is never withdrawn, by no transaction and no tick: the model has no reset
-- input that could start it again.
pub run-reset_asserted :
    (w : Watchdog) (es : List Event) → w.reset_asserted ≡ true → (run w es).reset_asserted ≡ true
unfolding run
run-reset_asserted w [] r = r
run-reset_asserted w (e ∷ es) r = run-reset_asserted (step w e) es (step-reset_asserted w e r)
