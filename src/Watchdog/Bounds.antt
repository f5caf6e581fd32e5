-- ===== src/Watchdog/Bounds.antt =====
-- The counter stays below the load value, which bounds the time to a reset in every state.
use cdc_vp.Base.{
  ℕ, ◌+◌, ◌*◌, ◌^◌, ◌%◌, ◌≤◌, ◌<◌, ◌≡◌, ap, ◌∙◌, true, Bool-cases, inl, inr, List, [], ◌∷◌, some,
  length, take, of_le, of_le_word-lt, IsBytes, arith,
}
use cdc_vp.Watchdog.{
  Watchdog, watchdog, interrupt_enabled, reset_enabled, ris_asserted, update_outputs, drive_outputs,
  write_reg, tick,
}
use cdc_vp.Watchdog.Outputs.{Event, bus, clock_tick, delta, step, run, b_transport_cases}
use cdc_vp.Watchdog.Timeout.{IsRunning, ticks, ticks_stopped, reset_after_pending, reset_deadline}

pub record IsBounded (w : Watchdog) : Type 0 where
  pub counter : w.counter ≤ w.load
  pub load : w.load < 2 ^ 32

-- The data pointer of a transaction, if it is set, gives the four bytes of a register.
abbrev pub AllHaveData : List Event → Type 0
AllHaveData [] = Unit {0}
AllHaveData (clock_tick ∷ es) = AllHaveData es
AllHaveData (delta ∷ es) = AllHaveData es
AllHaveData (bus trans delay ∷ es) =
    ((bytes : List ℕ) → trans.buffer ≡ some bytes → (4 ≤ length bytes) × IsBytes bytes)
    × AllHaveData es

write_reg-IsBounded :
    (w : Watchdog) (addr value : ℕ)
    → value < 2 ^ 32
    → IsBounded w
    → IsBounded (write_reg w addr value)
unfolding write_reg update_outputs
write_reg-IsBounded w addr value small b = ground (arith, b.counter, b.load)

update_outputs-IsBounded : (w : Watchdog) → IsBounded w → IsBounded (update_outputs w)
unfolding update_outputs
update_outputs-IsBounded w b = record { counter = b.counter; load = b.load }

tick-IsBounded : (w : Watchdog) → IsBounded w → IsBounded (tick w)
unfolding tick update_outputs
tick-IsBounded w b = ground (arith, b.counter, b.load)

drive_outputs-IsBounded : (w : Watchdog) → IsBounded w → IsBounded (drive_outputs w)
unfolding drive_outputs
drive_outputs-IsBounded w b = ground (arith, b.counter, b.load)

run-IsBounded :
    (w : Watchdog) (es : List Event) → AllHaveData es → IsBounded w → IsBounded (run w es)
unfolding run step
run-IsBounded w [] h b = b
run-IsBounded w (clock_tick ∷ es) h b = run-IsBounded (tick w) es h (tick-IsBounded w b)
run-IsBounded w (delta ∷ es) h b =
    run-IsBounded (drive_outputs w) es h (drive_outputs-IsBounded w b)
run-IsBounded w (bus trans delay ∷ es) (data_ptr, h) b =
    run-IsBounded (step w (bus trans delay)) es h (
      b_transport_cases IsBounded w trans delay b (update_outputs-IsBounded w b) (λ bytes e wr.
        let (long, fine) = data_ptr bytes e in
        write_reg-IsBounded w (trans.address % 2 ^ 12) (of_le (take 4 bytes))
          (of_le_word-lt 4 bytes long fine) b))

watchdog-IsBounded : IsBounded watchdog
unfolding watchdog
watchdog-IsBounded = ground arith

resets :
    (w : Watchdog) (n : ℕ)
    → IsBounded w
    → interrupt_enabled w ≡ true
    → reset_enabled w ≡ true
    → 2 * w.load + 2 ≤ n
    → (ticks n w).reset_asserted ≡ true
resets w n b en resen late = elim (Bool-cases w.reset_asserted) [
  | inl stopped ↦ ap (λ v. v.reset_asserted) (ticks_stopped n w stopped) ∙ stopped
  | inr live ↦
      let r : IsRunning w = record { enabled = en; not_reset = live } in
      elim (Bool-cases (ris_asserted w)) [
        | inl pending ↦ reset_after_pending w n r pending resen ∙ ground (arith, b.counter)
        | inr clear ↦ reset_deadline w n r clear resen ∙ ground (arith, b.counter)
      ]
]

pub run-watchdog-IsBounded : (es : List Event) → AllHaveData es → IsBounded (run watchdog es)
run-watchdog-IsBounded es h = run-IsBounded watchdog es h watchdog-IsBounded

-- If the watchdog is enabled with RESEN set after any transactions whose data pointer, if it is set, gives
-- four bytes, ticks and delta cycles from the constructor on, and nobody services it from then on, its
-- reset is asserted after 2 * load + 2 ticks and after any more, whatever its state then was.
pub reset_within :
    (es : List Event) (n : ℕ)
    → AllHaveData es
    → interrupt_enabled (run watchdog es) ≡ true
    → reset_enabled (run watchdog es) ≡ true
    → 2 * (run watchdog es).load + 2 ≤ n
    → (ticks n (run watchdog es)).reset_asserted ≡ true
reset_within es n h en resen late =
    resets (run watchdog es) n (run-watchdog-IsBounded es h) en resen late
