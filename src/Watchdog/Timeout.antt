-- ===== src/Watchdog/Timeout.antt =====
-- When the watchdog fires: the ticks to its interrupt and to its reset.
use cdc_vp.Base.{
  ℕ, zero, suc, ◌+◌, ◌-◌, ◌≤◌, ◌<◌, ◌≡◌, refl, ap, sym, ◌∙◌, true, false, List, [], ◌∷◌, arith, inl,
  inr, Bool-cases, leb,
}
use native.Mathlib.Nat.{zero-add, suc-add}
use cdc_vp.Watchdog.{
  Watchdog, interrupt_enabled, reset_enabled, ris_asserted, update_outputs, reload_counter, tick,
  handle_timeout, write_reg,
}

pub ticks : ℕ → Watchdog → Watchdog
ticks zero w = w
ticks (suc n) w = ticks n (tick w)

ticks-add : (m n : ℕ) (w : Watchdog) → ticks (m + n) w ≡ ticks n (ticks m w)
unfolding ticks
ticks-add zero n w = rw zero-add
ticks-add (suc m) n w = rw suc-add (ticks-add m n (tick w))

-- The counter runs: the interrupt is enabled and the reset has not been asserted.
pub record IsRunning (w : Watchdog) : Type 0 where
  pub enabled : interrupt_enabled w ≡ true
  pub not_reset : w.reset_asserted ≡ false

tick-counts :
    (w : Watchdog) → IsRunning w → 0 < w.counter → tick w ≡ record w { counter = w.counter - 1 }
unfolding tick
tick-counts w r h = ground arith

-- As many ticks as the counter says, or fewer, only count down.
pub ticks_count_down :
    (n : ℕ) (w : Watchdog)
    → IsRunning w
    → n ≤ w.counter
    → ticks n w ≡ record w { counter = w.counter - n }
unfolding ticks
ticks_count_down zero w r h = ground arith
ticks_count_down (suc n) w r h = rw (tick-counts w r (omega arith)) (
    ticks_count_down n (record w { counter = w.counter - 1 })
      (record { enabled = r.enabled; not_reset = r.not_reset }) (omega arith)
    ∙ ground arith)

-- The tick after those finds the counter at 0.
ticks_timeout :
    (w : Watchdog)
    → IsRunning w
    → ticks (w.counter + 1) w ≡ handle_timeout (record w { counter = 0 })
unfolding tick ticks
ticks_timeout w r =
    ticks-add w.counter 1 w ∙ rw (ticks_count_down w.counter w r (omega arith)) (ground arith)

pub ticks_stopped : (n : ℕ) (w : Watchdog) → w.reset_asserted ≡ true → ticks n w ≡ w
unfolding ticks tick
ticks_stopped zero w h = refl
ticks_stopped (suc n) w h = rw (tick_stopped w h) (ticks_stopped n w h)
  where
    tick_stopped : (v : Watchdog) → v.reset_asserted ≡ true → tick v ≡ v
    tick_stopped v k = ground arith

-- The state after a timeout with no interrupt pending.
abbrev first : Watchdog → Watchdog
first w = reload_counter (update_outputs (record w { counter = 0; ris = 1 }))

-- The state after a timeout with the interrupt pending and RESEN set.
abbrev second : Watchdog → Watchdog
second w = update_outputs (record w { counter = 0; reset_asserted = true })

ticks-first :
    (w : Watchdog) → IsRunning w → ris_asserted w ≡ false → ticks (w.counter + 1) w ≡ first w
unfolding handle_timeout
ticks-first w r clear = ticks_timeout w r ∙ ground arith

ticks-second :
    (w : Watchdog)
    → IsRunning w
    → ris_asserted w ≡ true
    → reset_enabled w ≡ true
    → ticks (w.counter + 1) w ≡ second w
unfolding handle_timeout
ticks-second w r pending resen = ticks_timeout w r ∙ ground arith

-- With the interrupt pending and RESEN set, the reset is asserted after exactly counter + 1 ticks,
-- and stays.
pub reset_after_pending :
    (w : Watchdog) (n : ℕ)
    → IsRunning w
    → ris_asserted w ≡ true
    → reset_enabled w ≡ true
    → (ticks n w).reset_asserted ≡ leb (w.counter + 1) n
unfolding update_outputs
reset_after_pending w n r pending resen = elim (Bool-cases (leb (w.counter + 1) n)) [
  | inl late ↦
      let split : n ≡ (w.counter + 1) + (n - (w.counter + 1)) = ground arith in
      rw (late, split, ticks-add, ticks-second w r pending resen)
        (rw (ticks_stopped _ (second w) refl))
  | inr early ↦ rw (early, ticks_count_down n w r (ground arith)) r.not_reset
]

-- An enabled watchdog with no interrupt pending and RESEN set, which nobody services, asserts its
-- reset after exactly counter + load + 2 ticks: not before, and from then on.
pub reset_deadline :
    (w : Watchdog) (n : ℕ)
    → IsRunning w
    → ris_asserted w ≡ false
    → reset_enabled w ≡ true
    → (ticks n w).reset_asserted ≡ leb (w.counter + w.load + 2) n
unfolding update_outputs
reset_deadline w n r clear resen = elim (Bool-cases (leb (w.counter + 1) n)) [
  | inl late ↦
      let k : ℕ = n - (w.counter + 1) in
      let split : n ≡ (w.counter + 1) + k = ground arith in
      let reached : ticks n w ≡ ticks k (first w) =
        ap (λ t. ticks t w) split
        ∙ ticks-add (w.counter + 1) k w
        ∙ ap (ticks k) (ticks-first w r clear) in
      ap (λ v. v.reset_asserted) reached
      ∙ reset_after_pending (first w) k (record { enabled = r.enabled; not_reset = r.not_reset })
          refl resen
      ∙ ground arith
  | inr early ↦
      ap (λ v. v.reset_asserted) (ticks_count_down n w r (ground arith))
      ∙ r.not_reset
      ∙ ground arith
]

tick_pending :
    (w : Watchdog)
    → ris_asserted w ≡ true
    → interrupt_enabled w ≡ true
    → w.irq_level ≡ true
    → let v = tick w in
      (ris_asserted v ≡ true) × (interrupt_enabled v ≡ true) × (v.irq_level ≡ true)
unfolding tick
tick_pending w ris en level = ground arith

ticks_pending :
    (n : ℕ) (w : Watchdog)
    → ris_asserted w ≡ true
    → interrupt_enabled w ≡ true
    → w.irq_level ≡ true
    → (ticks n w).irq_level ≡ true
unfolding ticks
ticks_pending zero w ris en level = level
ticks_pending (suc n) w ris en level =
    let (ris', en', level') = tick_pending w ris en level in
    ticks_pending n (tick w) ris' en' level'

-- An enabled watchdog with no interrupt pending raises its interrupt after exactly counter + 1
-- ticks, and keeps it raised until it is serviced, whether or not the reset follows.
pub irq_deadline :
    (w : Watchdog) (n : ℕ)
    → IsRunning w
    → ris_asserted w ≡ false
    → w.irq_level ≡ false
    → (ticks n w).irq_level ≡ leb (w.counter + 1) n
unfolding update_outputs
irq_deadline w n r clear level = elim (Bool-cases (leb (w.counter + 1) n)) [
  | inl late ↦
      let k : ℕ = n - (w.counter + 1) in
      let split : n ≡ (w.counter + 1) + k = ground arith in
      let reached : ticks n w ≡ ticks k (first w) =
        ap (λ t. ticks t w) split
        ∙ ticks-add (w.counter + 1) k w
        ∙ ap (ticks k) (ticks-first w r clear) in
      ap (λ v. v.irq_level) reached ∙ ticks_pending k (first w) refl r.enabled r.enabled ∙ sym late
  | inr early ↦ ap (λ v. v.irq_level) (ticks_count_down n w r (ground arith)) ∙ level ∙ sym early
]

-- The software's service: it writes the interrupt clear register after each of these intervals.
pub serve : List ℕ → Watchdog → Watchdog
serve [] w = w
serve (k ∷ ks) w = serve ks (write_reg (ticks k w) 0x00C 1)

abbrev pub AllAtMost : ℕ → List ℕ → Type 0
AllAtMost n [] = Unit {0}
AllAtMost n (k ∷ ks) = (k ≤ n) × AllAtMost n ks

-- The state in which a service leaves an unlocked watchdog that runs.
pub record IsServiced (w : Watchdog) : Type 0 where
  pub running : IsRunning w
  pub unlocked : w.locked ≡ false
  pub full : w.counter ≡ w.load
  pub quiet : ris_asserted w ≡ false
  pub no_irq : w.irq_level ≡ false

serve_once :
    (k : ℕ) (w : Watchdog)
    → IsServiced w
    → k ≤ w.load
    → let v = write_reg (ticks k w) 0x00C 1 in IsServiced v × (v.load ≡ w.load)
unfolding write_reg update_outputs
serve_once k w s h = rw (ticks_count_down k w s.running (omega (arith, s.full))) (ground arith)

-- Software that services the watchdog at intervals of at most `load` ticks never sees its
-- interrupt or its reset, at any time between two services.
pub serve_in_time :
    (ks : List ℕ) (n : ℕ) (w : Watchdog)
    → IsServiced w
    → AllAtMost w.load ks
    → n ≤ w.load
    → ((ticks n (serve ks w)).irq_level ≡ false) × ((ticks n (serve ks w)).reset_asserted ≡ false)
unfolding serve
serve_in_time [] n w s all h =
    rw (ticks_count_down n w s.running (omega (arith, s.full))) (s.no_irq, s.running.not_reset)
serve_in_time (k ∷ ks) n w s all h =
    let (s', same) = serve_once k w s all.0 in
    serve_in_time ks n (write_reg (ticks k w) 0x00C 1) s' (rw same all.1) (rw same h)
