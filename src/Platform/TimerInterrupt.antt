-- ===== src/Platform/TimerInterrupt.antt =====
-- riscv_custom_soc with the riscv-vp backend: the timer interrupt, from the processor's writes to the
-- compare register over the bus to the core.
use cdc_vp.Base.{
  ℕ, ◌+◌, ◌-◌, ◌*◌, ◌^◌, ◌<◌, ◌≡◌, ◌≢◌, refl, ap, ◌∙◌, Bool, true, false, not, some, List, [], ◌∷◌,
  if◌then◌else◌, le_bytes, arith,
}
use cdc_vp.Tlm.{Payload, SimTime, nanoseconds, write_command, ok_response, set_address}
use cdc_vp.Clint.{cause_timer, ClintTlm, scaler, timer_proc}
use cdc_vp.Clint.Timer.{due, timer_proc_fires, timer_proc_level}
use cdc_vp.Clint.Registers.{with_half, with_half-with_half, store_half}
use cdc_vp.Router.Transport.{b_transport_forwards}
use cdc_vp.Device.{Transport}
use cdc_vp.Cpu.Levels.{set_irqs-last_level}
use cdc_vp.Cpu.Vp.{Iss, IssLaws}
use cdc_vp.Platform.CustomSoc.{CustomSoc, bus_map, bus, targets, regions-IsMap, clint_base}
use cdc_vp.Platform.System.{System, wake_timer}

-- A word that the processor writes to a half of the compare register.
pub record IsStore (trans : Payload) (upper : Bool) (word : ℕ) : Type 0 where
  pub at : trans.address ≡ clint_base + (if upper then 0x4004 else 0x4000)
  pub four : trans.data_length ≡ 4
  pub write : trans.command ≡ write_command
  pub bytes : trans.buffer ≡ some (le_bytes 4 word)
  pub small : word < 2 ^ 32

timer_proc_early :
    (c : ClintTlm) (now : SimTime)
    → c.mtimecmp ≢ 0
    → due c < 2 ^ 64
    → now < due c
    → (timer_proc c now).timer_irq ≡ false
unfolding timer_proc
timer_proc_early c now set fits early = ground arith

abbrev pub total : List SimTime → SimTime
total [] = 0
total (d ∷ gaps) = d + total gaps

module _ {U I C : Type 0} (core : Iss C) where
  unfoldable pub waited : SimTime → System U I C → System U I C
  waited d s = record s { soc = record s.soc { now = s.soc.now + d } }

  -- Time passes by these steps, and the thread wakes after each.
  unfoldable pub idle : List SimTime → System U I C → System U I C
  unfolding wake_timer waited
  idle [] s = s
  idle (d ∷ gaps) s = idle gaps (wake_timer core (waited d s))

  idle_keeps :
      (gaps : List SimTime) (s : System U I C)
      → ((idle gaps s).soc.clint.mtimecmp ≡ s.soc.clint.mtimecmp)
        × ((idle gaps s).soc.now ≡ s.soc.now + total gaps)
  unfolding idle
  idle_keeps [] s = (refl, omega arith)
  idle_keeps (d ∷ gaps) s =
      let (a, b) = idle_keeps gaps (wake_timer core (waited d s)) in
      (a ∙ (timer_proc_level s.soc.clint (s.soc.now + d)).1, omega (arith, b))

  module _ (laws : IssLaws core) where
    level_in_core :
        (s : System U I C)
        → laws.timer (wake_timer core s).cpu.iss ≡ (timer_proc s.soc.clint s.soc.now).timer_irq
    unfolding wake_timer
    level_in_core s =
        (set_irqs-last_level core laws
          ((cause_timer, (timer_proc s.soc.clint s.soc.now).timer_irq) ∷ []) s.cpu).1

    -- The thread wakes, and waits until the compare register is due.
    round_fires :
        (s : System U I C)
        → s.soc.clint.mtimecmp ≢ 0
        → due s.soc.clint < 2 ^ 64
        → s.soc.now < due s.soc.clint
        → let s' = wake_timer core s in
          (laws.timer s'.cpu.iss ≡ false)
          × ((d : SimTime) × (s'.soc.clint.notified ≡ some d)
              × (s.soc.now + d ≡ due s.soc.clint)
              × ((e : SimTime) → e < d → laws.timer (wake_timer core (waited e s')).cpu.iss ≡ false)
              × (laws.timer (wake_timer core (waited d s')).cpu.iss ≡ true))
    unfolding wake_timer waited
    round_fires s set fits early =
        let (d, told, positive, at, before, asserted) =
          timer_proc_fires s.soc.clint s.soc.now set fits early in
        (
          level_in_core s ∙ timer_proc_early s.soc.clint s.soc.now set fits early,
          (
            d,
            told,
            at,
            λ e h.
                level_in_core (waited e (wake_timer core s))
                ∙ before (s.soc.now + e) (omega (arith, h)),
            level_in_core (waited d (wake_timer core s)) ∙ asserted,
          ),
        )

module _ {U I : Type 0} (unified : Bool) (uart : Transport U) (i2c : Transport I) where
  -- The part of the system that such a store changes.
  abbrev after_store : Bool → ℕ → CustomSoc U I → CustomSoc U I
  after_store upper word w = record w {
    clint = record w.clint { mtimecmp = with_half upper word w.clint.mtimecmp; notified = some 0 };
  }

  store_at_socket :
      (w : CustomSoc U I) (trans : Payload) (delay : SimTime) (upper : Bool) (word : ℕ)
      → trans.address ≡ (if upper then 0x4004 else 0x4000)
      → trans.data_length ≡ 4
      → trans.command ≡ write_command
      → trans.buffer ≡ some (le_bytes 4 word)
      → word < 2 ^ 32
      → w.clint.mtimecmp < 2 ^ 64
      → targets unified uart i2c 2 w trans delay ≡ (
        after_store upper word w,
        record trans { response = ok_response },
        delay + nanoseconds 10,
      )
  unfolding targets
  store_at_socket w trans delay upper word a l c b small fits =
      rw (targets, store_half w.clint trans delay w.now upper word a l c b small fits) refl

  store_over_bus :
      (w : CustomSoc U I) (trans : Payload) (delay : SimTime) (upper : Bool) (word : ℕ)
      → IsStore trans upper word
      → w.clint.mtimecmp < 2 ^ 64
      → bus unified uart i2c w trans delay ≡ (
        after_store upper word w,
        record trans { response = ok_response },
        delay + nanoseconds 10,
      )
  unfolding bus
  store_over_bus w trans delay upper word h fits =
      b_transport_forwards (targets unified uart i2c) (bus_map unified) w trans delay 2
        regions-IsMap (omega arith) (ground (arith, h.at))
      ∙ ap (λ (u : CustomSoc U I × Payload × SimTime). (u.0, set_address u.1 trans.address, u.2))
          (store_at_socket w (set_address trans (trans.address - clint_base)) delay upper word
            (omega (arith, h.at)) h.four h.write h.bytes h.small fits)

  module _ {C : Type 0} where
    -- A transaction of the processor, with the payload that it gets back.
    unfoldable pub access : Payload → SimTime → System U I C → System U I C × Payload
    access trans delay s =
        let (w, t, d) = bus unified uart i2c s.soc trans delay in (record s { soc = w }, t)

    access-IsStore :
        (s : System U I C) (trans : Payload) (delay : SimTime) (upper : Bool) (word : ℕ)
        → IsStore trans upper word
        → s.soc.clint.mtimecmp < 2 ^ 64
        → let (s', t) = access trans delay s in
          (s'.soc.clint.mtimecmp ≡ with_half upper word s.soc.clint.mtimecmp)
          × (s'.soc.now ≡ s.soc.now)
          × (t.response ≡ ok_response)
    unfolding access
    access-IsStore s trans delay upper word h fits =
        let e = store_over_bus s.soc trans delay upper word h fits in
        (ap (λ u. u.0.clint.mtimecmp) e, ap (λ u. u.0.now) e, ap (λ u. u.1.response) e)

    module _ (core : Iss C) (laws : IssLaws core) where
      -- Firmware sets a timer over the bus of the system, by two word stores to the halves of the
      -- compare register in either order, with any time and any rounds of the CLINT's thread between
      -- them. Both are answered by OK. If the compare value is not 0, its time fits 64 bits and has
      -- not come at the second store, the round of the thread that follows clears the timer interrupt
      -- of the core and asks to be woken exactly at the compare time; a round at any time before it
      -- leaves the interrupt clear, and the one at it makes it pending in the core.
      pub timer_interrupt :
          (s : System U I C) (first second : Payload) (delay delay' : SimTime) (gaps : List SimTime)
          (upper_first : Bool) (low high : ℕ)
          → s.soc.clint.mtimecmp < 2 ^ 64
          → low < 2 ^ 32
          → high < 2 ^ 32
          → IsStore first upper_first (if upper_first then high else low)
          → IsStore second (not upper_first) (if upper_first then low else high)
          → 0 < low + 2 ^ 32 * high
          → (low + 2 ^ 32 * high) * scaler < 2 ^ 64
          → s.soc.now + total gaps < (low + 2 ^ 32 * high) * scaler
          → let (s1, t1) = access first delay s in
            let (s2, t2) = access second delay' (idle core gaps s1) in
            let s3 = wake_timer core s2 in
            (t1.response ≡ ok_response)
            × (t2.response ≡ ok_response)
            × (laws.timer s3.cpu.iss ≡ false)
            × ((d : SimTime) × (s3.soc.clint.notified ≡ some d)
                × (s.soc.now + total gaps + d ≡ (low + 2 ^ 32 * high) * scaler)
                × ((e : SimTime)
                    → e < d
                    → laws.timer (wake_timer core (waited core e s3)).cpu.iss ≡ false)
                × (laws.timer (wake_timer core (waited core d s3)).cpu.iss ≡ true))
      timer_interrupt s first second delay delay' gaps upper low high fits lo hi store store' set
            wide early =
          let s1 = (access first delay s).0 in
          let (small, value) = with_half-with_half upper low high s.soc.clint.mtimecmp fits lo hi in
          let (held, now, ok) = access-IsStore s first delay upper _ store fits in
          let (kept, passed) = idle_keeps core gaps s1 in
          let (held', now', ok') =
            access-IsStore (idle core gaps s1) second delay' (not upper) _ store'
              (omega (arith, kept, held, small)) in
          let is_value = held' ∙ ap (with_half (not upper) _) (kept ∙ held) ∙ value in
          let at_second = now' ∙ passed in
          let (clear, (d, told, at, before, asserted)) =
            round_fires core laws (access second delay' (idle core gaps s1)).0
              (omega (arith, is_value, set)) (omega (arith, is_value, wide))
              (omega (arith, is_value, at_second, now, early)) in
          (ok, ok', clear, (d, told, omega (arith, at, is_value, at_second, now), before, asserted))
