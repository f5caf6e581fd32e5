-- ===== src/Pwm/Rounds.antt =====
-- One round of a running generator, as a step round the period.
use cdc_vp.Base.{
  ℕ, suc, ◌+◌, ◌-◌, ◌%◌, ◌^◌, ◌≤◌, ◌<◌, ◌≡◌, refl, ap, ◌∙◌, Bool, true, not, some, ltb, leb, ◌==◌,
  if◌then◌else◌, bit, Bool-cases, inl, inr, arith,
}
use native.Mathlib.Nat.{mod-eq_of_lt, mod-eq-sub-mod}
use cdc_vp.Pwm.{Pwm, counter_enable, shifted, level, round}

-- The generator runs: counting and pulses are enabled, the period fits the 16-bit counter, and the
-- phase is within the period.
pub record IsRunning (p : Pwm) : Type 0 where
  pub counting : counter_enable p ≡ true
  pub pulsing : bit p.pwm_en 0 ≡ true
  pub has_period : 0 < p.period
  pub fits : p.period ≤ 2 ^ 16
  pub phase : p.phase_delay ≤ p.period
  pub in_period : p.counter < p.period

-- Where in its period the output is: the counter less the phase, round the period.
abbrev pub position : Pwm → ℕ
position p =
    if leb p.phase_delay p.counter
    then p.counter - p.phase_delay
    else p.counter + p.period - p.phase_delay

mod_twice : (x n : ℕ) → 0 < n → x < n + n → x % n ≡ (if ltb x n then x else x - n)
mod_twice x n pos h = elim (Bool-cases (ltb x n)) [
  | inl below ↦ rw below (mod-eq_of_lt (ground arith))
  | inr above ↦ rw above (
      omega (
        arith,
        mod-eq-sub-mod {n = x} {m = n} (ground arith),
        mod-eq_of_lt {n = x - n} {m = n} (ground arith),
      ))
]

unfoldable pub next_position : ℕ → ℕ → ℕ
next_position n s = if suc s == n then 0 else suc s

next_counter : (c n : ℕ) → c < n → n ≤ 2 ^ 16 → (c + 1) % n % 2 ^ 16 ≡ next_position n c
unfolding next_position
next_counter c n h fits = ground (arith, mod_twice (c + 1) n)

-- Neither the 32-bit difference nor the cast to 16 bits changes the shifted counter.
shifted_lem :
    (p : Pwm) (c : ℕ)
    → p.period ≤ 2 ^ 16
    → p.phase_delay ≤ p.period
    → c < p.period
    → shifted p c
      ≡ (if leb p.phase_delay c then c - p.phase_delay else c + p.period - p.phase_delay)
shifted_lem p c fits phase h =
    ap (λ x. x % p.period % 2 ^ 16) no_wrap
    ∙ ground (arith, mod_twice (c + p.period - p.phase_delay) p.period)
  where
    no_wrap : (c + p.period + 2 ^ 32 - p.phase_delay) % 2 ^ 32 ≡ c + p.period - p.phase_delay
    no_wrap = omega arith

-- What a round does to the output: it takes level `v` exactly if the new position is in the pulse.
abbrev pub Shows : Pwm → ℕ → Bool → Type 0
Shows p s v = v ≡ (if bit p.invert 0 then not (ltb s p.duty_cycle) else ltb s p.duty_cycle)

-- The settings that rounds leave alone.
pub record SameSettings (p q : Pwm) : Type 0 where
  pub same_period : q.period ≡ p.period
  pub same_duty : q.duty_cycle ≡ p.duty_cycle
  pub same_invert : q.invert ≡ p.invert

-- A round moves to the next position of the period.
pub record Steps (p q : Pwm) : Type 0 where
  pub runs : round p ≡ some q
  pub running : IsRunning q
  pub moves : position q ≡ next_position p.period (position p)
  pub shows : Shows p (position q) q.pwm_out
  pub settings : SameSettings p q

pub after : Pwm → Pwm
after p = let c = next_position p.period p.counter in record p { counter = c; pwm_out = level p c }

pub round-Steps : (p : Pwm) → IsRunning p → Steps p (after p)
unfolding round next_position after
round-Steps p r = record {
  runs = ground (arith, next_counter p.counter p.period);
  running = ground arith;
  moves = ground arith;
  shows = ground (arith, shifted_lem p (next_position p.period p.counter));
  settings = record { same_period = refl; same_duty = refl; same_invert = refl };
}
