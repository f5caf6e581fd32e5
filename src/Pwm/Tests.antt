-- ===== src/Pwm/Tests.antt =====
-- A generator at concrete settings.
use cdc_vp.Base.{
  ℕ, ◌≡◌, ◌↔◌, ◌^◌, refl, Bool, true, false, none, some, List, [], ◌∷◌, arith, le_bytes,
}
use cdc_vp.Tlm.{Payload, SimTime, ok_response, respond}
use cdc_vp.Fixtures.{write_word, read_word}
use cdc_vp.Pwm.{Pwm, pwm, b_transport, round, rounds, counter_enable}
use cdc_vp.Pwm.Rounds.{IsRunning, position}
use cdc_vp.Pwm.Duty.{count_active, duty_cycle_exact}
use cdc_vp.Pwm.Registers.{register_roundtrip, round_undefined_iff}
use cdc_vp.Pwm.Bench
use cdc_vp.Pwm.Bench.{TestCase}
use cdc_vp.Pwm.Bench.Exact.{Exact, run-Exact}

-- Four positions, the pulse in two of them, delayed by one.
abbrev four : Pwm
four = record {
  cfg = 2 ^ 31;
  pwm_en = 1;
  invert = 0;
  phase_delay = 1;
  duty_cycle = 2;
  period = 4;
  counter = 0;
  pwm_out = false;
}

four-IsRunning : IsRunning four
four-IsRunning = record {
  counting = refl;
  pulsing = refl;
  has_period = omega arith;
  fits = omega arith;
  phase = omega arith;
  in_period = omega arith;
}

rounds-four :
    rounds 4 four ≡ some (true ∷ true ∷ false ∷ false ∷ [], record four { pwm_out = false })
unfolding rounds round
rounds-four = refl

duty_cycle_exact_example :
    (levels : List Bool) × (q : Pwm) × (rounds 4 four ≡ some (levels, q))
    × (count_active false levels ≡ 2)
    × (position q ≡ position four)
duty_cycle_exact_example = duty_cycle_exact four four-IsRunning

round_undefined_iff_example :
    (round (record four { period = 0 }) ≡ none)
    ↔ ((counter_enable (record four { period = 0 }) ≡ true) × (◌≡◌ {A = ℕ} 0 0))
round_undefined_iff_example = round_undefined_iff (record four { period = 0 })

written :
    b_transport pwm (write_word 0x2C 77) 0
    ≡ some (record pwm { duty_cycle = 77 }, respond (write_word 0x2C 77) ok_response, 10000)
unfolding b_transport pwm
written = refl

register_roundtrip_example :
    (u : Payload) × (e : SimTime) × (b_transport (record pwm { duty_cycle = 77 }) (read_word 0x2C) 0
      ≡ some (record pwm { duty_cycle = 77 }, u, e))
    × (u.response ≡ ok_response)
    × (u.buffer ≡ some (le_bytes 4 77))
register_roundtrip_example =
    register_roundtrip pwm (record pwm { duty_cycle = 77 }) (write_word 0x2C 77) (read_word 0x2C)
      (respond (write_word 0x2C 77) ok_response) 0 10000 0 (le_bytes 4 77) (0 ∷ 0 ∷ 0 ∷ 0 ∷ [])
      written refl refl refl refl refl (omega arith) (omega arith) refl refl

-- The cases TC1 to TC7 of the test bench.
abbrev test_cases : List TestCase
test_cases =
    record { enable = 0; invert = 0; phase = 0; duty = 40 }
    ∷ record { enable = 1; invert = 0; phase = 0; duty = 40 }
    ∷ record { enable = 1; invert = 0; phase = 0; duty = 75 }
    ∷ record { enable = 1; invert = 0; phase = 20; duty = 75 }
    ∷ record { enable = 1; invert = 1; phase = 20; duty = 75 }
    ∷ record { enable = 1; invert = 0; phase = 20; duty = 0 }
    ∷ record { enable = 1; invert = 0; phase = 20; duty = 100 }
    ∷ []

run-Exact_example :
    (traces : List (List Bool)) × (q : Pwm) × (Bench.run 100 test_cases pwm ≡ some (traces, q))
    × Exact 100 test_cases traces
unfolding pwm
run-Exact_example = run-Exact 100 test_cases pwm (omega arith) (omega arith) (omega arith)
