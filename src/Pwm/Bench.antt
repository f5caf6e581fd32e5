-- ===== src/Pwm/Bench.antt =====
-- components/pwm_tlm/tb.cpp: the test bench of the PWM, whose test cases change registers over the bus
-- and then let the generator run; here with any values in place of its constants. A case writes all the
-- registers of the first one, also those that it leaves as they are in the source.
pub mod Exact
use cdc_vp.Base.{ℕ, ◌^◌, Bool, false, Option, none, some, List, [], ◌∷◌, le_bytes}
use cdc_vp.Tlm.{Payload, write_command, incomplete_response}
use cdc_vp.Pwm.{Pwm, b_transport, rounds}

abbrev word_write : ℕ → ℕ → Payload
word_write addr value = record {
  command = write_command;
  address = addr;
  buffer = some (le_bytes 4 value);
  data_length = 4;
  streaming_width = 0;
  byte_enables = false;
  dmi_allowed = false;
  response = incomplete_response;
}

-- Neither the response nor the delay is looked at.
unfoldable write_reg : ℕ → ℕ → Pwm → Option Pwm
write_reg addr value p = elim (b_transport p (word_write addr value) 0) [
  | none ↦ none
  | some (q, trans, delay) ↦ some q
]

infixl 5 ◌then◌
abbrev ◌then◌ : (Pwm → Option Pwm) → (Pwm → Option Pwm) → Pwm → Option Pwm
(f then g) p = elim (f p) [ none ↦ none | some q ↦ g q ]

-- The counter is enabled and the period is set.
unfoldable setup : ℕ → Pwm → Option Pwm
unfolding write_reg
setup period = write_reg 0x08 0x80000000 then write_reg 0x30 period

-- What a test case sets.
pub record TestCase : Type 0 where
  pub enable : ℕ
  pub invert : ℕ
  pub phase : ℕ
  pub duty : ℕ

unfoldable configure : TestCase → Pwm → Option Pwm
unfolding write_reg
configure c =
    write_reg 0x0C c.enable
    then write_reg 0x10 c.invert
    then write_reg 0x14 c.phase
    then write_reg 0x2C c.duty

-- Each case is followed by as many rounds, whose levels are its trace; `none` is undefined behaviour.
pub run_cases : ℕ → List TestCase → Pwm → Option (List (List Bool) × Pwm)
run_cases n [] p = some ([], p)
run_cases n (c ∷ cs) p = elim (configure c p) [
  | none ↦ none
  | some p' ↦ elim (rounds n p') [
    | none ↦ none
    | some (trace, q) ↦ elim (run_cases n cs q) [
      | none ↦ none
      | some (traces, r) ↦ some (trace ∷ traces, r)
    ]
  ]
]

pub run : ℕ → List TestCase → Pwm → Option (List (List Bool) × Pwm)
run period cases p = elim (setup period p) [ none ↦ none | some q ↦ run_cases period cases q ]
