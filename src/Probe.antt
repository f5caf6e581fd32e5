-- ===== src/Probe.antt =====
-- tests/support/tlm_probe.h: an initiator that drives one transaction, and the count of failed checks.
-- MemoryTest, RouterTest and ClintTest are components/memory_tlm/tests, components/bus_router/tests
-- and components/clint_tlm/tests.
pub mod ClintTest
pub mod MemoryTest
pub mod PlicTest
pub mod RouterTest
use cdc_vp.Base.{
  ℕ, suc, Bool, true, false, Option, none, some, List, length, take, le_bytes, of_le, if◌then◌else◌,
}
use cdc_vp.Tlm.{
  Command, read_command, write_command, Payload, SimTime, Response, ok_response,
  incomplete_response, address_error, command_error,
}
use cdc_vp.Device.{Transport}

-- `CDC_CHECK`, with the number of failures.
abbrev pub cdc_check : Bool → ℕ → ℕ
cdc_check cond failures = if cond then failures else suc failures

-- `==` of the responses that the tests expect.
abbrev pub is_ok : Response → Bool
is_ok ok_response = true
is_ok _ = false

abbrev pub is_address_error : Response → Bool
is_address_error address_error = true
is_address_error _ = false

abbrev pub is_command_error : Response → Bool
is_command_error command_error = true
is_command_error _ = false

-- The word in a buffer of the test.
abbrev pub word_in : Option (List ℕ) → ℕ
word_in none = 0
word_in (some bytes) = of_le (take 4 bytes)

-- A buffer is the list of its bytes.
abbrev pub fill : Command → ℕ → List ℕ → Payload
fill cmd addr bytes = record {
  command = cmd;
  address = addr;
  buffer = some bytes;
  data_length = length bytes;
  streaming_width = length bytes;
  byte_enables = false;
  dmi_allowed = false;
  response = incomplete_response;
}

module _ {W : Type 0} (socket : Transport W) where
  -- The response, and the buffer as the target left it.
  abbrev pub access : Command → ℕ → List ℕ → W → W × Response × Option (List ℕ)
  access cmd addr bytes w =
      let (w', trans, delay) = socket w (fill cmd addr bytes) 0 in
      (w', trans.response, trans.buffer)

  abbrev pub write : ℕ → ℕ → W → W × Response × Option (List ℕ)
  write addr word w = access write_command addr (le_bytes 4 word) w

  abbrev pub read : ℕ → ℕ → W → W × Response × Option (List ℕ)
  read addr word w = access read_command addr (le_bytes 4 word) w

module _ {W : Type 0} (socket : W → Payload → W × Payload × ℕ) where
  abbrev pub debug : Command → ℕ → ℕ → W → W × ℕ × Option (List ℕ)
  debug cmd addr word w =
      let (w', trans, n) = socket w (fill cmd addr (le_bytes 4 word)) in (w', n, trans.buffer)
