-- ===== src/Fixtures.antt =====
-- Transactions that the tests of the components send.
use cdc_vp.Base.{ℕ, Bool, List, [], ◌∷◌, length, some, le_bytes}
use cdc_vp.Tlm.{Payload, Command, read_command, write_command, incomplete_response}

abbrev pub transaction : Command → ℕ → List ℕ → Payload
transaction c addr bytes = record {
  command = c;
  address = addr;
  buffer = some bytes;
  data_length = length bytes;
  streaming_width = length bytes;
  byte_enables = Bool.false;
  dmi_allowed = Bool.false;
  response = incomplete_response;
}

abbrev pub write_word : ℕ → ℕ → Payload
write_word addr value = transaction write_command addr (le_bytes 4 value)

abbrev pub read_word : ℕ → Payload
read_word addr = transaction read_command addr (0 ∷ 0 ∷ 0 ∷ 0 ∷ [])
