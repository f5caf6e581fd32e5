-- ===== src/Stub.antt =====
-- `cpu_stub` of platforms/mini_tlm/src/mini_tlm_top.cpp, whose copy in platforms/mini_soc differs in
-- `run` only: transactions over the bus that its socket is bound to, a parameter. An exception
-- leaves the world as it was when it was thrown.
pub mod Words
mod Tests
use cdc_vp.Base.{
  ℕ, ◌%◌, ◌^◌, Bool, true, false, none, some, List, [], ◌∷◌, ◌==◌, if◌then◌else◌, length, le_bytes,
  of_le, take,
}
use cdc_vp.Tlm.{
  Payload, Command, read_command, write_command, Response, incomplete_response, SimTime,
  is_response_error,
}
use cdc_vp.Device.{Transport}

-- The exceptions, by what they say.
pub data StubError : Type 0 where
  uart_write_failed word_write_failed word_read_failed ram_mismatch : StubError

pub data Result (A : Type 0) : Type 0 where
  ok : A → Result A
  threw : StubError → Result A

abbrev pub Action : Type 0 → Type 0 → Type 0
Action W A = W → Result A × W

infixl 5 ◌>>=◌ ◌>>◌
abbrev pub ◌>>=◌ : {W A B : Type 0} → Action W A → (A → Action W B) → Action W B
◌>>=◌ m f w = let (r, w') = m w in elim r [ ok a ↦ f a w' | threw e ↦ (threw e, w') ]

abbrev pub ◌>>◌ : {W B : Type 0} → Action W (Unit {0}) → Action W B → Action W B
m >> k = m >>= λ _. k

abbrev pub pure : {W A : Type 0} → A → Action W A
pure a w = (ok a, w)

-- The payload of an access to as many bytes as the buffer has.
abbrev pub access : Command → ℕ → List ℕ → Payload
access c addr bytes = record {
  command = c;
  address = addr;
  buffer = some bytes;
  data_length = length bytes;
  streaming_width = length bytes;
  byte_enables = false;
  dmi_allowed = false;
  response = incomplete_response;
}

abbrev pub check : StubError → Response → Result (Unit {0})
check e r = if is_response_error r then threw e else ok tt

module _ {W : Type 0} (bus : Transport W) where
  unfoldable pub write8 : ℕ → ℕ → Action W (Unit {0})
  write8 addr value w =
      let (w', trans, delay) = bus w (access write_command addr (value ∷ [])) 0 in
      (check uart_write_failed trans.response, w')

  unfoldable pub write32 : ℕ → ℕ → Action W (Unit {0})
  write32 addr value w =
      let (w', trans, delay) = bus w (access write_command addr (le_bytes 4 value)) 0 in
      (check word_write_failed trans.response, w')

  -- The array that the value is copied from is the one behind the data pointer, for a target that
  -- leaves the pointer alone.
  unfoldable pub read32 : ℕ → Action W ℕ
  read32 addr w =
      let (w', trans, delay) = bus w (access read_command addr (0 ∷ 0 ∷ 0 ∷ 0 ∷ [])) 0 in
      let value : ℕ = elim trans.buffer [ none ↦ 0 | some bytes ↦ of_le (take 4 bytes) ] in
      (if is_response_error trans.response then threw word_read_failed else ok value, w')

  -- The loop over the characters, up to the terminating null.
  unfoldable pub write_uart : ℕ → List ℕ → Action W (Unit {0})
  unfolding write8
  write_uart uart [] = pure tt
  write_uart uart (ch ∷ text) = do write8 uart ch; write_uart uart text

  -- The test of the RAM that `run` makes.
  unfoldable pub check_ram : ℕ → ℕ → Action W (Unit {0})
  unfolding write32 read32
  check_ram ram pattern = do
    write32 ram pattern
    value ← read32 ram
    (λ w. (if value == pattern then ok tt else threw ram_mismatch, w))
