-- ===== src/Tlm.antt =====
-- The attributes of a TLM-2.0 generic payload that the program reads and writes. TLM itself is a
-- library; this is the data that crosses its `b_transport` and `transport_dbg` calls.
use cdc_vp.Base.{ℕ, ◌*◌, ◌≤◌, ◌≡◌, List, Bool, true, false, Option, some, length}

-- `tlm_command`
pub data Command : Type 0 where
  read_command write_command ignore_command : Command

-- `tlm_response_status`
pub data Response : Type 0 where
  ok_response incomplete_response generic_error address_error command_error burst_error
        byte_enable_error :
      Response

pub record Payload : Type 0 where
  pub command : Command
  pub address : ℕ
  -- The bytes behind `get_data_ptr()`; `none` is the null pointer.
  pub buffer : Option (List ℕ)
  pub data_length : ℕ
  pub streaming_width : ℕ
  -- Is the byte enable pointer set?
  pub byte_enables : Bool
  pub dmi_allowed : Bool
  pub response : Response

-- A delay or a time in units of `sc_time::value()`, picoseconds.
abbrev pub SimTime : Type 0
SimTime = ℕ

abbrev pub nanoseconds : ℕ → SimTime
nanoseconds n = 1000 * n

-- `is_response_error()`: all but `TLM_OK_RESPONSE`.
abbrev pub is_response_error : Response → Bool
is_response_error ok_response = false
is_response_error _ = true

abbrev pub is_read : Command → Bool
is_read read_command = true
is_read _ = false

abbrev pub is_write : Command → Bool
is_write write_command = true
is_write _ = false

abbrev pub respond : Payload → Response → Payload
respond p r = record p { response = r }

abbrev pub set_address : Payload → ℕ → Payload
set_address p a = record p { address = a }

-- The buffer holds the bytes that the data length promises.
abbrev pub HasBuffer : Payload → List ℕ → Type 0
HasBuffer p bs = (p.buffer ≡ some bs) × (p.data_length ≤ length bs)
