-- ===== src/Memory.antt =====
-- components/memory_tlm: flat ROM or RAM, at region-local addresses.
pub mod Safety
pub mod Access
pub mod Debug
pub mod History
mod Tests
use cdc_vp.Base.{
  ℕ, ◌+◌, ◌-◌, ◌≤◌, ◌≡◌, Bool, true, false, not, ◌||◌, Option, none, some, List, ltb, ◌==◌,
  if◌then◌else◌, length, replicate, slice, take, overwrite, min,
}
use cdc_vp.Tlm.{
  Payload, Command, read_command, write_command, ignore_command, SimTime, ok_response,
  generic_error, address_error, command_error, respond,
}

-- `memory_tlm`. `data_` is `storage`.
pub record MemoryTlm : Type 0 where
  pub storage : List ℕ
  pub read_only : Bool
  pub access_latency : SimTime

-- The constructor.
unfoldable pub memory_tlm : ℕ → Bool → SimTime → MemoryTlm
memory_tlm size_bytes read_only latency = record {
  storage = replicate size_bytes 0;
  read_only = read_only;
  access_latency = latency;
}

pub size : MemoryTlm → ℕ
size m = length m.storage

-- `load`. The second part says whether `SC_REPORT_ERROR` was called; nothing is stored then,
-- whether the report throws or returns.
pub load : MemoryTlm → List ℕ → ℕ → ℕ → MemoryTlm × Bool
load m src len offset =
    if ltb (length m.storage) offset || ltb (length m.storage - offset) len
    then (m, true)
    else (record m { storage = overwrite m.storage offset (take len src) }, false)

-- `trans.set_dmi_allowed(true)` and the OK response.
abbrev finish : Payload → Payload
finish trans = record trans { dmi_allowed = true; response = ok_response }

-- The part of `b_transport` behind the two guards, `data` being the payload's bytes.
unfoldable pub transfer : Command → MemoryTlm → Payload → List ℕ → MemoryTlm × Payload
transfer read_command m trans bytes = (
  m,
  finish (record trans {
    buffer = some (overwrite bytes 0 (slice m.storage trans.address trans.data_length));
  }),
)
transfer write_command m trans bytes = if m.read_only then (m, respond trans command_error) else (
  record m { storage = overwrite m.storage trans.address (take trans.data_length bytes) },
  finish trans,
)
transfer ignore_command m trans bytes = (m, respond trans command_error)

unfoldable pub b_transport : MemoryTlm → Payload → SimTime → MemoryTlm × Payload × SimTime
unfolding transfer
b_transport m trans delay =
    let (m', t') : MemoryTlm × Payload =
      (if ltb (length m.storage) trans.address
          || ltb (length m.storage - trans.address) trans.data_length
        then (m, respond trans address_error)
        else elim trans.buffer [
          | none ↦ (m, respond trans generic_error)
          | some bytes ↦ transfer trans.command m trans bytes
        ]) in
    (m', t', delay + m.access_latency)

-- The part of `transport_dbg` behind its guard, on `n` bytes.
unfoldable pub debug_transfer : Command → MemoryTlm → Payload → List ℕ → ℕ → MemoryTlm × Payload × ℕ
debug_transfer read_command m trans bytes n = (
  m,
  record trans {
    buffer = some (overwrite bytes 0 (slice m.storage trans.address n));
    response = ok_response;
  },
  n,
)
debug_transfer write_command m trans bytes n = if m.read_only then (m, trans, 0) else (
  record m { storage = overwrite m.storage trans.address (take n bytes) },
  respond trans ok_response,
  n,
)
debug_transfer ignore_command m trans bytes n = (m, trans, 0)

-- The number of bytes moved is the result. It fits `unsigned`, being at most the data length.
unfoldable pub transport_dbg : MemoryTlm → Payload → MemoryTlm × Payload × ℕ
unfolding debug_transfer
transport_dbg m trans =
    if ltb (length m.storage) trans.address
    then (m, respond trans address_error, 0)
    else elim trans.buffer [
      | none ↦ (m, respond trans address_error, 0)
      | some bytes ↦
          debug_transfer trans.command m trans bytes
            (min trans.data_length (length m.storage - trans.address))
    ]

-- `tlm_dmi`, as `get_direct_mem_ptr` fills it: the storage, the window and the access it grants.
pub record DmiGrant : Type 0 where
  pub start_address : ℕ
  pub end_address : ℕ
  pub latency : SimTime
  pub may_read : Bool
  pub may_write : Bool

pub get_direct_mem_ptr : MemoryTlm → DmiGrant
get_direct_mem_ptr m = record {
  start_address = 0;
  end_address = if length m.storage == 0 then 0 else length m.storage - 1;
  latency = m.access_latency;
  may_read = true;
  may_write = not m.read_only;
}
