-- ===== src/Memory/Debug.antt =====
-- The backdoors of a memory: debug transport, `load` and direct memory access.
use cdc_vp.Base.{
  ℕ, ◌+◌, ◌-◌, ◌≤◌, ◌<◌, ◌≡◌, ◌≢◌, ◌↔◌, true, false, none, some, List, length, take, slice,
  overwrite, length-take, take_all, slice-overwrite_of_length, arith, min,
}
use cdc_vp.Tlm.{Payload, read_command, write_command, SimTime, ok_response, respond}
use cdc_vp.Memory.{MemoryTlm, b_transport, transport_dbg, load, get_direct_mem_ptr}

-- The number of bytes that a debug transaction moves is never more than was asked for or than the
-- storage has behind the address, and it is exactly the smaller of these for a read.
pub transport_dbg_count :
    (m : MemoryTlm) (trans : Payload)
    → let n = (transport_dbg m trans).2 in
      (n ≤ trans.data_length)
      × (n ≤ length m.storage - trans.address)
      × (trans.command ≡ read_command
          → trans.buffer ≢ none
          → n ≡ min trans.data_length (length m.storage - trans.address))
unfolding transport_dbg
transport_dbg_count m trans = ground arith

-- Where a timed transaction lies inside the storage and is answered by OK, the debug transaction with the
-- same payload moves all of its bytes, and leaves the same memory and the same payload, but for the DMI
-- hint, which it leaves as it was.
pub transport_dbg-b_transport :
    (m : MemoryTlm) (trans : Payload) (delay : SimTime)
    → trans.address + trans.data_length ≤ length m.storage
    → (b_transport m trans delay).1.response ≡ ok_response
    → transport_dbg m trans ≡ (
      (b_transport m trans delay).0,
      record (b_transport m trans delay).1 { dmi_allowed = trans.dmi_allowed },
      trans.data_length,
    )
unfolding transport_dbg b_transport
transport_dbg-b_transport m trans delay h ok = ground arith

-- A debug write of a whole buffer into a RAM.
pub transport_dbg-write :
    (m : MemoryTlm) (trans : Payload) (bytes : List ℕ)
    → trans.command ≡ write_command
    → trans.buffer ≡ some bytes
    → m.read_only ≡ false
    → length bytes ≡ trans.data_length
    → trans.address + trans.data_length ≤ length m.storage
    → transport_dbg m trans ≡ (
      record m { storage = overwrite m.storage trans.address bytes },
      respond trans ok_response,
      trans.data_length,
    )
unfolding transport_dbg
transport_dbg-write m trans bytes c b ram e h = ground (arith, take_all bytes trans.data_length)

-- `load` reports an error exactly if the image does not fit behind the offset, and then stores
-- nothing; if it fits, the image stands at the offset and the size is as before.
pub load_lem :
    (m : MemoryTlm) (image : List ℕ) (offset : ℕ)
    → let (m', reported) = load m image (length image) offset in
      ((reported ≡ true) ↔ (length m.storage < offset + length image))
      × (reported ≡ true → m' ≡ m)
      × (reported ≡ false → slice m'.storage offset (length image) ≡ image)
unfolding load
load_lem m image offset = ground (
  arith,
  length-take (length image) image,
  take_all image (length image),
  slice-overwrite_of_length m.storage offset (take (length image) image) (length image),
)

-- The window of direct memory access of a memory that has storage covers the addresses of the
-- storage and no others, and grants writing exactly if the memory is no ROM.
pub get_direct_mem_ptr_window :
    (m : MemoryTlm) (addr : ℕ)
    → 0 < length m.storage
    → let g = get_direct_mem_ptr m in
      (((g.start_address ≤ addr) × (addr ≤ g.end_address)) ↔ (addr < length m.storage))
      × ((g.may_write ≡ true) ↔ (m.read_only ≡ false))
unfolding get_direct_mem_ptr
get_direct_mem_ptr_window m addr h = ground arith
