-- ===== src/Clint/Registers.antt =====
-- The register accesses of the CLINT.
use cdc_vp.Base.{
  ℕ, ◌+◌, ◌*◌, ◌/◌, ◌%◌, ◌^◌, ◌≤◌, ◌<◌, ◌≡◌, ◌≢◌, ap, [], ◌∷◌, Bool, true, false, not, none, some,
  if◌then◌else◌, le_bytes, arith,
}
use cdc_vp.Tlm.{Payload, SimTime, nanoseconds, read_command, write_command, ok_response}
use cdc_vp.Clint.{ClintTlm, now_mtime, slice_read, slice_write, b_transport}

-- A transaction whose end does not pass the end of the address space reads and writes no memory
-- outside the register that it names.
pub b_transport_defined :
    (c : ClintTlm) (trans : Payload) (delay now : SimTime)
    → trans.address + trans.data_length < 2 ^ 64
    → b_transport c trans delay now ≢ none
unfolding b_transport slice_read slice_write
b_transport_defined c trans delay now h = ground arith

-- A transaction whose end wraps round to the compare register or below passes the guard, and
-- accesses memory outside the register.
pub b_transport_overrun :
    (c : ClintTlm) (trans : Payload) (delay now : SimTime)
    → trans.address < 2 ^ 64
    → trans.data_length < 2 ^ 32
    → 2 ^ 64 ≤ trans.address + trans.data_length
    → trans.address + trans.data_length ≤ 2 ^ 64 + 0x4008
    → trans.buffer ≢ none
    → b_transport c trans delay now ≡ none
unfolding b_transport slice_read slice_write
b_transport_overrun c trans delay now a l wraps end data_ptr = ground arith

slice_write_upper :
    (v w : ℕ)
    → v < 2 ^ 64
    → w < 2 ^ 32
    → slice_write v 4 4 (le_bytes 4 w) ≡ some (v % 2 ^ 32 + 2 ^ 32 * w)
unfolding slice_write
slice_write_upper v w h k = ap some (omega arith)

slice_write_lower :
    (v w : ℕ)
    → v < 2 ^ 64
    → w < 2 ^ 32
    → slice_write v 0 4 (le_bytes 4 w) ≡ some (v / 2 ^ 32 * 2 ^ 32 + w)
unfolding slice_write
slice_write_lower v w h k = ap some (omega arith)

-- A value with one of its halves replaced.
abbrev pub with_half : Bool → ℕ → ℕ → ℕ
with_half true word v = v % 2 ^ 32 + 2 ^ 32 * word
with_half false word v = v / 2 ^ 32 * 2 ^ 32 + word

-- A 32-bit write to the compare register at one of its halves.
pub store_half :
    (c : ClintTlm) (trans : Payload) (delay now : SimTime) (upper : Bool) (word : ℕ)
    → trans.address ≡ (if upper then 0x4004 else 0x4000)
    → trans.data_length ≡ 4
    → trans.command ≡ write_command
    → trans.buffer ≡ some (le_bytes 4 word)
    → word < 2 ^ 32
    → c.mtimecmp < 2 ^ 64
    → b_transport c trans delay now
      ≡ some (
        record c { mtimecmp = with_half upper word c.mtimecmp; notified = some 0 },
        record trans { response = ok_response },
        delay + nanoseconds 10,
      )
unfolding b_transport
store_half c trans delay now true word a l w b small fits =
    ground (arith, slice_write_upper c.mtimecmp word fits small)
store_half c trans delay now false word a l w b small fits =
    ground (arith, slice_write_lower c.mtimecmp word fits small)

-- The halves may be replaced in either order.
pub with_half-with_half :
    (upper_first : Bool) (low high v : ℕ)
    → v < 2 ^ 64
    → low < 2 ^ 32
    → high < 2 ^ 32
    → let first = if upper_first then high else low in
      let second = if upper_first then low else high in
      (with_half upper_first first v < 2 ^ 64)
      × (with_half (not upper_first) second (with_half upper_first first v) ≡ low + 2 ^ 32 * high)
with_half-with_half true low high v fits lo hi = (omega arith, omega arith)
with_half-with_half false low high v fits lo hi = (omega arith, omega arith)

-- Firmware sets the compare register by two 32-bit writes, one to each half: in either order, and
-- whatever the register held, both are answered by OK and the register then holds the 64-bit value.
pub set_mtimecmp :
    (c : ClintTlm) (first second : Payload) (d d' now later : SimTime) (upper_first : Bool)
    (low high : ℕ)
    → c.mtimecmp < 2 ^ 64
    → low < 2 ^ 32
    → high < 2 ^ 32
    → first.address ≡ (if upper_first then 0x4004 else 0x4000)
    → second.address ≡ (if upper_first then 0x4000 else 0x4004)
    → first.data_length ≡ 4
    → second.data_length ≡ 4
    → first.command ≡ write_command
    → second.command ≡ write_command
    → first.buffer ≡ some (le_bytes 4 (if upper_first then high else low))
    → second.buffer ≡ some (le_bytes 4 (if upper_first then low else high))
    → (between final : ClintTlm) × (b_transport c first d now
        ≡ some (between, record first { response = ok_response }, d + nanoseconds 10))
      × (b_transport between second d' later
          ≡ some (final, record second { response = ok_response }, d' + nanoseconds 10))
      × (final.mtimecmp ≡ low + 2 ^ 32 * high)
set_mtimecmp c first second d d' now later true low high fits lo hi a a' l l' w w' b b' =
    let mid : ℕ = with_half true high c.mtimecmp in
    let between : ClintTlm = record c { mtimecmp = mid; notified = some 0 } in
    (
      between,
      record between { mtimecmp = with_half false low mid; notified = some 0 },
      store_half c first d now true high a l w b hi fits,
      store_half between second d' later false low a' l' w' b' lo (omega arith),
      omega arith,
    )
set_mtimecmp c first second d d' now later false low high fits lo hi a a' l l' w w' b b' =
    let mid : ℕ = with_half false low c.mtimecmp in
    let between : ClintTlm = record c { mtimecmp = mid; notified = some 0 } in
    (
      between,
      record between { mtimecmp = with_half true high mid; notified = some 0 },
      store_half c first d now false low a l w b lo fits,
      store_half between second d' later true high a' l' w' b' hi (omega arith),
      omega arith,
    )

slice_read_upper : (t : ℕ) → slice_read t 4 4 (0 ∷ 0 ∷ 0 ∷ 0 ∷ []) ≡ some (le_bytes 4 (t / 2 ^ 32))
unfolding slice_read
slice_read_upper t = ground arith

slice_read_lower : (t : ℕ) → slice_read t 0 4 (0 ∷ 0 ∷ 0 ∷ 0 ∷ []) ≡ some (le_bytes 4 (t % 2 ^ 32))
unfolding slice_read
slice_read_lower t = ground arith

-- A 32-bit read of one of the halves of `mtime`.
pub read_mtime :
    (c : ClintTlm) (trans : Payload) (delay now : SimTime) (upper : Bool)
    → trans.address ≡ (if upper then 0xBFFC else 0xBFF8)
    → trans.data_length ≡ 4
    → trans.command ≡ read_command
    → trans.buffer ≡ some (0 ∷ 0 ∷ 0 ∷ 0 ∷ [])
    → b_transport c trans delay now
      ≡ some (
        c,
        record trans {
          buffer =
              some (le_bytes 4 (if upper then now_mtime now / 2 ^ 32 else now_mtime now % 2 ^ 32));
          response = ok_response;
        },
        delay + nanoseconds 10,
      )
unfolding b_transport slice_read
read_mtime c trans delay now true a l r b = ground (arith, slice_read_upper (now_mtime now))
read_mtime c trans delay now false a l r b = ground (arith, slice_read_lower (now_mtime now))
