-- ===== src/Elf.antt =====
-- cpu_models/include/cdc/cpu/elf_loader.h: the ELF loader. The file is the list of its bytes, and
-- the socket is a parameter: what its `transport_dbg` does to a world behind it.
pub mod Load
pub mod Install
pub mod Defined
pub mod Bus
pub mod Sample
mod Tests
use cdc_vp.Base.{
  ℕ, zero, suc, ◌+◌, ◌*◌, ◌%◌, ◌^◌, ◌-◌, Bool, true, false, not, ◌||◌, Option, none, some, List,
  ltb, ◌==◌, if◌then◌else◌, length, get_elem?, get_or, slice,
}
use cdc_vp.Tlm.{Payload, write_command, incomplete_response}

-- The exceptions, by where they are thrown; `out_of_range` is `std::out_of_range` of `at`.
pub data LoadError : Type 0 where
  cannot_open not_an_elf_file not_little_endian out_of_range segment_exceeds_file
        backdoor_write_incomplete :
      LoadError

-- `undefined` is behaviour that C++ leaves undefined.
pub data Outcome {ℓ} (A : Type ℓ) : Type ℓ where
  done : A → Outcome A
  threw : LoadError → Outcome A
  undefined : Outcome A

infixl 5 ◌>>=◌ ◌>>◌
abbrev pub ◌>>=◌ {ℓ κ} : {A : Type ℓ} {B : Type κ} → Outcome A → (A → Outcome B) → Outcome B
done a >>= f = f a
threw e >>= f = threw e
undefined >>= f = undefined

abbrev pub ◌>>◌ {ℓ} : {B : Type ℓ} → Outcome (Unit {0}) → Outcome B → Outcome B
m >> k = m >>= λ _. k

-- `b.at(off)`. `size_t` has 64 bits.
abbrev pub at : List ℕ → ℕ → Outcome ℕ
at b off = elim (get_elem? b (off % 2 ^ 64)) [ none ↦ threw out_of_range | some x ↦ done x ]

-- The bytes that are or-ed are shifted to different bits, so this is their sum.
unfoldable pub rd16 : List ℕ → ℕ → Outcome ℕ
rd16 b off = do x ← at b off; y ← at b (off + 1); done (x + 256 * y)

unfoldable pub rd32 : List ℕ → ℕ → Outcome ℕ
rd32 b off = do
  x ← at b off
  y ← at b (off + 1)
  z ← at b (off + 2)
  t ← at b (off + 3)
  done (x + 256 * y + 65536 * z + 16777216 * t)

unfoldable pub rd64 : List ℕ → ℕ → Outcome ℕ
unfolding rd32
rd64 b off = do lo ← rd32 b off; hi ← rd32 b (off + 4); done (lo + 2 ^ 32 * hi)

-- What `load_elf` takes from the ELF header.
pub record Header : Type 0 where
  pub is64 : Bool
  pub entry : ℕ
  pub phoff : ℕ
  pub phentsize : ℕ
  pub phnum : ℕ

fields64 : List ℕ → Outcome Header
fields64 b = do
  entry ← rd64 b 24
  phoff ← rd64 b 32
  phentsize ← rd16 b 54
  phnum ← rd16 b 56
  done (record { is64 = true; entry = entry; phoff = phoff; phentsize = phentsize; phnum = phnum })

fields32 : List ℕ → Outcome Header
fields32 b = do
  entry ← rd32 b 24
  phoff ← rd32 b 28
  phentsize ← rd16 b 42
  phnum ← rd16 b 44
  done (record { is64 = false; entry = entry; phoff = phoff; phentsize = phentsize; phnum = phnum })

-- The magic number.
abbrev pub is_elf : List ℕ → Bool
is_elf b = not (
    ltb (length b) 64
    || not (get_or b 0 0 == 0x7F)
    || not (get_or b 1 0 == b'E')
    || not (get_or b 2 0 == b'L')
    || not (get_or b 3 0 == b'F'))

unfoldable pub header : List ℕ → Outcome Header
unfolding fields64 fields32
header b =
    if not (is_elf b)
    then threw not_an_elf_file
    else if not (get_or b 5 0 == 1)
    then threw not_little_endian
    else if get_or b 4 0 == 2
    then fields64 b
    else fields32 b

pub record Segment : Type 0 where
  pub p_offset : ℕ
  pub p_paddr : ℕ
  pub p_filesz : ℕ

segment64 : List ℕ → ℕ → Outcome Segment
segment64 b ph = do
  p_offset ← rd64 b (ph + 8)
  p_paddr ← rd64 b (ph + 16)
  p_filesz ← rd64 b (ph + 32)
  done (record { p_offset = p_offset; p_paddr = p_paddr; p_filesz = p_filesz })

segment32 : List ℕ → ℕ → Outcome Segment
segment32 b ph = do
  p_offset ← rd32 b (ph + 4)
  p_paddr ← rd32 b (ph + 12)
  p_filesz ← rd32 b (ph + 16)
  done (record { p_offset = p_offset; p_paddr = p_paddr; p_filesz = p_filesz })

-- `ph` of the round `i`. The product of two 16-bit numbers is an `int`.
unfoldable pub header_offset : Header → ℕ → Outcome ℕ
header_offset h i =
    if ltb (2 ^ 31 - 1) (i * h.phentsize)
    then undefined
    else done ((h.phoff + i * h.phentsize) % 2 ^ 64)

-- A program header of type `PT_LOAD`; `none` is one with nothing in the file.
loadable : List ℕ → Bool → ℕ → Outcome (Option Segment)
loadable b is64 ph = do
  s ← if is64 then segment64 b ph else segment32 b ph
  done (if s.p_filesz == 0 then none else some s)

-- The program header at `ph`; `none` is a round of the loop that continues.
unfoldable pub segment_at : List ℕ → Bool → ℕ → Outcome (Option Segment)
unfolding segment64 segment32 loadable
segment_at b is64 ph = do
  p_type ← rd32 b ph
  (if not (p_type == 1) then done none else loadable b is64 ph)

-- The program header of round `i`.
unfoldable pub found_at : List ℕ → Header → ℕ → Outcome (Option Segment)
found_at b h i = header_offset h i >>= segment_at b h.is64

-- What follows a statement that ended normally.
abbrev pub and_then {ℓ} :
    {World : Type ℓ}
    → World × Outcome (Unit {0})
    → (World → World × Outcome (Unit {0}))
    → World × Outcome (Unit {0})
and_then (w, done x) k = k w
and_then (w, threw e) k = (w, threw e)
and_then (w, undefined) k = (w, undefined)

-- The payload of `dbg_write`.
abbrev pub image_write : ℕ → List ℕ → ℕ → Payload
image_write addr bytes len = record {
  command = write_command;
  address = addr;
  buffer = some bytes;
  data_length = len;
  streaming_width = len;
  byte_enables = false;
  dmi_allowed = false;
  response = incomplete_response;
}

module _ {ℓ} {World : Type ℓ} (dbg : World → Payload → World × Payload × ℕ) where
  unfoldable pub dbg_write : World → ℕ → List ℕ → ℕ → World × Outcome (Unit {0})
  dbg_write w addr bytes len =
      let (w', trans, n) = dbg w (image_write addr bytes len) in
      (w', if n == len then done tt else threw backdoor_write_incomplete)

  -- The write of a segment. The sum is of 64 bits, and the length is cut to the 32 bits of
  -- `unsigned`; what lies behind the end of the file must not be read.
  unfoldable pub load_segment : World → List ℕ → Segment → World × Outcome (Unit {0})
  unfolding dbg_write
  load_segment w b s =
      let len : ℕ = s.p_filesz % 2 ^ 32 in
      if ltb (length b) ((s.p_offset + s.p_filesz) % 2 ^ 64)
      then (w, threw segment_exceeds_file)
      else if ltb (length b) (s.p_offset + len)
      then (w, undefined)
      else dbg_write w s.p_paddr (slice b s.p_offset len) len

  -- What a round of the loop does with a program header.
  act : World → List ℕ → Outcome (Option Segment) → World × Outcome (Unit {0})
  act w b (done none) = (w, done tt)
  act w b (done (some s)) = load_segment w b s
  act w b (threw e) = (w, threw e)
  act w b undefined = (w, undefined)

  -- The loop from round `i` on, `left` rounds before its end.
  unfoldable pub load_from : ℕ → ℕ → World → List ℕ → Header → World × Outcome (Unit {0})
  unfolding act
  load_from zero i w b h = (w, done tt)
  load_from (suc left) i w b h =
      and_then (act w b (found_at b h i)) (λ w'. load_from left (suc i) w' b h)

  -- `none` is a file that cannot be opened. The result is the entry point.
  unfoldable pub load_elf : World → Option (List ℕ) → World × Outcome ℕ
  unfolding load_from
  load_elf w none = (w, threw cannot_open)
  load_elf w (some b) = elim (header b) [
    | done h ↦ let (w', r) = load_from h.phnum 0 w b h in (w', r >>= λ x. done h.entry)
    | threw e ↦ (w, threw e)
    | undefined ↦ (w, undefined)
  ]
