-- ===== src/Elf/Tests.antt =====
-- The loader on small images, with a router and a RAM behind its socket.
use cdc_vp.Base.{
  ℕ, ◌-◌, ◌≤◌, ◌≡◌, ◌≢◌, ◌^◌, refl, false, some, List, [], ◌∷◌, ◌++◌, length, replicate, le_bytes,
  slice, arith,
}
use cdc_vp.Tlm.{Payload}
use cdc_vp.Memory
use cdc_vp.Memory.{MemoryTlm}
use cdc_vp.Router.{BusRouter, transport_dbg}
use cdc_vp.Elf.{
  done, undefined, ◌>>=◌, rd16, rd32, header, Header, Segment, segment_at, header_offset, found_at,
  load_segment, load_elf,
}
use cdc_vp.Elf.Load.{segments_from, segments, write_all, load_elf-write_all}
use cdc_vp.Elf.Install.{HasMemory, Outside, Holds, load_elf-Holds}
use cdc_vp.Elf.Bus.{router-HasMemory}
use cdc_vp.Elf.Defined.{load_segment_wraps, load_elf_defined}

-- A 32-bit image: ELF header, two program headers of which the second is not loadable, four bytes.
abbrev small_image : List ℕ
small_image =
    0x7F ∷ 0x45 ∷ 0x4C ∷ 0x46 ∷ 1 ∷ 1 ∷ 1 ∷ replicate 9 0
    ++ le_bytes 4 0
    ++ le_bytes 4 1
    ++ le_bytes 4 0x80000010
    ++ le_bytes 4 52
    ++ replicate 10 0
    ++ le_bytes 2 32
    ++ le_bytes 2 2
    ++ replicate 6 0
    ++ le_bytes 4 1
    ++ le_bytes 4 116
    ++ le_bytes 4 0
    ++ le_bytes 4 0x80000010
    ++ le_bytes 4 4
    ++ replicate 12 0
    ++ le_bytes 4 2
    ++ replicate 28 0
    ++ (0x13 ∷ 0 ∷ 0 ∷ 0x6F ∷ [])

abbrev small_header : Header
small_header = record { is64 = false; entry = 0x80000010; phoff = 52; phentsize = 32; phnum = 2 }

abbrev small_segment : Segment
small_segment = record { p_offset = 116; p_paddr = 0x80000010; p_filesz = 4 }

small_image-header : header small_image ≡ done small_header
unfolding header rd32 rd16
small_image-header = refl

small_image-segments : segments small_image small_header ≡ done (small_segment ∷ [])
unfolding segments segments_from found_at header_offset segment_at rd32
small_image-segments = refl

abbrev ram : MemoryTlm
ram = record { storage = replicate 64 0; read_only = false; access_latency = 0 }

abbrev one_target : BusRouter
one_target = record {
  ranges = record { base = 0x80000000; size = 64 } ∷ [];
  num_sockets = 1;
  num_extra_ports = 0;
}

abbrev to_ram : ℕ → MemoryTlm → Payload → MemoryTlm × Payload × ℕ
to_ram idx m trans = Memory.transport_dbg m trans

one_target-HasMemory : HasMemory (transport_dbg to_ram one_target) 0x80000000 64
one_target-HasMemory =
    router-HasMemory to_ram one_target 0 (λ m. m) (λ w m. m) (λ w m. refl) (λ w trans. refl)
      (omega arith, tt, tt) (omega arith)

ram_is_writable : (one_target-HasMemory.memory ram).read_only ≡ false
unfolding one_target-HasMemory router-HasMemory
ram_is_writable = refl

ram_size : length (one_target-HasMemory.memory ram).storage ≡ 64
unfolding one_target-HasMemory router-HasMemory
ram_size = refl

load_elf-Holds_example :
    let (w', r) = load_elf (transport_dbg to_ram one_target) ram (some small_image) in
    let before = (one_target-HasMemory.memory ram).storage in
    let after = (one_target-HasMemory.memory w').storage in
    (r ≡ done 0x80000010)
    × Holds 0x80000000 small_image after (small_segment ∷ [])
    × ((addr n : ℕ)
        → 0x80000000 ≤ addr
        → Outside addr n (small_segment ∷ [])
        → slice after (addr - 0x80000000) n ≡ slice before (addr - 0x80000000) n)
    × (length after ≡ 64)
load_elf-Holds_example =
    load_elf-Holds (transport_dbg to_ram one_target) one_target-HasMemory ram small_image
      small_header (small_segment ∷ []) ram_is_writable ram_size (omega arith) small_image-header
      small_image-segments (omega arith) (omega arith) (tt, tt)

load_elf-write_all_example : load_elf (transport_dbg to_ram one_target) ram (some small_image) ≡ (
    let (w', r) =
      write_all (transport_dbg to_ram one_target) ram small_image (small_segment ∷ []) in
    (w', r >>= λ x. done 0x80000010))
load_elf-write_all_example =
    load_elf-write_all (transport_dbg to_ram one_target) ram small_image small_header
      (small_segment ∷ []) (omega arith) small_image-header small_image-segments (omega arith)

load_elf_defined_example :
    (load_elf (transport_dbg to_ram one_target) ram (some small_image)).1 ≢ undefined
load_elf_defined_example =
    load_elf_defined (transport_dbg to_ram one_target) ram small_image small_header (omega arith)
      (omega arith) small_image-header refl (omega arith)

abbrev wrapping : Segment
wrapping = record { p_offset = 2 ^ 64 - 8; p_paddr = 0x80000000; p_filesz = 16 }

load_segment_wraps_example :
    load_segment (transport_dbg to_ram one_target) ram small_image wrapping ≡ (ram, undefined)
load_segment_wraps_example =
    load_segment_wraps (transport_dbg to_ram one_target) ram small_image wrapping (omega arith)
      (omega arith) (omega arith) (omega arith) (omega arith)
