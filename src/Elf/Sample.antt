-- ===== src/Elf/Sample.antt =====
-- A 32-bit image of one loadable segment, for tests: ELF header, program header, four bytes.
use cdc_vp.Base.{ℕ, ◌≡◌, refl, false, List, [], ◌∷◌, ◌++◌, replicate, le_bytes}
use cdc_vp.Elf.{done, rd16, rd32, header, Header, Segment, segment_at, header_offset, found_at}
use cdc_vp.Elf.Load.{segments_from, segments}

abbrev pub image : List ℕ
image =
    0x7F ∷ 0x45 ∷ 0x4C ∷ 0x46 ∷ 1 ∷ 1 ∷ 1 ∷ replicate 9 0
    ++ le_bytes 4 0
    ++ le_bytes 4 1
    ++ le_bytes 4 0x80000010
    ++ le_bytes 4 52
    ++ replicate 10 0
    ++ le_bytes 2 32
    ++ le_bytes 2 1
    ++ replicate 6 0
    ++ le_bytes 4 1
    ++ le_bytes 4 84
    ++ le_bytes 4 0
    ++ le_bytes 4 0x80000010
    ++ le_bytes 4 4
    ++ replicate 12 0
    ++ (0x13 ∷ 0 ∷ 0 ∷ 0x6F ∷ [])

abbrev pub image_header : Header
image_header = record { is64 = false; entry = 0x80000010; phoff = 52; phentsize = 32; phnum = 1 }

abbrev pub image_segment : Segment
image_segment = record { p_offset = 84; p_paddr = 0x80000010; p_filesz = 4 }

pub image-header : header image ≡ done image_header
unfolding header rd32 rd16
image-header = refl

pub image-segments : segments image image_header ≡ done (image_segment ∷ [])
unfolding segments segments_from found_at header_offset segment_at rd32
image-segments = refl
