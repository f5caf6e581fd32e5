-- ===== src/Elf/Install.antt =====
-- What a loaded image leaves in a memory behind the bus.
use cdc_vp.Base.{
  ℕ, ◌+◌, ◌-◌, ◌^◌, ◌≤◌, ◌<◌, ◌≡◌, ◌⊎◌, inl, inr, refl, ap, sym, subst, ◌∙◌, true, false, some,
  List, [], ◌∷◌, length, slice, overwrite, length-slice, length-overwrite, slice-overwrite_outside,
  slice-overwrite_of_length, ◌==◌, if◌then◌else◌, arith,
}
use cdc_vp.Tlm.{Payload, set_address}
use cdc_vp.Memory
use cdc_vp.Memory.{MemoryTlm}
use cdc_vp.Memory.Debug.{transport_dbg-write}
use cdc_vp.Elf.{
  Outcome, done, threw, backdoor_write_incomplete, ◌>>=◌, and_then, Header, header, Segment,
  image_write, dbg_write, load_elf,
}
use cdc_vp.Elf.Load.{segments, AllInFile, write_all, load_elf-write_all}

-- A socket behind which a memory is mapped at `base`: the memory in the world, and what a debug
-- transaction on an address of its region does.
pub record HasMemory {World : Type 0} (dbg : World → Payload → World × Payload × ℕ) (base size : ℕ)
    : Type 0 where
  pub memory : World → MemoryTlm
  pub set_memory : World → MemoryTlm → World
  pub memory-set_memory : (w : World) (m : MemoryTlm) → memory (set_memory w m) ≡ m
  pub dbg_memory :
      (w : World) (trans : Payload)
      → base ≤ trans.address
      → trans.address < base + size
      → let (m', t', n) =
          Memory.transport_dbg (memory w) (set_address trans (trans.address - base)) in
        dbg w trans ≡ (set_memory w m', set_address t' trans.address, n)

-- A segment that stands in the region, and is not empty.
abbrev pub InRegion : ℕ → ℕ → Segment → Type 0
InRegion base size s =
    (0 < s.p_filesz) × (base ≤ s.p_paddr) × (s.p_paddr + s.p_filesz ≤ base + size)

abbrev pub AllInRegion : ℕ → ℕ → List Segment → Type 0
AllInRegion base size [] = Unit {0}
AllInRegion base size (s ∷ ss) = InRegion base size s × AllInRegion base size ss

-- The bytes of a segment in the file.
abbrev pub image : List ℕ → Segment → List ℕ
image b s = slice b s.p_offset s.p_filesz

-- The segments written over a storage, in order.
install : ℕ → List ℕ → List Segment → List ℕ → List ℕ
install base b [] storage = storage
install base b (s ∷ ss) storage =
    install base b ss (overwrite storage (s.p_paddr - base) (image b s))

-- No segment of the list meets the `n` addresses from `addr` on.
abbrev pub Outside : ℕ → ℕ → List Segment → Type 0
Outside addr n [] = Unit {0}
Outside addr n (s ∷ ss) =
    ((addr + n ≤ s.p_paddr) ⊎ (s.p_paddr + s.p_filesz ≤ addr)) × Outside addr n ss

-- No two segments overlap in memory.
abbrev pub Separate : List Segment → Type 0
Separate [] = Unit {0}
Separate (s ∷ ss) = Outside s.p_paddr s.p_filesz ss × Separate ss

-- Each segment stands at its address.
abbrev pub Holds : ℕ → List ℕ → List ℕ → List Segment → Type 0
Holds base b storage [] = Unit {0}
Holds base b storage (s ∷ ss) =
    (slice storage (s.p_paddr - base) s.p_filesz ≡ image b s) × Holds base b storage ss

length-install :
    (base : ℕ) (b : List ℕ) (ss : List Segment) (storage : List ℕ)
    → length (install base b ss storage) ≡ length storage
unfolding install
length-install base b [] storage = refl
length-install base b (s ∷ ss) storage =
    length-install base b ss (overwrite storage (s.p_paddr - base) (image b s))
    ∙ length-overwrite storage (s.p_paddr - base) (image b s)

install-Outside :
    (base size addr n : ℕ) (b storage : List ℕ) (ss : List Segment)
    → base ≤ addr
    → AllInFile b ss
    → AllInRegion base size ss
    → Outside addr n ss
    → slice (install base b ss storage) (addr - base) n ≡ slice storage (addr - base) n
unfolding install
install-Outside base size addr n b storage [] h inside region apart = refl
install-Outside base size addr n b storage (s ∷ ss) h inside region apart =
    install-Outside base size addr n b (overwrite storage (s.p_paddr - base) (image b s)) ss h
      inside.1 region.1 apart.1
    ∙ slice-overwrite_outside storage (s.p_paddr - base) (image b s) (addr - base) n
        (shifted apart.0)
  where
    full : length (image b s) ≡ s.p_filesz
    full = length-slice b s.p_offset s.p_filesz inside.0.0

    shifted :
        (addr + n ≤ s.p_paddr) ⊎ (s.p_paddr + s.p_filesz ≤ addr)
        → (addr - base + n ≤ s.p_paddr - base)
          ⊎ (s.p_paddr - base + length (image b s) ≤ addr - base)
    shifted (inl below) = inl (omega arith)
    shifted (inr above) = inr (omega (arith, full, region.0))

install-Holds :
    (base size : ℕ) (b storage : List ℕ) (ss : List Segment)
    → length storage ≡ size
    → AllInFile b ss
    → AllInRegion base size ss
    → Separate ss
    → Holds base b (install base b ss storage) ss
unfolding install
install-Holds base size b storage [] e inside region apart = tt
install-Holds base size b storage (s ∷ ss) e inside region apart =
    let full = length-slice b s.p_offset s.p_filesz inside.0.0 in
    let storage' : List ℕ = overwrite storage (s.p_paddr - base) (image b s) in
    (
      install-Outside base size s.p_paddr s.p_filesz b storage' ss region.0.1 inside.1 region.1
            apart.0
          ∙ slice-overwrite_of_length storage (s.p_paddr - base) (image b s) s.p_filesz full
              (omega (arith, e, region.0)),
      install-Holds base size b storage' ss
          (length-overwrite storage (s.p_paddr - base) (image b s) ∙ e) inside.1 region.1 apart.1,
    )

module _ {World : Type 0} (dbg : World → Payload → World × Payload × ℕ) {base size : ℕ}
    (bus : HasMemory dbg base size) where
  ended : ℕ → World × Payload × ℕ → World × Outcome (Unit {0})
  ended len (w', trans, n) = (w', if n == len then done tt else threw backdoor_write_incomplete)

  back : World → ℕ → MemoryTlm × Payload × ℕ → World × Payload × ℕ
  back w addr (m', t', n) = (bus.set_memory w m', set_address t' addr, n)

  -- The write of a segment in the region.
  dbg_write-memory :
      (w : World) (b : List ℕ) (s : Segment)
      → (bus.memory w).read_only ≡ false
      → length (bus.memory w).storage ≡ size
      → s.p_offset + s.p_filesz ≤ length b
      → InRegion base size s
      → let m = bus.memory w in
        dbg_write dbg w s.p_paddr (image b s) s.p_filesz ≡ (
          bus.set_memory w
              (record m { storage = overwrite m.storage (s.p_paddr - base) (image b s) }),
          done tt,
        )
  unfolding dbg_write ended back
  dbg_write-memory w b s ram fits inside region =
      let m = bus.memory w in
      let local = set_address (image_write s.p_paddr (image b s) s.p_filesz) (s.p_paddr - base) in
      let stored =
        transport_dbg-write m local (image b s) refl refl ram
          (length-slice b s.p_offset s.p_filesz inside) (omega arith) in
      let whole : (s.p_filesz == s.p_filesz) ≡ true = ground arith in
      ap (ended s.p_filesz) (
        bus.dbg_memory w (image_write s.p_paddr (image b s) s.p_filesz) region.1 (omega arith)
        ∙ ap (back w s.p_paddr) stored)
      ∙ rw whole refl

  write_all-install :
      (w : World) (b : List ℕ) (ss : List Segment)
      → (bus.memory w).read_only ≡ false
      → length (bus.memory w).storage ≡ size
      → AllInFile b ss
      → AllInRegion base size ss
      → let (w', r) = write_all dbg w b ss in
        (r ≡ done tt)
        × (bus.memory w'
            ≡ record (bus.memory w) { storage = install base b ss (bus.memory w).storage })
  unfolding write_all install
  write_all-install w b [] ram fits inside region = (refl, refl)
  write_all-install w b (s ∷ ss) ram fits inside region =
      let m = bus.memory w in
      let m' : MemoryTlm = record m {
        storage = overwrite m.storage (s.p_paddr - base) (image b s);
      } in
      let w' = bus.set_memory w m' in
      let same : bus.memory w' ≡ m' = bus.memory-set_memory w m' in
      let now = dbg_write-memory w b s ram fits inside.0.0 region.0 in
      let (ends, left) =
        write_all-install w' b ss (ap (λ u. u.read_only) same ∙ ram)
          (ap (λ u. length u.storage) same
            ∙ length-overwrite m.storage (s.p_paddr - base) (image b s)
            ∙ fits)
          inside.1 region.1 in
      let step = ap (λ u. and_then u (λ v. write_all dbg v b ss)) now in
      (
        ap (λ u. u.1) step ∙ ends,
        ap (λ u. bus.memory u.0) step
            ∙ left
            ∙ ap (λ (u : MemoryTlm). record u { storage = install base b ss u.storage }) same,
      )

  -- An image whose segments stand in the file, are shorter than 4 GiB, and lie apart from each other
  -- in the region of a RAM behind the bus, is loaded: the result is the entry point, each segment
  -- stands at its address with the bytes of the file, every other byte of the RAM is as before, and
  -- the RAM has its size.
  pub load_elf-Holds :
      (w : World) (b : List ℕ) (h : Header) (ss : List Segment)
      → (bus.memory w).read_only ≡ false
      → length (bus.memory w).storage ≡ size
      → length b < 2 ^ 64
      → header b ≡ done h
      → segments b h ≡ done ss
      → AllInFile b ss
      → AllInRegion base size ss
      → Separate ss
      → let (w', r) = load_elf dbg w (some b) in
        let before = (bus.memory w).storage in
        let after = (bus.memory w').storage in
        (r ≡ done h.entry)
        × Holds base b after ss
        × ((addr n : ℕ)
            → base ≤ addr
            → Outside addr n ss
            → slice after (addr - base) n ≡ slice before (addr - base) n)
        × (length after ≡ size)
  load_elf-Holds w b h ss ram fits small e t inside region apart =
      let (ends, left) = write_all-install w b ss ram fits inside region in
      let whole = load_elf-write_all dbg w b h ss small e t inside in
      let before = (bus.memory w).storage in
      let stored : (bus.memory (load_elf dbg w (some b)).0).storage ≡ install base b ss before =
        ap (λ u. (bus.memory u.0).storage) whole ∙ ap (λ u. u.storage) left in
      (
        ap (λ u. u.1) whole ∙ ap (λ r. r >>= λ x. done h.entry) ends,
        subst (λ st. Holds base b st ss) (sym stored)
            (install-Holds base size b before ss fits inside region apart),
        λ addr n k out.
            ap (λ st. slice st (addr - base) n) stored
            ∙ install-Outside base size addr n b before ss k inside region out,
        ap length stored ∙ length-install base b ss before ∙ fits,
      )
