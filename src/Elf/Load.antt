-- ===== src/Elf/Load.antt =====
-- The loader against a reference that reads the whole program header table before it writes.
use cdc_vp.Base.{
  ℕ, zero, suc, ◌+◌, ◌%◌, ◌^◌, ◌≤◌, ◌<◌, ◌≡◌, refl, ap, sym, subst, fun_ext, ◌∙◌, false, Option,
  none, some, List, [], ◌∷◌, length, ltb, slice, arith,
}
use cdc_vp.Tlm.{Payload}
use cdc_vp.Elf.{
  Outcome, done, threw, undefined, ◌>>=◌, Header, header, Segment, found_at, and_then, act,
  dbg_write, load_segment, load_from, load_elf,
}

abbrev add_found : Option Segment → List Segment → List Segment
add_found none rest = rest
add_found (some s) rest = s ∷ rest

-- The loadable segments of the program headers `i` to `i + left - 1`.
unfoldable pub segments_from : ℕ → ℕ → List ℕ → Header → Outcome (List Segment)
segments_from zero i b h = done []
segments_from (suc left) i b h = do
  found ← found_at b h i
  rest ← segments_from left (suc i) b h
  done (add_found found rest)

-- The loadable segments of an image.
unfoldable pub segments : List ℕ → Header → Outcome (List Segment)
unfolding segments_from
segments b h = segments_from h.phnum 0 b h

-- A segment that stands in the file, and whose length fits the type of a payload's.
abbrev pub InFile : List ℕ → Segment → Type 0
InFile b s = (s.p_offset + s.p_filesz ≤ length b) × (s.p_filesz < 2 ^ 32)

abbrev pub AllInFile : List ℕ → List Segment → Type 0
AllInFile b [] = Unit {0}
AllInFile b (s ∷ ss) = InFile b s × AllInFile b ss

-- A sequence that ends normally did so in both parts.
pub >>=-eq-done {ℓ κ} :
    {A : Type ℓ} {B : Type κ} (m : Outcome A) (f : A → Outcome B) {b : B}
    → (m >>= f) ≡ done b
    → (a : A) × (m ≡ done a) × (f a ≡ done b)
>>=-eq-done (done a) f h = (a, refl, h)
>>=-eq-done (threw e) f h = cc
>>=-eq-done undefined f h = cc

module _ {ℓ} {World : Type ℓ} (dbg : World → Payload → World × Payload × ℕ) where
  -- The writes of a list of segments, in order, up to the first that fails.
  unfoldable pub write_all : World → List ℕ → List Segment → World × Outcome (Unit {0})
  write_all w b [] = (w, done tt)
  write_all w b (s ∷ ss) =
      and_then (dbg_write dbg w s.p_paddr (slice b s.p_offset s.p_filesz) s.p_filesz)
        (λ w'. write_all w' b ss)

  load_segment-InFile :
      (w : World) (b : List ℕ) (s : Segment)
      → length b < 2 ^ 64
      → InFile b s
      → load_segment dbg w b s
        ≡ dbg_write dbg w s.p_paddr (slice b s.p_offset s.p_filesz) s.p_filesz
  unfolding load_segment
  load_segment-InFile w b s small f =
      let fits : s.p_filesz % 2 ^ 32 ≡ s.p_filesz = omega arith in
      let inside : ltb (length b) ((s.p_offset + s.p_filesz) % 2 ^ 64) ≡ false = ground arith in
      let readable : ltb (length b) (s.p_offset + s.p_filesz) ≡ false = ground arith in
      rw (fits, inside, readable) refl

  -- A round, by the program header that it finds.
  round-write_all :
      (left i : ℕ) (w : World) (b : List ℕ) (h : Header) (found : Option Segment)
      (rest ss : List Segment)
      → length b < 2 ^ 64
      → found_at b h i ≡ done found
      → ((u : World) → AllInFile b rest → load_from dbg left (suc i) u b h ≡ write_all u b rest)
      → add_found found rest ≡ ss
      → AllInFile b ss
      → load_from dbg (suc left) i w b h ≡ write_all w b ss
  unfolding load_from write_all act
  round-write_all left i w b h none rest ss small e ih a f =
      ap (λ o. and_then (act dbg w b o) (λ u. load_from dbg left (suc i) u b h)) e
      ∙ ih w (subst (AllInFile b) (sym a) f)
      ∙ ap (write_all w b) a
  round-write_all left i w b h (some s) rest ss small e ih a f =
      let (here, later) = subst (AllInFile b) (sym a) f in
      let written = dbg_write dbg w s.p_paddr (slice b s.p_offset s.p_filesz) s.p_filesz in
      let next : World → World × Outcome (Unit {0}) = λ u. load_from dbg left (suc i) u b h in
      ap (λ o. and_then (act dbg w b o) next) e
      ∙ ap (λ r. and_then r next) (load_segment-InFile w b s small here)
      ∙ ap (and_then written) (fun_ext (λ u. ih u later))
      ∙ ap (write_all w b) a

  load_from-write_all :
      (left i : ℕ) (w : World) (b : List ℕ) (h : Header) (ss : List Segment)
      → length b < 2 ^ 64
      → segments_from left i b h ≡ done ss
      → AllInFile b ss
      → load_from dbg left i w b h ≡ write_all w b ss
  unfolding segments_from
  load_from-write_all zero i w b h ss small e f =
      let empty : [] ≡ ss = cc in unfold load_from write_all in ap (write_all w b) empty
  load_from-write_all (suc left) i w b h ss small e f =
      let (found, seen, e') =
        >>=-eq-done (found_at b h i)
          (λ o. segments_from left (suc i) b h >>= λ rest. done (add_found o rest)) e in
      let (rest, later, e'') =
        >>=-eq-done (segments_from left (suc i) b h) (λ rest. done (add_found found rest)) e' in
      round-write_all left i w b h found rest ss small seen
        (λ u g. load_from-write_all left (suc i) u b h rest small later g) (cc) f

  -- The loader, which writes each segment as soon as it has read its program header, does what
  -- reading the whole table first and then writing the segments in its order does, for an image
  -- whose headers can be read and whose segments stand in the file and are shorter than 4 GiB; its
  -- result is the entry point, unless a write fails.
  pub load_elf-write_all :
      (w : World) (b : List ℕ) (h : Header) (ss : List Segment)
      → length b < 2 ^ 64
      → header b ≡ done h
      → segments b h ≡ done ss
      → AllInFile b ss
      → load_elf dbg w (some b) ≡ (let (w', r) = write_all w b ss in (w', r >>= λ x. done h.entry))
  unfolding load_elf segments
  load_elf-write_all w b h ss small e t f =
      rw (e, load_elf) (rw (load_from-write_all h.phnum 0 w b h ss small t f) refl)
