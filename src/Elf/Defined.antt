-- ===== src/Elf/Defined.antt =====
-- Which images the loader reads only inside their bytes.
use cdc_vp.Base.{
  ℕ, zero, suc, ◌+◌, ◌*◌, ◌%◌, ◌^◌, ◌-◌, ◌≤◌, ◌<◌, ◌≡◌, ◌≢◌, refl, Bool, true, false, not, Option,
  none, some, List, [], ◌∷◌, length, ltb, ◌==◌, if◌then◌else◌, get_elem?, IsBytes, arith,
}
use cdc_vp.Tlm.{Payload}
use cdc_vp.Elf.{
  out_of_range, Outcome, done, threw, undefined, ◌>>=◌, at, rd16, rd32, Header, header, Segment,
  header_offset, segment_at, segment32, loadable, found_at, and_then, act, load_segment, load_from,
  load_elf,
}

get_elem?-IsBytes : (b : List ℕ) (i x : ℕ) → IsBytes b → get_elem? b i ≡ some x → x < 256
get_elem?-IsBytes [] i x h e = cc
get_elem?-IsBytes (y ∷ b) zero x h e = ground arith
get_elem?-IsBytes (y ∷ b) (suc i) x h e = get_elem?-IsBytes b i x h.1 e

-- An outcome that is an exception, or a value with a property; it is not undefined.
abbrev pub Returns : {A : Type 0} → (A → Type 0) → Outcome A → Type 0
Returns P (done a) = P a
Returns P (threw e) = Unit {0}
Returns P undefined = ⊥

Returns-bind :
    {A B : Type 0} (P : A → Type 0) (Q : B → Type 0) (m : Outcome A) (f : A → Outcome B)
    → Returns P m
    → ((a : A) → P a → Returns Q (f a))
    → Returns Q (m >>= f)
Returns-bind P Q (done a) f h k = k a h
Returns-bind P Q (threw e) f h k = tt
Returns-bind P Q undefined f h k = absurd h

Returns-if :
    {A : Type 0} (P : A → Type 0) (t : Bool) (m n : Outcome A)
    → Returns P m
    → Returns P n
    → Returns P (if t then m else n)
Returns-if P true m n h k = h
Returns-if P false m n h k = k

abbrev IsByte : ℕ → Type 0
IsByte x = x < 256

abbrev IsWord : ℕ → Type 0
IsWord x = x < 2 ^ 32

at_elem :
    (b : List ℕ) (i : ℕ)
    → IsBytes b
    → Returns IsByte (elim (get_elem? b i) [ none ↦ threw out_of_range | some x ↦ done x ])
at_elem [] i h = tt
at_elem (y ∷ b) zero h = h.0
at_elem (y ∷ b) (suc i) h = at_elem b i h.1

-- A segment whose end does not wrap in 64 bits.
abbrev NoWrap : Option Segment → Type 0
NoWrap none = Unit {0}
NoWrap (some s) = s.p_offset + s.p_filesz < 2 ^ 64

skip_empty :
    (s : Segment)
    → s.p_offset + s.p_filesz < 2 ^ 64
    → NoWrap (if s.p_filesz == 0 then none else some s)
skip_empty s h = NoWrap-if (s.p_filesz == 0)
  where
    NoWrap-if : (t : Bool) → NoWrap (if t then none else some s)
    NoWrap-if true = tt
    NoWrap-if false = h

module _ (b : List ℕ) (h : IsBytes b) where
  at-Returns : (off : ℕ) → Returns IsByte (at b off)
  at-Returns off = at_elem b (off % 2 ^ 64) h

  rd16-Returns : (off : ℕ) → Returns (λ v. v < 65536) (rd16 b off)
  unfolding rd16
  rd16-Returns off =
      Returns-bind IsByte _ (at b off) _ (at-Returns off)
        λ x hx. Returns-bind IsByte _ (at b (off + 1)) _ (at-Returns (off + 1)) λ y hy. omega arith

  rd32-Returns : (off : ℕ) → Returns IsWord (rd32 b off)
  unfolding rd32
  rd32-Returns off = Returns-bind IsByte _ (at b off) _ (at-Returns off) λ x hx.
      Returns-bind IsByte _ (at b (off + 1)) _ (at-Returns (off + 1)) λ y hy.
        Returns-bind IsByte _ (at b (off + 2)) _ (at-Returns (off + 2)) λ z hz.
          Returns-bind IsByte _ (at b (off + 3)) _ (at-Returns (off + 3)) λ t ht. omega arith

  segment32-Returns : (ph : ℕ) → Returns (λ s. s.p_offset + s.p_filesz < 2 ^ 64) (segment32 b ph)
  unfolding segment32
  segment32-Returns ph = Returns-bind IsWord _ (rd32 b (ph + 4)) _ (rd32-Returns (ph + 4)) λ x hx.
      Returns-bind IsWord _ (rd32 b (ph + 12)) _ (rd32-Returns (ph + 12)) λ y hy.
        Returns-bind IsWord _ (rd32 b (ph + 16)) _ (rd32-Returns (ph + 16)) λ z hz. omega arith

  loadable-Returns : (ph : ℕ) → Returns (λ o. NoWrap o) (loadable b false ph)
  unfolding loadable
  loadable-Returns ph =
      Returns-bind (λ s. s.p_offset + s.p_filesz < 2 ^ 64) NoWrap (segment32 b ph) _
        (segment32-Returns ph) λ s small. skip_empty s small

  segment_at-Returns : (ph : ℕ) → Returns NoWrap (segment_at b false ph)
  unfolding segment_at
  segment_at-Returns ph = Returns-bind IsWord NoWrap (rd32 b ph) _ (rd32-Returns ph) λ t ht.
      Returns-if NoWrap (not (t == 1)) (done none) (loadable b false ph) tt (loadable-Returns ph)

  found_at-Returns :
      (hd : Header) (i : ℕ)
      → hd.is64 ≡ false
      → i * hd.phentsize < 2 ^ 31
      → Returns NoWrap (found_at b hd i)
  unfolding found_at header_offset
  found_at-Returns hd i e k =
      let small : ltb (2 ^ 31 - 1) (i * hd.phentsize) ≡ false = ground arith in
      rw (small, e) (segment_at-Returns ((hd.phoff + i * hd.phentsize) % 2 ^ 64))

module _ {ℓ} {World : Type ℓ} (dbg : World → Payload → World × Payload × ℕ) where
  load_segment-NoWrap :
      (w : World) (b : List ℕ) (s : Segment)
      → length b < 2 ^ 64
      → s.p_offset + s.p_filesz < 2 ^ 64
      → (load_segment dbg w b s).1 ≢ undefined
  unfolding load_segment
  load_segment-NoWrap w b s small h e = ground arith

  -- A segment of a 64-bit image whose end wraps to a place inside the file passes the test of its
  -- size, although it does not stand in the file: the bytes handed to the bus are read behind the
  -- end of the file's buffer.
  pub load_segment_wraps :
      (w : World) (b : List ℕ) (s : Segment)
      → s.p_filesz < 2 ^ 64
      → length b < s.p_offset
      → s.p_offset < 2 ^ 64
      → 2 ^ 64 ≤ s.p_offset + s.p_filesz
      → s.p_offset + s.p_filesz ≤ 2 ^ 64 + length b
      → load_segment dbg w b s ≡ (w, undefined)
  unfolding load_segment
  load_segment_wraps w b s hz ho hs wraps inside = ground arith

  act-NoWrap :
      (w : World) (b : List ℕ) (o : Outcome (Option Segment))
      → length b < 2 ^ 64
      → Returns NoWrap o
      → (act dbg w b o).1 ≢ undefined
  unfolding act
  act-NoWrap w b (done none) small h = λ e. cc
  act-NoWrap w b (done (some s)) small h = load_segment-NoWrap w b s small h
  act-NoWrap w b (threw x) small h = λ e. cc
  act-NoWrap w b undefined small h = absurd h

  and_then-ne-undefined :
      (r : World × Outcome (Unit {0})) (k : World → World × Outcome (Unit {0}))
      → r.1 ≢ undefined
      → ((u : World) → (k u).1 ≢ undefined)
      → (and_then r k).1 ≢ undefined
  and_then-ne-undefined (w, done x) k h g = g w
  and_then-ne-undefined (w, threw e) k h g = h
  and_then-ne-undefined (w, undefined) k h g = h

  load_from-ne-undefined :
      (left i : ℕ) (w : World) (b : List ℕ) (hd : Header)
      → IsBytes b
      → length b < 2 ^ 64
      → hd.is64 ≡ false
      → (i + left) * hd.phentsize < 2 ^ 31
      → (load_from dbg left i w b hd).1 ≢ undefined
  unfolding load_from
  load_from-ne-undefined zero i w b hd bytes small e k = λ x. cc
  load_from-ne-undefined (suc left) i w b hd bytes small e k =
      and_then-ne-undefined (act dbg w b (found_at b hd i)) (λ u. load_from dbg left (suc i) u b hd)
        (act-NoWrap w b (found_at b hd i) small (found_at-Returns b bytes hd i e (grind arith)))
        (λ u. load_from-ne-undefined left (suc i) u b hd bytes small e (grind arith))

  entry-ne-undefined :
      (r : Outcome (Unit {0})) (v : ℕ) → r ≢ undefined → (r >>= λ x. done v) ≢ undefined
  entry-ne-undefined (done x) v h = λ e. cc
  entry-ne-undefined (threw x) v h = λ e. cc
  entry-ne-undefined undefined v h = absurd (h refl)

  -- A 32-bit image whose program header table is shorter than 2 GiB is loaded, or refused with an
  -- exception, whatever its bytes are and whatever the bus answers: nothing is read outside the
  -- file, and no sum or product of its fields is undefined.
  pub load_elf_defined :
      (w : World) (b : List ℕ) (hd : Header)
      → IsBytes b
      → length b < 2 ^ 64
      → header b ≡ done hd
      → hd.is64 ≡ false
      → hd.phnum * hd.phentsize < 2 ^ 31
      → (load_elf dbg w (some b)).1 ≢ undefined
  unfolding load_elf
  load_elf_defined w b hd bytes small e narrow k =
      rw (e, load_elf)
        (entry-ne-undefined (load_from dbg hd.phnum 0 w b hd).1 hd.entry
          (load_from-ne-undefined hd.phnum 0 w b hd bytes small narrow (omega arith)))
