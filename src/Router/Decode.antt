-- ===== src/Router/Decode.antt =====
-- What `decode` finds, and what `add_target` does to the map.
use cdc_vp.Base.{
  ℕ, zero, suc, ◌+◌, ◌^◌, ◌≤◌, ◌<◌, ◌≡◌, ap, ◌∙◌, ◌⊎◌, true, false, Option, none, some, List, [],
  ◌∷◌, length, get_or, Bool-cases, inl, inr, arith,
}
use cdc_vp.Range.{AddressRange, contains, InRange, contains_iff}
use cdc_vp.Router.{BusRouter, decode_from, decode, range_at}

abbrev pub nowhere : AddressRange
nowhere = record { base = 0; size = 0 }

-- What a search from index `i` over `rs` says by its result.
abbrev Found : ℕ → List AddressRange → ℕ → Option ℕ → Type 0
Found i rs addr none = (j : ℕ) → j < length rs → contains (get_or rs j nowhere) addr ≡ false
Found i rs addr (some idx) =
    (k : ℕ) × (idx ≡ i + k)
    × (k < length rs)
    × (contains (get_or rs k nowhere) addr ≡ true)
    × ((j : ℕ) → j < k → contains (get_or rs j nowhere) addr ≡ false)

-- A region that misses, in front of regions that miss up to `n`.
misses-cons :
    (r : AddressRange) (rs : List AddressRange) (addr n : ℕ)
    → contains r addr ≡ false
    → ((j : ℕ) → j < n → contains (get_or rs j nowhere) addr ≡ false)
    → (j : ℕ) → j < suc n
    → contains (get_or (r ∷ rs) j nowhere) addr ≡ false
misses-cons r rs addr n miss f zero h = miss
misses-cons r rs addr n miss f (suc j) h = f j (omega arith)

Found-cons :
    (i : ℕ) (r : AddressRange) (rs : List AddressRange) (addr : ℕ) (found : Option ℕ)
    → contains r addr ≡ false
    → Found (suc i) rs addr found
    → Found i (r ∷ rs) addr found
Found-cons i r rs addr none miss f = misses-cons r rs addr (length rs) miss f
Found-cons i r rs addr (some idx) miss f =
    (suc f.0, omega (arith, f.1), omega (arith, f.2), f.3, misses-cons r rs addr f.0 miss f.4)

decode_from-Found :
    (i : ℕ) (rs : List AddressRange) (addr : ℕ) → Found i rs addr (decode_from i rs addr)
unfolding decode_from
decode_from-Found i [] addr = λ j h. absurd (omega arith)
decode_from-Found i (r ∷ rs) addr = elim (Bool-cases (contains r addr)) [
  | inl hit ↦ rw (hit, decode_from) (0, omega arith, omega arith, hit, λ j h. absurd (omega arith))
  | inr miss ↦
      rw (miss, decode_from) (Found-cons i r rs addr _ miss (decode_from-Found (suc i) rs addr))
]

-- The index found is the first whose region contains the address: it is in the table, its region
-- contains the address, and no earlier one does.
pub decode_first :
    (r : BusRouter) (addr idx : ℕ)
    → decode r addr ≡ some idx
    → (idx < length r.ranges)
      × (contains (range_at r idx) addr ≡ true)
      × ((j : ℕ) → j < idx → contains (range_at r j) addr ≡ false)
unfolding decode
decode_first r addr idx e =
    let f : Found 0 r.ranges addr (some idx) = rw e at (decode_from-Found 0 r.ranges addr) in
    let same : idx ≡ f.0 = omega (arith, f.1) in (rw same f.2, rw same f.3, rw same f.4)

-- No index is found only if no region contains the address.
pub decode-none :
    (r : BusRouter) (addr j : ℕ)
    → decode r addr ≡ none
    → j < length r.ranges
    → contains (range_at r j) addr ≡ false
unfolding decode
decode-none r addr j e h =
    let f : Found 0 r.ranges addr none = rw e at (decode_from-Found 0 r.ranges addr) in f j h

-- Two regions with no common address.
abbrev pub Apart : AddressRange → AddressRange → Type 0
Apart r s = (r.base + r.size ≤ s.base) ⊎ (s.base + s.size ≤ r.base)

abbrev pub ApartFromAll : AddressRange → List AddressRange → Type 0
ApartFromAll r [] = Unit {0}
ApartFromAll r (s ∷ rs) = Apart r s × ApartFromAll r rs

-- A memory map: regions below the top of the address space, no two of which overlap.
abbrev pub IsMap : List AddressRange → Type 0
IsMap [] = Unit {0}
IsMap (r ∷ rs) = (r.base + r.size < 2 ^ 64) × ApartFromAll r rs × IsMap rs

pub IsMap-below :
    (rs : List AddressRange) (k : ℕ)
    → IsMap rs
    → k < length rs
    → (get_or rs k nowhere).base + (get_or rs k nowhere).size < 2 ^ 64
IsMap-below [] k m h = absurd (omega arith)
IsMap-below (r ∷ rs) zero m h = m.0
IsMap-below (r ∷ rs) (suc k) m h = IsMap-below rs k m.2 (omega arith)

Apart-get_or :
    (r : AddressRange) (rs : List AddressRange) (k addr : ℕ)
    → ApartFromAll r rs
    → k < length rs
    → InRange (get_or rs k nowhere) addr
    → InRange r addr
    → ⊥
Apart-get_or r [] k addr a h m n = omega arith
Apart-get_or r (s ∷ rs) zero addr a h m n = omega arith
Apart-get_or r (s ∷ rs) (suc k) addr a h m n = Apart-get_or r rs k addr a.1 (omega arith) m n

decode_from-IsMap :
    (i : ℕ) (rs : List AddressRange) (k addr : ℕ)
    → IsMap rs
    → k < length rs
    → InRange (get_or rs k nowhere) addr
    → decode_from i rs addr ≡ some (i + k)
unfolding decode_from
decode_from-IsMap i [] k addr m h n = absurd (omega arith)
decode_from-IsMap i (r ∷ rs) zero addr m h n =
    rw ((contains_iff r addr m.0).1 n) (ap some (omega arith))
decode_from-IsMap i (r ∷ rs) (suc k) addr m h n = elim (Bool-cases (contains r addr)) [
  | inl hit ↦
      absurd (Apart-get_or r rs k addr m.1 (omega arith) n ((contains_iff r addr m.0).0 hit))
  | inr miss ↦
      rw (miss, decode_from)
        (decode_from-IsMap (suc i) rs k addr m.2 (omega arith) n ∙ ap some (omega arith))
]

-- On a memory map, an address inside a region decodes to that region.
pub decode-IsMap :
    (r : BusRouter) (idx addr : ℕ)
    → IsMap r.ranges
    → idx < length r.ranges
    → InRange (range_at r idx) addr
    → decode r addr ≡ some idx
unfolding decode
decode-IsMap r idx addr m h n = decode_from-IsMap 0 r.ranges idx addr m h n ∙ ap some (omega arith)

-- What `decode` gives on a memory map is a region that the address lies in.
pub decode-InRange :
    (r : BusRouter) (idx addr : ℕ)
    → IsMap r.ranges
    → decode r addr ≡ some idx
    → (idx < length r.ranges) × InRange (range_at r idx) addr
decode-InRange r idx addr m e =
    let (inside, hit, _) = decode_first r addr idx e in
    (inside, (contains_iff (range_at r idx) addr (IsMap-below r.ranges idx m inside)).0 hit)
