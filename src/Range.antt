-- ===== src/Range.antt =====
-- components/common/include/common.h: address ranges with 64-bit bounds.
use cdc_vp.Base.{ℕ, ◌+◌, ◌%◌, ◌^◌, ◌≤◌, ◌<◌, ◌≡◌, ◌↔◌, Bool, true, false, ◌&&◌, leb, ltb, arith}

-- `address_range`
pub record AddressRange : Type 0 where
  pub base : ℕ
  pub size : ℕ

-- `address_range::contains`. `base + size` is a 64-bit sum, and wraps.
unfoldable pub contains : AddressRange → ℕ → Bool
contains r addr = leb r.base addr && ltb addr ((r.base + r.size) % 2 ^ 64)

-- The region [base, base + size).
abbrev pub InRange : AddressRange → ℕ → Type 0
InRange r addr = (r.base ≤ addr) × (addr < r.base + r.size)

-- Where the region ends below the top of the address space, `contains` decides the half-open
-- region that the comment on `address_range` describes.
pub contains_iff :
    (r : AddressRange) (addr : ℕ)
    → r.base + r.size < 2 ^ 64
    → (contains r addr ≡ true) ↔ InRange r addr
unfolding contains
contains_iff r addr h = ground arith

-- A region that reaches the top of the address space, or past it by less than its base, contains
-- no address: the end wraps to a value that is at most the base.
pub contains_wrapped :
    (r : AddressRange) (addr : ℕ)
    → r.base < 2 ^ 64
    → r.size < 2 ^ 64
    → 2 ^ 64 ≤ r.base + r.size
    → contains r addr ≡ false
unfolding contains
contains_wrapped r addr hb hs h = ground arith
