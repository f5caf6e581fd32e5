-- ===== src/Memory/History.antt =====
-- A memory against its history: each byte is the one that was written to it last.
use cdc_vp.Base.{
  ℕ, zero, suc, ◌+◌, ◌-◌, ◌<◌, ◌≡◌, refl, ◌∙◌, Bool, not, ◌&&◌, Option, none, some, List, [], ◌∷◌,
  ltb, leb, if◌then◌else◌, length, take, get_or, overlay, overwrite, min, Option-cases, inl, inr,
  arith,
}
use cdc_vp.Tlm.{Payload, is_write}
use cdc_vp.Memory.{MemoryTlm, b_transport, transport_dbg, load}
use cdc_vp.Memory.Safety.{Access, timed, debug, backdoor, apply, apply_all, apply-SameShape}

-- A store: its first address, the number of bytes, and the buffer that they come from.
pub record Store : Type 0 where
  pub start : ℕ
  pub count : ℕ
  pub source : List ℕ

-- What a payload stores, if it is a write.
store_of : Payload → ℕ → Option Store
store_of trans n = elim trans.buffer [
  | none ↦ none
  | some bytes ↦
      if is_write trans.command
      then some (record { start = trans.address; count = n; source = bytes })
      else none
]

-- What an access stores in a memory of a size: a timed write all of its bytes or none, a debug write
-- those that fit; to a ROM neither does, and a backdoor load all or none.
unfoldable pub effect : ℕ → Bool → Access → Option Store
unfolding store_of
effect size rom (timed trans delay) =
    if leb (trans.address + trans.data_length) size && not rom
    then store_of trans trans.data_length
    else none
effect size rom (debug trans) =
    if leb trans.address size && not rom
    then store_of trans (min trans.data_length (size - trans.address))
    else none
effect size rom (backdoor src len offset) =
    if leb (offset + len) size
    then some (record { start = offset; count = len; source = src })
    else none

-- The byte at an address after a store, and after a sequence of accesses.
abbrev pub byte_after : Option Store → ℕ → ℕ → ℕ
byte_after none i old = old
byte_after (some s) i old =
    if leb s.start i && ltb i (s.start + s.count) then get_or s.source (i - s.start) old else old

unfoldable pub last_written : ℕ → Bool → List Access → ℕ → ℕ → ℕ
last_written size rom [] i old = old
last_written size rom (a ∷ rest) i old =
    last_written size rom rest i (byte_after (effect size rom a) i old)

get_or-overlay-take :
    (xs src : List ℕ) (n i : ℕ)
    → i < length xs
    → get_or (overlay xs (take n src)) i 0
      ≡ (if ltb i n then get_or src i (get_or xs i 0) else get_or xs i 0)
get_or-overlay-take [] src n i h = absurd (omega arith)
get_or-overlay-take (x ∷ xs) src zero i h = ground arith
get_or-overlay-take (x ∷ xs) [] (suc n) i h = ground arith
get_or-overlay-take (x ∷ xs) (y ∷ ys) (suc n) zero h = ground arith
get_or-overlay-take (x ∷ xs) (y ∷ ys) (suc n) (suc i) h =
    ground (arith, get_or-overlay-take xs ys n i (omega arith))

get_or-overwrite-take :
    (xs src : List ℕ) (o n i : ℕ)
    → i < length xs
    → get_or (overwrite xs o (take n src)) i 0
      ≡ (if leb o i && ltb i (o + n) then get_or src (i - o) (get_or xs i 0) else get_or xs i 0)
get_or-overwrite-take xs src zero n i h = ground (arith, get_or-overlay-take xs src n i h)
get_or-overwrite-take [] src (suc o) n i h = absurd (omega arith)
get_or-overwrite-take (x ∷ xs) src (suc o) n zero h = ground arith
get_or-overwrite-take (x ∷ xs) src (suc o) n (suc i) h =
    ground (arith, get_or-overwrite-take xs src o n i (omega arith))

get_or-apply :
    (m : MemoryTlm) (a : Access) (i : ℕ)
    → i < length m.storage
    → get_or (apply m a).storage i 0
      ≡ byte_after (effect (length m.storage) m.read_only a) i (get_or m.storage i 0)
unfolding apply b_transport transport_dbg load effect
get_or-apply m (timed trans delay) i h = elim (Option-cases trans.buffer) [
  | inl e ↦ ground arith
  | inr (bytes, e) ↦
      ground (arith, get_or-overwrite-take m.storage bytes trans.address trans.data_length i h)
]
get_or-apply m (debug trans) i h = elim (Option-cases trans.buffer) [
  | inl e ↦ ground arith
  | inr (bytes, e) ↦
      let n = min trans.data_length (length m.storage - trans.address) in
      ground (arith, get_or-overwrite-take m.storage bytes trans.address n i h)
]
get_or-apply m (backdoor src len offset) i h =
    ground (arith, get_or-overwrite-take m.storage src offset len i h)

-- After any sequence of timed, debug and backdoor accesses, each byte of a memory is the one that the
-- last access stored at its address, and the one from before if none did. A timed write and a
-- backdoor load store all of their bytes, if all fit, or none, and a debug write those that fit;
-- a ROM is stored to by a backdoor load only.
pub apply_all-last_written :
    (m : MemoryTlm) (accesses : List Access) (i : ℕ)
    → i < length m.storage
    → get_or (apply_all m accesses).storage i 0
      ≡ last_written (length m.storage) m.read_only accesses i (get_or m.storage i 0)
unfolding apply_all last_written
apply_all-last_written m [] i h = refl
apply_all-last_written m (a ∷ rest) i h =
    let shape = apply-SameShape m a in
    apply_all-last_written (apply m a) rest i (omega (arith, shape.same_size))
    ∙ rw (shape.same_size, shape.same_kind, get_or-apply m a i h) refl
