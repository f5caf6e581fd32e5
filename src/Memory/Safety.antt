-- ===== src/Memory/Safety.antt =====
-- What no transaction does to a memory: change its size, or the image of a ROM.
use cdc_vp.Base.{
  ℕ, ◌≡◌, refl, ◌∙◌, true, List, [], ◌∷◌, length, take, length-overwrite, arith, Option-cases, inl,
  inr, min, ◌-◌,
}
use cdc_vp.Tlm.{Payload, SimTime}
use cdc_vp.Memory.{MemoryTlm, b_transport, transport_dbg, load}

-- One access from outside.
pub data Access : Type 0 where
  timed : Payload → SimTime → Access
  debug : Payload → Access
  backdoor : List ℕ → ℕ → ℕ → Access

unfoldable pub apply : MemoryTlm → Access → MemoryTlm
apply m (timed trans delay) = (b_transport m trans delay).0
apply m (debug trans) = (transport_dbg m trans).0
apply m (backdoor src len offset) = (load m src len offset).0

unfoldable pub apply_all : MemoryTlm → List Access → MemoryTlm
apply_all m [] = m
apply_all m (a ∷ rest) = apply_all (apply m a) rest

-- What every access leaves as it is: the size, the kind and the latency.
pub record SameShape (m n : MemoryTlm) : Type 0 where
  pub same_size : length n.storage ≡ length m.storage
  pub same_kind : n.read_only ≡ m.read_only
  pub same_latency : n.access_latency ≡ m.access_latency

pub apply-SameShape : (m : MemoryTlm) (a : Access) → SameShape m (apply m a)
unfolding apply b_transport transport_dbg load
apply-SameShape m (timed trans delay) = elim (Option-cases trans.buffer) [
  | inl e ↦ ground arith
  | inr (bytes, e) ↦
      ground (arith, length-overwrite m.storage trans.address (take trans.data_length bytes))
]
apply-SameShape m (debug trans) = elim (Option-cases trans.buffer) [
  | inl e ↦ ground arith
  | inr (bytes, e) ↦
      let n = min trans.data_length (length m.storage - trans.address) in
      ground (arith, length-overwrite m.storage trans.address (take n bytes))
]
apply-SameShape m (backdoor src len offset) =
    ground (arith, length-overwrite m.storage offset (take len src))

-- No sequence of accesses, of any kind and in any order, changes the size, the kind or the latency
-- of a memory.
pub apply_all-SameShape :
    (m : MemoryTlm) (accesses : List Access) → SameShape m (apply_all m accesses)
unfolding apply_all
apply_all-SameShape m [] = record { same_size = refl; same_kind = refl; same_latency = refl }
apply_all-SameShape m (a ∷ rest) =
    let one = apply-SameShape m a in
    let more = apply_all-SameShape (apply m a) rest in
    record {
      same_size = more.same_size ∙ one.same_size;
      same_kind = more.same_kind ∙ one.same_kind;
      same_latency = more.same_latency ∙ one.same_latency;
    }

-- The accesses that a bus can make: all but the backdoor load.
abbrev pub FromBus : Access → Type 0
FromBus (backdoor src len offset) = ⊥
FromBus (debug trans) = Unit {0}
FromBus (timed trans delay) = Unit {0}

abbrev pub AllFromBus : List Access → Type 0
AllFromBus [] = Unit {0}
AllFromBus (a ∷ rest) = FromBus a × AllFromBus rest

rom-apply : (m : MemoryTlm) (a : Access) → m.read_only ≡ true → FromBus a → apply m a ≡ m
unfolding apply b_transport transport_dbg
rom-apply m (timed trans delay) rom bus = ground arith
rom-apply m (debug trans) rom bus = ground arith
rom-apply m (backdoor src len offset) rom bus = absurd bus

-- A ROM is the same after any sequence of timed and debug transactions.
pub rom-apply_all :
    (m : MemoryTlm) (accesses : List Access)
    → m.read_only ≡ true
    → AllFromBus accesses
    → apply_all m accesses ≡ m
unfolding apply_all
rom-apply_all m [] rom bus = refl
rom-apply_all m (a ∷ rest) rom bus = rw (rom-apply m a rom bus.0) (rom-apply_all m rest rom bus.1)
