-- ===== src/Plic/Single.antt =====
-- A controller with one source, as riscv_custom_soc has: its claim and its completion.
use cdc_vp.Base.{
  ℕ, ◌≡◌, refl, Bool, true, false, some, List, [], ◌∷◌, ltb, bit, overwrite, take, le_bytes, of_le,
  arith,
}
use cdc_vp.Tlm.{Payload, is_read, SimTime, ok_response}
use cdc_vp.Plic.{
  PlicTlm, plic_tlm, eligible, any_eligible_from, any_eligible, update_meip, on_sources, best_from,
  best_source, do_claim, register_at, read_register, write_register, access, b_transport,
}

-- Its state: `unused` and `idle` are the entries of the id 0.
abbrev pub single : ℕ → Bool → ℕ → ℕ → ℕ → Bool → Bool → Bool → PlicTlm
single unused idle prio en limit line taken level = record {
  n = 1;
  priority = unused ∷ prio ∷ [];
  claimed = idle ∷ taken ∷ [];
  enable = en;
  threshold = limit;
  lines = line ∷ [];
  irq = level;
}

module _ (unused : ℕ) (idle : Bool) (prio en limit : ℕ) (set : bit en 1 ≡ true)
    (above : ltb limit prio ≡ true) where
  -- A new level of the line, with the source not being serviced.
  pub on_sources-single :
      (line level line' : Bool)
      → on_sources (single unused idle prio en limit line false level) (line' ∷ [])
        ≡ single unused idle prio en limit line' false line'
  unfolding on_sources update_meip any_eligible any_eligible_from eligible
  on_sources-single line level true = rw (set, above) refl
  on_sources-single line level false = refl

  -- A new level of the line while the source is being serviced.
  pub on_sources-taken :
      (line level line' : Bool)
      → on_sources (single unused idle prio en limit line true level) (line' ∷ [])
        ≡ single unused idle prio en limit line' true false
  unfolding on_sources update_meip any_eligible any_eligible_from eligible
  on_sources-taken line level true = rw set refl
  on_sources-taken line level false = refl

  positive : ltb 0 prio ≡ true
  positive = ground (arith, above)

  -- The read of the claim register while the line is high.
  pub b_transport-claim :
      (level : Bool) (trans : Payload) (delay : SimTime) (bytes : List ℕ)
      → trans.address ≡ 0x200004
      → trans.data_length ≡ 4
      → is_read trans.command ≡ true
      → trans.buffer ≡ some bytes
      → let (p', t', d) =
          b_transport (single unused idle prio en limit true false level) trans delay in
        (p' ≡ single unused idle prio en limit true true false)
        × (t'.buffer ≡ some (overwrite bytes 0 (le_bytes 4 1)))
        × (t'.response ≡ ok_response)
  unfolding b_transport access register_at read_register do_claim best_source best_from update_meip
      any_eligible any_eligible_from eligible
  b_transport-claim level trans delay bytes a l r b =
      rw (b, l, a, r, set, above, positive) (rw set refl, refl, refl)

  -- The same while the line is low: there is nothing to claim.
  pub b_transport-claim_nothing :
      (level : Bool) (trans : Payload) (delay : SimTime) (bytes : List ℕ)
      → trans.address ≡ 0x200004
      → trans.data_length ≡ 4
      → is_read trans.command ≡ true
      → trans.buffer ≡ some bytes
      → let (p', t', d) =
          b_transport (single unused idle prio en limit false false level) trans delay in
        (p' ≡ single unused idle prio en limit false false false)
        × (t'.buffer ≡ some (overwrite bytes 0 (le_bytes 4 0)))
        × (t'.response ≡ ok_response)
  unfolding b_transport access register_at read_register do_claim best_source best_from update_meip
      any_eligible any_eligible_from eligible
  b_transport-claim_nothing level trans delay bytes a l r b = rw (b, l, a, r) (refl, refl, refl)

  -- The write of the source's id to the claim register, with any level of the line.
  pub b_transport_complete :
      (line level : Bool) (trans : Payload) (delay : SimTime) (bytes : List ℕ)
      → trans.address ≡ 0x200004
      → trans.data_length ≡ 4
      → is_read trans.command ≡ false
      → trans.buffer ≡ some bytes
      → of_le (take 4 bytes) ≡ 1
      → let (p', t', d) =
          b_transport (single unused idle prio en limit line true level) trans delay in
        (p' ≡ single unused idle prio en limit line false line) × (t'.response ≡ ok_response)
  unfolding b_transport access register_at write_register update_meip any_eligible any_eligible_from
      eligible
  b_transport_complete true level trans delay bytes a l r b v =
      rw (b, l, a, r, v, set, above) (refl, refl)
  b_transport_complete false level trans delay bytes a l r b v = rw (b, l, a, r, v) (refl, refl)

  -- The write of 0, which is no source's id, while the source is not being serviced.
  pub b_transport-complete_nothing :
      (line level : Bool) (trans : Payload) (delay : SimTime) (bytes : List ℕ)
      → trans.address ≡ 0x200004
      → trans.data_length ≡ 4
      → is_read trans.command ≡ false
      → trans.buffer ≡ some bytes
      → of_le (take 4 bytes) ≡ 0
      → let (p', t', d) =
          b_transport (single unused idle prio en limit line false level) trans delay in
        (p' ≡ single unused idle prio en limit line false line) × (t'.response ≡ ok_response)
  unfolding b_transport access register_at write_register update_meip any_eligible any_eligible_from
      eligible
  b_transport-complete_nothing true level trans delay bytes a l r b v =
      rw (b, l, a, r, v, set, above) (refl, refl)
  b_transport-complete_nothing false level trans delay bytes a l r b v =
      rw (b, l, a, r, v) (refl, refl)

-- The configuration registers of the source.
pub data Setting : Type 0 where
  priority_of_source enable_word threshold_word : Setting

abbrev pub setting_at : Setting → ℕ
setting_at priority_of_source = 0x000004
setting_at enable_word = 0x002000
setting_at threshold_word = 0x200000

abbrev pub with_setting : Setting → ℕ → ℕ → ℕ → ℕ → PlicTlm
with_setting priority_of_source v prio en limit = single 0 false v en limit false false false
with_setting enable_word v prio en limit = single 0 false prio v limit false false false
with_setting threshold_word v prio en limit = single 0 false prio en v false false false

-- A write to one of them while the line is low.
pub b_transport-configure :
    (reg : Setting) (prio en limit v : ℕ) (trans : Payload) (delay : SimTime) (bytes : List ℕ)
    → trans.address ≡ setting_at reg
    → trans.data_length ≡ 4
    → is_read trans.command ≡ false
    → trans.buffer ≡ some bytes
    → of_le (take 4 bytes) ≡ v
    → let (p', t', d) = b_transport (single 0 false prio en limit false false false) trans delay in
      (p' ≡ with_setting reg v prio en limit) × (t'.response ≡ ok_response)
unfolding b_transport access register_at write_register update_meip any_eligible any_eligible_from
    eligible
b_transport-configure priority_of_source prio en limit v trans delay bytes a l r b e =
    rw (b, l, a, r, e) (refl, refl)
b_transport-configure enable_word prio en limit v trans delay bytes a l r b e =
    rw (b, l, a, r, e) (refl, refl)
b_transport-configure threshold_word prio en limit v trans delay bytes a l r b e =
    rw (b, l, a, r, e) (refl, refl)

pub plic_tlm-single : plic_tlm 1 ≡ single 0 false 0 0 0 false false false
unfolding plic_tlm
plic_tlm-single = refl
