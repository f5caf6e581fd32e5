-- ===== src/Plic/Line.antt =====
-- The interrupt line to the CPU, and the sizes of the tables, after any sequence of events.
use cdc_vp.Base.{
  ℕ, zero, suc, ◌≡◌, refl, sym, Bool, false, some, List, [], ◌∷◌, get_or, replicate, take, of_le,
  Option-cases, Bool-cases, inl, inr, ◌==◌, ◌-◌, ◌&&◌, leb, arith,
}
use cdc_vp.Tlm.{Payload, SimTime, is_read}
use cdc_vp.Plic.{
  PlicTlm, plic_tlm, eligible, any_eligible_from, any_eligible, update_meip, on_sources, do_claim,
  Register, priority_reg, pending_reg, enable_reg, threshold_reg, claim_reg, register_at,
  read_register, write_register, access, b_transport,
}

-- What happens to the controller: a transaction, or new levels of its input lines.
pub data Event : Type 0 where
  bus : Payload → SimTime → Event
  lines_change : List Bool → Event

unfoldable pub step : PlicTlm → Event → PlicTlm
step p (bus trans delay) = (b_transport p trans delay).0
step p (lines_change lines) = on_sources p lines

unfoldable pub run : PlicTlm → List Event → PlicTlm
run p [] = p
run p (e ∷ es) = run (step p e) es

-- Every effect of a transaction on the state is none, that of a register read, or that of a
-- register write.
pub b_transport_cases {ℓ} :
    (P : PlicTlm → Type ℓ) (p : PlicTlm) (trans : Payload) (delay : SimTime)
    → P p
    → ((reg : Register) → P (read_register p reg).1)
    → ((reg : Register) (bytes : List ℕ)
        → trans.buffer ≡ some bytes
        → is_read trans.command ≡ false
        → register_at p trans.address ≡ some reg
        → P (write_register p reg (of_le (take 4 bytes))))
    → P (b_transport p trans delay).0
unfolding b_transport access read_register
b_transport_cases P p trans delay same reads writes = elim (Option-cases trans.buffer) [
  | inl null ↦ rw (null, b_transport) same
  | inr (bytes, data_ptr) ↦ elim (Bool-cases (trans.data_length == 4)) [
    | inr wrong ↦ rw (data_ptr, b_transport, wrong) same
    | inl four ↦ elim (Option-cases (register_at p trans.address)) [
      | inl unmapped ↦ rw (data_ptr, b_transport, four, unmapped) same
      | inr (reg, mapped) ↦ elim (Bool-cases (is_read trans.command)) [
        | inl rd ↦ rw (data_ptr, b_transport, four, mapped, rd, access) (reads reg)
        | inr wr ↦
            rw (data_ptr, b_transport, four, mapped, wr, access)
              (writes reg bytes data_ptr wr mapped)
      ]
    ]
  ]
]

-- The level last given to the CPU is that of the present state.
abbrev pub LineIsCurrent : PlicTlm → Type 0
LineIsCurrent p = p.irq ≡ any_eligible p

any_eligible_from-irq :
    (p : PlicTlm) (level : Bool) (left id : ℕ)
    → any_eligible_from (record p { irq = level }) left id ≡ any_eligible_from p left id
unfolding any_eligible_from eligible
any_eligible_from-irq p level zero id = refl
any_eligible_from-irq p level (suc left) id = rw (any_eligible_from-irq p level left (suc id))

pub any_eligible-irq :
    (p : PlicTlm) (level : Bool) → any_eligible (record p { irq = level }) ≡ any_eligible p
unfolding any_eligible
any_eligible-irq p level = any_eligible_from-irq p level p.n 1

pub update_meip-LineIsCurrent : (p : PlicTlm) → LineIsCurrent (update_meip p)
unfolding update_meip
update_meip-LineIsCurrent p = sym (any_eligible-irq p (any_eligible p))

read_register-LineIsCurrent :
    (p : PlicTlm) (reg : Register) → LineIsCurrent p → LineIsCurrent (read_register p reg).1
unfolding read_register do_claim
read_register-LineIsCurrent p (priority_reg id) h = h
read_register-LineIsCurrent p claim_reg h = update_meip-LineIsCurrent _
read_register-LineIsCurrent p pending_reg h = h
read_register-LineIsCurrent p enable_reg h = h
read_register-LineIsCurrent p threshold_reg h = h

write_register-LineIsCurrent :
    (p : PlicTlm) (reg : Register) (value : ℕ)
    → LineIsCurrent p
    → LineIsCurrent (write_register p reg value)
unfolding write_register
write_register-LineIsCurrent p (priority_reg id) value h =
    elim (Bool-cases (leb 1 id && leb id p.n)) [
      | inl inside ↦ rw inside (update_meip-LineIsCurrent _)
      | inr outside ↦ rw outside h
    ]
write_register-LineIsCurrent p pending_reg value h = h
write_register-LineIsCurrent p enable_reg value h = update_meip-LineIsCurrent _
write_register-LineIsCurrent p threshold_reg value h = update_meip-LineIsCurrent _
write_register-LineIsCurrent p claim_reg value h = update_meip-LineIsCurrent _

pub step-LineIsCurrent : (p : PlicTlm) (e : Event) → LineIsCurrent p → LineIsCurrent (step p e)
unfolding step on_sources
step-LineIsCurrent p (bus trans delay) h =
    b_transport_cases LineIsCurrent p trans delay h (λ reg. read_register-LineIsCurrent p reg h)
      (λ reg bytes _ _ _. write_register-LineIsCurrent p reg (of_le (take 4 bytes)) h)
step-LineIsCurrent p (lines_change lines) h = update_meip-LineIsCurrent _

run-LineIsCurrent : (p : PlicTlm) (es : List Event) → LineIsCurrent p → LineIsCurrent (run p es)
unfolding run
run-LineIsCurrent p [] h = h
run-LineIsCurrent p (e ∷ es) h = run-LineIsCurrent (step p e) es (step-LineIsCurrent p e h)

get_or-replicate-false : (n i : ℕ) → get_or (replicate n false) i false ≡ false
get_or-replicate-false zero i = refl
get_or-replicate-false (suc n) zero = refl
get_or-replicate-false (suc n) (suc i) = get_or-replicate-false n i

not_eligible-plic_tlm : (n left id : ℕ) → any_eligible_from (plic_tlm n) left id ≡ false
unfolding any_eligible_from eligible plic_tlm
not_eligible-plic_tlm n zero id = refl
not_eligible-plic_tlm n (suc left) id =
    ground (arith, get_or-replicate-false n (id - 1), not_eligible-plic_tlm n left (suc id))

-- After any sequence of transactions and of changes of the input lines, the level last given to
-- the CPU by `set_irq` says whether some source is eligible in the state then reached.
pub run-plic_tlm-LineIsCurrent :
    (num_sources : ℕ) (es : List Event) → LineIsCurrent (run (plic_tlm num_sources) es)
run-plic_tlm-LineIsCurrent num_sources es =
    run-LineIsCurrent (plic_tlm num_sources) es
      (unfold any_eligible plic_tlm in sym (not_eligible-plic_tlm num_sources num_sources 1))
