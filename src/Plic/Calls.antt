-- ===== src/Plic/Calls.antt =====
-- The calls of `set_irq` that a transaction makes, and the level of the interrupt.
use cdc_vp.Base.{
  ℕ, ◌≡◌, refl, sym, subst, [], Bool, true, false, some, List, take, of_le, Option-cases,
  Bool-cases, inl, inr, ◌==◌, ◌&&◌, leb,
}
use cdc_vp.Tlm.{Payload, SimTime, is_read}
use cdc_vp.Cpu.Levels.{last_level}
use cdc_vp.Plic.{
  PlicTlm, Register, priority_reg, pending_reg, enable_reg, threshold_reg, claim_reg, register_at,
  read_register, write_register, access, b_transport, register_calls, irq_calls,
}

-- The external interrupt is the level that the calls gave, and they give no other.
abbrev pub Tells : PlicTlm → List (ℕ × Bool) → PlicTlm → Type 0
Tells p calls p' =
    (last_level 11 p.irq calls ≡ p'.irq)
    × ((level : Bool) → last_level 3 level calls ≡ level)
    × ((level : Bool) → last_level 7 level calls ≡ level)

read_register-Tells :
    (p : PlicTlm) (reg : Register)
    → let p' = (read_register p reg).1 in Tells p (register_calls true p p' reg) p'
unfolding read_register
read_register-Tells p (priority_reg id) = (refl, λ l. refl, λ l. refl)
read_register-Tells p pending_reg = (refl, λ l. refl, λ l. refl)
read_register-Tells p enable_reg = (refl, λ l. refl, λ l. refl)
read_register-Tells p threshold_reg = (refl, λ l. refl, λ l. refl)
read_register-Tells p claim_reg = (refl, λ l. refl, λ l. refl)

write_register-Tells :
    (p : PlicTlm) (reg : Register) (value : ℕ)
    → let p' = write_register p reg value in Tells p (register_calls false p p' reg) p'
unfolding write_register
write_register-Tells p (priority_reg id) value = elim (Bool-cases (leb 1 id && leb id p.n)) [
  | inl inside ↦ rw inside (refl, λ l. refl, λ l. refl)
  | inr outside ↦ rw outside (refl, λ l. refl, λ l. refl)
]
write_register-Tells p pending_reg value = (refl, λ l. refl, λ l. refl)
write_register-Tells p enable_reg value = (refl, λ l. refl, λ l. refl)
write_register-Tells p threshold_reg value = (refl, λ l. refl, λ l. refl)
write_register-Tells p claim_reg value = (refl, λ l. refl, λ l. refl)

-- What the states after and the calls are, in the two branches.
Tells-accessed :
    (p p' q : PlicTlm) (calls : List (ℕ × Bool)) (rd : Bool) (reg : Register)
    → p' ≡ q
    → calls ≡ register_calls rd p p' reg
    → Tells p (register_calls rd p q reg) q
    → Tells p calls p'
Tells-accessed p p' q calls rd reg same told h =
    subst (λ cs. Tells p cs p') (sym told)
      (subst (λ s. Tells p (register_calls rd p s reg) s) (sym same) h)

irq_calls-register :
    (p p' : PlicTlm) (trans : Payload) (bytes : List ℕ) (rd : Bool) (reg : Register)
    → trans.buffer ≡ some bytes
    → (trans.data_length == 4) ≡ true
    → register_at p trans.address ≡ some reg
    → is_read trans.command ≡ rd
    → irq_calls p trans p' ≡ register_calls rd p p' reg
unfolding irq_calls
irq_calls-register p p' trans bytes rd reg data_ptr four mapped is_rd =
    rw (data_ptr, irq_calls, four, mapped, is_rd) refl

pub b_transport-Tells :
    (p : PlicTlm) (trans : Payload) (delay : SimTime)
    → let p' = (b_transport p trans delay).0 in Tells p (irq_calls p trans p') p'
unfolding b_transport irq_calls access
b_transport-Tells p trans delay =
    let p' = (b_transport p trans delay).0 in
    elim (Option-cases trans.buffer) [
      | inl null ↦ untouched p' (rw (null, b_transport) refl) (rw (null, irq_calls) refl)
      | inr (bytes, data_ptr) ↦ elim (Bool-cases (trans.data_length == 4)) [
        | inr wrong ↦
            untouched p' (rw (data_ptr, b_transport, wrong) refl)
              (rw (data_ptr, irq_calls, wrong) refl)
        | inl four ↦ elim (Option-cases (register_at p trans.address)) [
          | inl unmapped ↦
              untouched p' (rw (data_ptr, b_transport, four, unmapped) refl)
                (rw (data_ptr, irq_calls, four, unmapped) refl)
          | inr (reg, mapped) ↦ elim (Bool-cases (is_read trans.command)) [
            | inl read ↦
                Tells-accessed p p' (read_register p reg).1 (irq_calls p trans p') true reg
                  (rw (data_ptr, b_transport, four, mapped, read, access) refl)
                  (irq_calls-register p p' trans bytes true reg data_ptr four mapped read)
                  (read_register-Tells p reg)
            | inr write ↦
                Tells-accessed p p' (write_register p reg (of_le (take 4 bytes)))
                  (irq_calls p trans p') false reg
                  (rw (data_ptr, b_transport, four, mapped, write, access) refl)
                  (irq_calls-register p p' trans bytes false reg data_ptr four mapped write)
                  (write_register-Tells p reg (of_le (take 4 bytes)))
          ]
        ]
      ]
    ]
  where
    untouched :
        (p' : PlicTlm) → p' ≡ p → irq_calls p trans p' ≡ [] → Tells p (irq_calls p trans p') p'
    untouched p' same told =
        subst (λ cs. Tells p cs p') (sym told)
          (subst (λ s. Tells p [] s) (sym same) (refl, λ l. refl, λ l. refl))
