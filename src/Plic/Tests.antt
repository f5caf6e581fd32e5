-- ===== src/Plic/Tests.antt =====
-- A controller with three sources at concrete events.
use cdc_vp.Base.{ℕ, ◌≤◌, ◌≡◌, ◌≢◌, refl, true, false, some, List, [], ◌∷◌, arith}
use cdc_vp.Fixtures.{write_word, read_word}
use cdc_vp.Plic.{
  PlicTlm, plic_tlm, eligible, any_eligible, best_source, do_claim, update_meip, write_register,
  claim_reg, b_transport, pending_word, priority_of, read_register, register_at, access,
}
use cdc_vp.Plic.Select.{best_source_lem, any_eligible_iff}
use cdc_vp.Plic.Line.{Event, bus, lines_change, run, LineIsCurrent, run-plic_tlm-LineIsCurrent}
use cdc_vp.Plic.Gateway.{IsSized, claim_exclusive, complete-claim}

-- Sources 1, 2 and 3 raise their lines, with priorities 1, 5 and 5; all are enabled.
abbrev three : PlicTlm
three = record {
  n = 3;
  priority = 0 ∷ 1 ∷ 5 ∷ 5 ∷ [];
  claimed = false ∷ false ∷ false ∷ false ∷ [];
  enable = 14;
  threshold = 0;
  lines = true ∷ true ∷ true ∷ [];
  irq = true;
}

three-IsSized : IsSized three
three-IsSized = record { priorities = refl; claims = refl }

best-three : (best_source three ≡ 2) × (pending_word three ≡ 14)
unfolding best_source eligible pending_word
best-three = (refl, refl)

claim-three : (do_claim three).0 ≡ 2
unfolding do_claim best_source eligible
claim-three = refl

claim_ne_zero : (do_claim three).0 ≢ 0
claim_ne_zero = rw claim-three (omega arith)

-- A read of the claim register, and the write that completes source 2.
claim_on_the_bus :
    ((b_transport three (read_word 0x200004) 0).1.buffer ≡ some (2 ∷ 0 ∷ 0 ∷ 0 ∷ []))
    × ((b_transport three (write_word 0x200004 2) 0).0.claimed ≡ three.claimed)
unfolding b_transport access register_at read_register write_register do_claim best_source eligible
claim_on_the_bus = (refl, refl)

abbrev quiet_events : List Event
quiet_events = lines_change (false ∷ true ∷ false ∷ []) ∷ bus (write_word 0x200004 1) 0 ∷ []

claim_exclusive_example : (do_claim (run (do_claim three).1 quiet_events)).0 ≢ (do_claim three).0
claim_exclusive_example =
    claim_exclusive three quiet_events three-IsSized claim_ne_zero
      (rw claim-three (refl, (refl, tt)))

complete-claim_example :
    write_register (do_claim three).1 claim_reg (do_claim three).0 ≡ update_meip three
complete-claim_example = complete-claim three three-IsSized claim_ne_zero

best_source_lem_example :
    (best_source three ≡ 0 → (id : ℕ) → eligible three id ≡ false)
    × (best_source three ≢ 0 → eligible three (best_source three) ≡ true)
    × ((id : ℕ)
        → eligible three id ≡ true
        → (priority_of three id ≤ priority_of three (best_source three))
          × (priority_of three id ≡ priority_of three (best_source three) → best_source three ≤ id))
best_source_lem_example = best_source_lem three

any_eligible_iff_example :
    (any_eligible three ≡ true → (id : ℕ) × (eligible three id ≡ true))
    × ((id : ℕ) → eligible three id ≡ true → any_eligible three ≡ true)
any_eligible_iff_example = any_eligible_iff three

run-plic_tlm-LineIsCurrent_example : LineIsCurrent (run (plic_tlm 3) quiet_events)
run-plic_tlm-LineIsCurrent_example = run-plic_tlm-LineIsCurrent 3 quiet_events
